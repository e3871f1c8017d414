-- ===== src/Filewatch/Changes/Agreement.antt =====
-- internal/collectors/filewatch/baseline.go, `compareSnapshots`: when it says that nothing has changed.
use pooly_sentinel.Prelude.{
  ◌≡◌, ◌↔◌, eq_ℤ, eq_ℤ_sound, eq_ℤ_refl, true, text_eq, text_eq_iff, text_eq_refl, arith,
}
use pooly_sentinel.Filewatch.Types.{Snapshot}
use pooly_sentinel.Filewatch.Changes.{unchanged, compare_snapshots}

-- Two snapshots agree on all that is compared.
pub record Agree (a b : Snapshot) : Type 0 where
  pub exists : a.exists ≡ b.exists
  pub type : a.type ≡ b.type
  pub mode : a.mode ≡ b.mode
  pub uid : a.uid ≡ b.uid
  pub gid : a.gid ≡ b.gid
  pub hash : a.hash ≡ b.hash
  pub manifest_hash : a.manifest_hash ≡ b.manifest_hash
  pub size : a.size ≡ b.size
  pub mod_time_unix : a.mod_time_unix ≡ b.mod_time_unix

Agree-unchanged : (a b : Snapshot) → Agree a b → compare_snapshots a b ≡ unchanged
unfolding compare_snapshots
Agree-unchanged a b h =
    rw (h.exists, h.type, h.mode, h.uid, h.gid, h.hash, h.manifest_hash, h.size, h.mod_time_unix)
      (ground (
        arith,
        text_eq_refl b.type,
        text_eq_refl b.mode,
        eq_ℤ_refl b.uid,
        eq_ℤ_refl b.gid,
        text_eq_refl b.hash,
        text_eq_refl b.manifest_hash,
        eq_ℤ_refl b.size,
        eq_ℤ_refl b.mod_time_unix,
      ))

unchanged_tests :
    (a b : Snapshot)
    → compare_snapshots a b ≡ unchanged
    → (a.exists ≡ b.exists)
      × (text_eq a.type b.type ≡ true)
      × (text_eq a.mode b.mode ≡ true)
      × (eq_ℤ a.uid b.uid ≡ true)
      × (eq_ℤ a.gid b.gid ≡ true)
      × (text_eq a.hash b.hash ≡ true)
      × (text_eq a.manifest_hash b.manifest_hash ≡ true)
      × (eq_ℤ a.size b.size ≡ true)
      × (eq_ℤ a.mod_time_unix b.mod_time_unix ≡ true)
unfolding compare_snapshots
unchanged_tests a b h = ground arith

-- A comparison finds nothing changed exactly where the snapshots agree on whether there is a file, its
-- type, mode, owner and group, the hashes of its contents and of its entries, its size and its time.
pub compare_snapshots-iff-Agree : (a b : Snapshot) → (compare_snapshots a b ≡ unchanged) ↔ Agree a b
compare_snapshots-iff-Agree a b = (
  λ h.
      let (exists, type, mode, uid, gid, hash, manifest, size, time) = unchanged_tests a b h in
      record {
        exists = exists;
        type = (text_eq_iff a.type b.type).0 type;
        mode = (text_eq_iff a.mode b.mode).0 mode;
        uid = eq_ℤ_sound a.uid b.uid uid;
        gid = eq_ℤ_sound a.gid b.gid gid;
        hash = (text_eq_iff a.hash b.hash).0 hash;
        manifest_hash = (text_eq_iff a.manifest_hash b.manifest_hash).0 manifest;
        size = eq_ℤ_sound a.size b.size size;
        mod_time_unix = eq_ℤ_sound a.mod_time_unix b.mod_time_unix time;
      },
  Agree-unchanged a b,
)
