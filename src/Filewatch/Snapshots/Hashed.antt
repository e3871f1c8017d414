-- ===== src/Filewatch/Snapshots/Hashed.antt =====
-- internal/collectors/filewatch/baseline.go, `SnapshotTarget`: what a hash of contents stands for.
use pooly_sentinel.Prelude.{◌≡◌, ℤ, pos, leb_ℤ, true, false, not, ◌&&◌, Text, length}
use pooly_sentinel.Effect.{ok, Context, check_context}
use pooly_sentinel.Filewatch.Types.{regular, FileInfo, FileSource, Packages, Target, Snapshot}
use pooly_sentinel.Filewatch.Names.{looks_private_key_path}
use pooly_sentinel.Filewatch.Manifest.{hash_bytes}
use pooly_sentinel.Filewatch.Snapshots.{max_bytes_or}
use pooly_sentinel.Filewatch.Snapshots.Reading.{IsReading}

module _ (pk : Packages) (t : Target) {S : Type 0} (ctx : Context S) (source : FileSource S) where
  -- The snapshot has the hash of the bytes of one complete reading, which the target asks for.
  pub record IsContents (info : FileInfo) (max_bytes : ℤ) (s s' : S) (x : Snapshot) : Type 0 where
    pub bytes : Text
    pub plain : info.kind ≡ regular
    pub asked : t.hash ≡ true
    pub allowed :
        looks_private_key_path pk (pk.clean t.path) && not t.allow_private_key_hash ≡ false
    pub bounded : leb_ℤ (pos (length bytes)) max_bytes ≡ true
    pub is_read : IsReading ctx source (pk.clean t.path) info s s' bytes
    pub hash : x.hash ≡ hash_bytes pk bytes

  -- A successful run of the function from `s` to `s'` that looks at the target and then reads it.
  pub record IsHashed (max_bytes : ℤ) (s s' : S) (x : Snapshot) : Type 0 where
    pub info : FileInfo
    pub s₁ : S
    pub s₂ : S
    pub live : check_context ctx s ≡ (ok tt, s₁)
    pub looks : source.lstat (pk.clean t.path) s₁ ≡ (ok info, s₂)
    pub contents : IsContents info (max_bytes_or max_bytes) s₂ s' x
