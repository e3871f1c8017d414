-- ===== src/Filewatch/Snapshots.antt =====
-- internal/collectors/filewatch/baseline.go, `SnapshotTarget` and `readBoundedRegular`. A context and a
-- source are always given.
pub mod Hashed
pub mod Reading
use pooly_sentinel.Prelude.{
  ℕ, ◌+◌, ℤ, pos, leb_ℤ, eq_ℤ, Bool, true, false, not, ◌&&◌, ◌||◌, Option, none, some, List, [],
  ◌∷◌, Text, text, text_eq, is_empty, length, ◌==◌, if◌then◌else◌,
}
use pooly_sentinel.Effect.{
  Error, Result, ok, err, message, Exec, Context, pure, raise, ◌>>=◌, ◌>>◌, check_context,
}
use pooly_sentinel.Filewatch.Types.{
  FileKind, symlink, regular, directory, other, Stat, FileInfo, OpenedFile, FileSource, Packages,
  Target, Snapshot, file_type,
}
use pooly_sentinel.Filewatch.Names.{target_name, looks_private_key_path}
use pooly_sentinel.Filewatch.Manifest.{owner, hash_bytes, manifest_hash}

-- `targetTypeMismatch`.
unfoldable pub target_type_mismatch : Text → Text → Text
unfolding text_eq text
target_type_mismatch configured actual =
    if text_eq configured (text "file") && not (text_eq actual (text "file"))
      || text_eq configured (text "directory") && not (text_eq actual (text "directory"))
    then text "type_mismatch"
    else []

-- `a.Mode().Type() == b.Mode().Type()`.
unfoldable pub same_kind : FileKind → FileKind → Bool
same_kind symlink symlink = true
same_kind regular regular = true
same_kind directory directory = true
same_kind (other m) (other n) = m == n
same_kind _ _ = false

unfoldable pub same_object : FileInfo → FileInfo → Bool
unfolding same_kind eq_ℤ
same_object a b = elim a.stat [
  | none ↦ same_kind a.kind b.kind && eq_ℤ a.size b.size && a.mod_time == b.mod_time
  | some x ↦ (elim b.stat [
    | none ↦ same_kind a.kind b.kind && eq_ℤ a.size b.size && a.mod_time == b.mod_time
    | some y ↦ x.dev == y.dev && x.ino == y.ino
  ])
]

-- The default of `maxFileBytes`.
unfoldable pub max_bytes_or : ℤ → ℤ
max_bytes_or n = if leb_ℤ n (pos 0) then pos 1048576 else n

unfoldable pub is_regular : FileKind → Bool
is_regular regular = true
is_regular _ = false

unfoldable pub is_directory : FileKind → Bool
is_directory directory = true
is_directory _ = false

unfoldable pub is_symlink : FileKind → Bool
is_symlink symlink = true
is_symlink _ = false

-- `defer opened.Close()`.
unfoldable pub closing : {S A : Type 0} → OpenedFile S → Exec S A → Exec S A
closing opened m s = let (r, s') = m s in (r, opened.close s')

-- n + 1 of the bytes, where n is positive.
unfoldable pub one_more : ℤ → ℤ
one_more (pos n) = pos (n + 1)
one_more n = n

-- The snapshot after the entries were read.
unfoldable pub with_entries : Snapshot → ℤ → Text × ℤ × Bool → Snapshot
unfolding text
with_entries snapshot max_entries (hash, observed, truncated) = record snapshot {
  manifest_hash = hash;
  manifest_complete = not truncated;
  manifest_truncated = truncated;
  entry_count_observed = observed;
  entry_limit = max_entries;
  incomplete_reason = if truncated then text "manifest_truncated" else snapshot.incomplete_reason;
}

module _ (pk : Packages) where
  -- The snapshot of a target that is not there.
  unfoldable pub absent : Target → Snapshot
  unfolding target_name
  absent t = record {
    name = target_name pk t;
    path = pk.clean t.path;
    exists = false;
    type = [];
    uid = pos 0;
    gid = pos 0;
    mode = [];
    size = pos 0;
    mod_time_unix = pos 0;
    hash = [];
    hash_complete = false;
    oversized = false;
    source_changed = false;
    manifest_hash = [];
    manifest_complete = false;
    manifest_truncated = false;
    entry_count_observed = pos 0;
    entry_limit = pos 0;
    incomplete_reason = [];
  }

  -- What `Lstat` tells of a target.
  unfoldable pub described : Target → FileInfo → Snapshot
  unfolding absent file_type owner
  described t info = record (absent t) {
    exists = true;
    type = file_type info.kind;
    mode = info.perm;
    size = info.size;
    mod_time_unix = pk.unix info.mod_time;
    uid = (owner info).0;
    gid = (owner info).1;
  }

  -- The snapshot after the bytes were read.
  unfoldable pub with_contents : Snapshot → ℤ → Text × Bool → Snapshot
  unfolding hash_bytes text
  with_contents snapshot max_bytes (bytes, changed) =
      if changed
      then record snapshot { source_changed = true; incomplete_reason = text "source_changed" }
      else if not (leb_ℤ (pos (length bytes)) max_bytes)
      then record snapshot { oversized = true; incomplete_reason = text "file_oversized" }
      else record snapshot { hash = hash_bytes pk bytes; hash_complete = true }

module _ (pk : Packages) {S : Type 0} (ctx : Context S) (source : FileSource S) where
  -- From `opened.Stat()` on: the bytes, and whether the source has changed.
  unfoldable pub read_opened : OpenedFile S → FileInfo → ℤ → Exec S (Text × Bool)
  unfolding is_regular same_object one_more
  read_opened opened initial max_bytes = do
    info ← opened.stat
    if not (is_regular info.kind) || not (same_object initial info) then pure ([], true) else (do
      check_context ctx
      bytes ← opened.read (one_more max_bytes)
      check_context ctx
      pure (bytes, false))

  unfoldable pub read_bounded_regular : Text → FileInfo → ℤ → Exec S (Text × Bool)
  unfolding read_opened closing text
  read_bounded_regular path initial max_bytes = do
    check_context ctx
    found ← source.open_no_follow path
    elim found [
      | none ↦ raise (message (text "open returned nil file"))
      | some opened ↦ closing opened (read_opened opened initial max_bytes)
    ]

  -- The branch for a regular file.
  unfoldable pub hash_file : Target → FileInfo → Snapshot → ℤ → Exec S Snapshot
  unfolding looks_private_key_path read_bounded_regular with_contents text
  hash_file t info snapshot max_bytes =
      if not (leb_ℤ info.size max_bytes)
      then pure (record snapshot { oversized = true; incomplete_reason = text "file_oversized" })
      else if looks_private_key_path pk (pk.clean t.path) && not t.allow_private_key_hash
      then pure snapshot
      else (read_bounded_regular (pk.clean t.path) info max_bytes >>= λ got.
          pure (with_contents pk snapshot max_bytes got))

  -- The branch for a directory.
  unfoldable pub hash_directory : Target → Snapshot → ℤ → Exec S Snapshot
  unfolding manifest_hash with_entries
  hash_directory t snapshot max_entries = do
    check_context ctx
    entries ← source.read_dir (pk.clean t.path)
    got ← manifest_hash pk entries max_entries
    pure (with_entries snapshot max_entries got)

  -- From the test for a symbolic link on. A file is no directory, so at most one branch hashes.
  unfoldable pub hash_target : Target → FileInfo → Snapshot → ℤ → ℤ → Exec S Snapshot
  unfolding is_symlink is_regular is_directory target_type_mismatch max_bytes_or hash_file
      hash_directory text
  hash_target t info snapshot max_bytes max_entries =
      if is_symlink info.kind
      then pure (record snapshot { incomplete_reason = text "symlink_rejected" })
      else if not (is_empty (target_type_mismatch t.type snapshot.type))
      then pure (record snapshot { incomplete_reason = target_type_mismatch t.type snapshot.type })
      else if is_regular info.kind && t.hash
      then hash_file t info snapshot (max_bytes_or max_bytes)
      else if is_directory info.kind && t.manifest
      then hash_directory t snapshot max_entries
      else pure snapshot

  -- From the return of `Lstat` on.
  unfoldable pub after_lstat : Target → ℤ → ℤ → Result FileInfo × S → Result Snapshot × S
  unfolding absent described hash_target
  after_lstat t max_bytes max_entries (err e, s) =
      if source.is_not_exist e then (ok (absent pk t), s) else (err e, s)
  after_lstat t max_bytes max_entries (ok info, s) =
      hash_target t info (described pk t info) max_bytes max_entries s

  unfoldable pub snapshot_target : Target → ℤ → ℤ → Exec S Snapshot
  unfolding after_lstat
  snapshot_target t max_bytes max_entries =
      check_context ctx
      >> (λ s. after_lstat t max_bytes max_entries (source.lstat (pk.clean t.path) s))
