-- ===== src/Filewatch/Types.antt =====
-- internal/collectors/filewatch/baseline.go: the types. What package os returns is a parameter.
use pooly_sentinel.Prelude.{ℕ, ℤ, Bool, Option, List, Text, text}
use pooly_sentinel.Effect.{Error, Exec}

-- `info.Mode()`, as far as `fileType` tells kinds apart; the others keep their bits.
pub data FileKind : Type 0 where
  symlink regular directory : FileKind
  other : ℕ → FileKind

-- `syscall.Stat_t`.
pub record Stat : Type 0 where
  pub uid : ℕ
  pub gid : ℕ
  pub dev : ℕ
  pub ino : ℕ

-- `fs.FileInfo`. `stat` is `info.Sys()`, where it is a `Stat_t`.
pub record FileInfo : Type 0 where
  pub kind : FileKind
  pub perm : Text
  pub size : ℤ
  pub mod_time : ℕ
  pub stat : Option Stat

pub record DirEntry (S : Type 0) : Type 0 where
  pub name : Text
  pub info : Exec S FileInfo

-- The interface `OpenedFile`; `read n` is `io.ReadAll(io.LimitReader(opened, n))`.
pub record OpenedFile (S : Type 0) : Type 0 where
  pub stat : Exec S FileInfo
  pub read : ℤ → Exec S Text
  pub close : S → S

-- The interface `FileSource`, with `errors.Is(err, fs.ErrNotExist)`. A nil file is `none`.
pub record FileSource (S : Type 0) : Type 0 where
  pub lstat : Text → Exec S FileInfo
  pub open_no_follow : Text → Exec S (Option (OpenedFile S))
  pub read_dir : Text → Exec S (List (DirEntry S))
  pub is_not_exist : Error → Bool

-- Packages path/filepath, time, fmt and crypto/sha256.
pub record Packages : Type 0 where
  pub base : Text → Text
  pub clean : Text → Text
  pub unix : ℕ → ℤ
  pub unix_nano : ℕ → ℤ
  pub format_int : ℤ → Text
  pub sum256 : Text → Text

pub record Target : Type 0 where
  pub name : Text
  pub path : Text
  pub type : Text
  pub hash : Bool
  pub manifest : Bool
  pub allow_private_key_hash : Bool

pub record Snapshot : Type 0 where
  pub name : Text
  pub path : Text
  pub exists : Bool
  pub type : Text
  pub uid : ℤ
  pub gid : ℤ
  pub mode : Text
  pub size : ℤ
  pub mod_time_unix : ℤ
  pub hash : Text
  pub hash_complete : Bool
  pub oversized : Bool
  pub source_changed : Bool
  pub manifest_hash : Text
  pub manifest_complete : Bool
  pub manifest_truncated : Bool
  pub entry_count_observed : ℤ
  pub entry_limit : ℤ
  pub incomplete_reason : Text

-- `fileType`.
unfoldable pub file_type : FileKind → Text
unfolding text
file_type symlink = text "symlink"
file_type regular = text "file"
file_type directory = text "directory"
file_type (other bits) = text "other"
