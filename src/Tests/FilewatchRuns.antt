-- ===== src/Tests/FilewatchRuns.antt =====
-- Runs of internal/collectors/filewatch, over one regular file that is always there.
use pooly_sentinel.Prelude.{
  ◌≡◌, ◌↔◌, ℕ, pos, negsuc, true, false, none, some, [], Text, text, replicate,
}
use pooly_sentinel.Effect.{ok}
use pooly_sentinel.Filewatch.Types.{
  FileInfo, OpenedFile, FileSource, Packages, Target, Snapshot, regular,
}
use pooly_sentinel.Filewatch.Names.{safe_name}
use pooly_sentinel.Filewatch.Names.Safe.{IsName, safe_name-IsName}
use pooly_sentinel.Filewatch.Changes.{compare_snapshots, unchanged}
use pooly_sentinel.Filewatch.Changes.Agreement.{Agree, compare_snapshots-iff-Agree}
use pooly_sentinel.Filewatch.Collect.{StateStore, Support, Options, collect_target}
use pooly_sentinel.Tests.Fixtures.{no_patterns, always_live, zero_digest}

abbrev packages : Packages
packages = record {
  base = λ s. s;
  clean = λ s. s;
  unix = λ t. pos t;
  unix_nano = λ t. pos t;
  format_int = λ n. [];
  sum256 = zero_digest;
}

abbrev hosts_info : FileInfo
hosts_info = record { kind = regular; perm = text "rw"; size = pos 3; mod_time = 7; stat = none }

abbrev hosts_file : {S : Type 0} → OpenedFile S
hosts_file = record {
  stat = λ s. (ok hosts_info, s);
  read = λ n s. (ok (text "abc"), s);
  close = λ s. s;
}

abbrev one_file : {S : Type 0} → FileSource S
one_file = record {
  lstat = λ path s. (ok hosts_info, s);
  open_no_follow = λ path s. (ok (some hosts_file), s);
  read_dir = λ path s. (ok [], s);
  is_not_exist = λ e. false;
}

abbrev hosts : Target
hosts = record {
  name = text "hosts";
  path = text "/etc/hosts";
  type = text "file";
  hash = true;
  manifest = false;
  allow_private_key_hash = false;
}

abbrev hosts_seen : Snapshot
hosts_seen = record {
  name = text "hosts";
  path = text "/etc/hosts";
  exists = true;
  type = text "file";
  uid = negsuc 0;
  gid = negsuc 0;
  mode = text "rw";
  size = pos 3;
  mod_time_unix = pos 7;
  hash = replicate 64 48;
  hash_complete = true;
  oversized = false;
  source_changed = false;
  manifest_hash = [];
  manifest_complete = false;
  manifest_truncated = false;
  entry_count_observed = pos 0;
  entry_limit = pos 0;
  incomplete_reason = [];
}

compare_snapshots-iff-Agree_example :
    (compare_snapshots hosts_seen (record hosts_seen { size = pos 4 }) ≡ unchanged)
    ↔ Agree hosts_seen (record hosts_seen { size = pos 4 })
compare_snapshots-iff-Agree_example =
    compare_snapshots-iff-Agree hosts_seen (record hosts_seen { size = pos 4 })

safe_name-IsName_example : IsName (safe_name (text " etc hosts "))
safe_name-IsName_example = safe_name-IsName (text " etc hosts ")

-- A state store that keeps one text.
abbrev one_text : StateStore Text
one_text = record {
  get = λ ctx collector target s. (ok s, s);
  upsert = λ ctx collector target status raw s. (ok tt, raw);
}

abbrev support : Support ℕ
support = record {
  marshal = λ x. text "json";
  unmarshal = λ raw. ok hosts_seen;
  quote = λ s. s;
  error_text = λ e. [];
  is_permission = λ e. false;
  is_loop = λ e. false;
  zero_float = 0;
  one_float = 1;
  of_int = λ n. 0;
}

abbrev hosts_options : Options Text
hosts_options = record {
  max_file_bytes = pos 100;
  max_directory_entries = pos 10;
  source = one_file;
  state = some one_text;
  persist = true;
}

abbrev after_first : Text
after_first = (collect_target support always_live no_patterns 9 packages hosts_options hosts []).1
