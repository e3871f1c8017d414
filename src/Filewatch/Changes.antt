-- ===== src/Filewatch/Changes.antt =====
-- internal/collectors/filewatch/baseline.go, `compareSnapshots`.
pub mod Agreement
use pooly_sentinel.Prelude.{
  ℤ, eq_ℤ, Bool, true, false, not, ◌&&◌, ◌||◌, Text, text, text_eq, ◌==◌, if◌then◌else◌,
}
use pooly_sentinel.Filewatch.Types.{Snapshot}

pub data Change : Type 0 where
  created deleted type_changed permission_changed owner_changed modified unchanged : Change

unfoldable pub compare_snapshots : Snapshot → Snapshot → Change
unfolding text_eq eq_ℤ
compare_snapshots previous current =
    if not previous.exists && current.exists
    then created
    else if previous.exists && not current.exists
    then deleted
    else if not (text_eq previous.type current.type)
    then type_changed
    else if not (text_eq previous.mode current.mode)
    then permission_changed
    else if not (eq_ℤ previous.uid current.uid) || not (eq_ℤ previous.gid current.gid)
    then owner_changed
    else if not (text_eq previous.hash current.hash)
        || not (text_eq previous.manifest_hash current.manifest_hash)
        || not (eq_ℤ previous.size current.size)
        || not (eq_ℤ previous.mod_time_unix current.mod_time_unix)
    then modified
    else unchanged
