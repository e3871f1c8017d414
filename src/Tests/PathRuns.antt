-- ===== src/Tests/PathRuns.antt =====
-- Runs of the paths of internal/storage.
use pooly_sentinel.Prelude.{◌≡◌, refl, text, text_eq, trim_space}
use pooly_sentinel.Effect.{ok}
use pooly_sentinel.Storage.Paths.{safe_evidence_path, sanitize_segment}
use pooly_sentinel.Storage.Paths.Segments.{IsContained, safe_evidence_path-IsContained}
use pooly_sentinel.Storage.Paths.Names.{IsFileName, sanitize_segment-IsFileName}
use pooly_sentinel.Tests.Fixtures.{no_patterns}
use pooly_sentinel.Tests.Fixtures.{unix_paths}

safe_evidence_path-IsContained_example :
    IsContained unix_paths
      (safe_evidence_path unix_paths no_patterns (text "incidents/open/a.txt") (text "/var/log"))
safe_evidence_path-IsContained_example =
    safe_evidence_path-IsContained unix_paths no_patterns (text "incidents/open/a.txt")
      (text "/var/log")

segment_made : sanitize_segment (text "../inc 1") ≡ ok (text "_inc_1")
unfolding sanitize_segment text text_eq trim_space
segment_made = refl

sanitize_segment-IsFileName_example : IsFileName (text "_inc_1")
sanitize_segment-IsFileName_example =
    sanitize_segment-IsFileName (text "../inc 1") (text "_inc_1") segment_made
