-- ===== src/Notify/Report/Counters.antt =====
-- internal/notify/delivery.go: a report's counters count its results.
use pooly_sentinel.Prelude.{
  ℕ, ◌+◌, ◌≡◌, Bool, true, false, Option, some, List, [], ◌∷◌, ◌++◌, if◌then◌else◌, arith,
}
use pooly_sentinel.Notify.Types.{
  Status, delivered, failed, dry_run, skipped, DeliveryResult, Report,
}
use pooly_sentinel.Notify.Report.{count_status, add_result, add_results}

unfoldable pub same_status : Status → Option Status → Bool
same_status delivered (some delivered) = true
same_status failed (some failed) = true
same_status dry_run (some dry_run) = true
same_status skipped (some skipped) = true
same_status _ _ = false

-- How many results have a status.
unfoldable pub tally : Status → List DeliveryResult → ℕ
unfolding same_status
tally status [] = 0
tally status (r ∷ rs) = (if same_status status r.status then 1 else 0) + tally status rs

tally-append :
    (status : Status) (rs : List DeliveryResult) (r : DeliveryResult)
    → tally status (rs ++ (r ∷ []))
      ≡ tally status rs + (if same_status status r.status then 1 else 0)
unfolding tally
tally-append status [] r = omega arith
tally-append status (x ∷ rs) r = omega (arith, tally-append status rs r)

pub record IsCounted (report : Report) : Type 0 where
  pub all_delivered : report.delivered_count ≡ tally delivered report.results
  pub all_failed : report.failed_count ≡ tally failed report.results
  pub all_skipped : report.skipped_count ≡ tally skipped report.results
  pub all_dry_run : report.dry_run_count ≡ tally dry_run report.results

pub add_result-IsCounted :
    (report : Report) (r : DeliveryResult) → IsCounted report → IsCounted (add_result report r)
unfolding add_result count_status same_status
add_result-IsCounted report r h = record {
  all_delivered = ground (arith, h.all_delivered, tally-append delivered report.results r);
  all_failed = ground (arith, h.all_failed, tally-append failed report.results r);
  all_skipped = ground (arith, h.all_skipped, tally-append skipped report.results r);
  all_dry_run = ground (arith, h.all_dry_run, tally-append dry_run report.results r);
}

pub add_results-IsCounted :
    (rs : List DeliveryResult) (report : Report)
    → IsCounted report
    → IsCounted (add_results report rs)
unfolding add_results
add_results-IsCounted [] report h = h
add_results-IsCounted (r ∷ rs) report h =
    add_results-IsCounted rs (add_result report r) (add_result-IsCounted report r h)
