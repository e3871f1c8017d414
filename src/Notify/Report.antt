-- ===== src/Notify/Report.antt =====
-- internal/notify/delivery.go, `Report` and its methods.
pub mod Counters
use pooly_sentinel.Prelude.{◌+◌, pos, Bool, Option, none, some, List, [], ◌∷◌, ◌++◌, Text, ltb}
use pooly_sentinel.Notify.Types.{
  Event, Status, delivered, failed, dry_run, skipped, DeliveryResult, Report,
}

abbrev pub empty_report : Report
empty_report = record {
  results = [];
  delivered_count = 0;
  failed_count = 0;
  skipped_count = 0;
  dry_run_count = 0;
}

-- The `switch` of `addResult`.
unfoldable pub count_status : Option Status → Report → Report
count_status (some delivered) r = record r { delivered_count = r.delivered_count + 1 }
count_status (some failed) r = record r { failed_count = r.failed_count + 1 }
count_status (some dry_run) r = record r { dry_run_count = r.dry_run_count + 1 }
count_status (some skipped) r = record r { skipped_count = r.skipped_count + 1 }
count_status none r = r

unfoldable pub add_result : Report → DeliveryResult → Report
unfolding count_status
add_result report result =
    count_status result.status (record report { results = report.results ++ (result ∷ []) })

-- `for _, result := range other.Results { r.addResult(result) }`.
unfoldable pub add_results : Report → List DeliveryResult → Report
unfolding add_result
add_results report [] = report
add_results report (result ∷ rest) = add_results (add_result report result) rest

-- `Report.add`.
unfoldable pub add : Report → Report → Report
unfolding add_results
add report other = add_results report other.results

-- `Failed`.
unfoldable pub has_failed : Report → Bool
has_failed report = ltb 0 report.failed_count

-- `Report{Results: []DeliveryResult{{..., Status: StatusSkipped, ...}}, Skipped: 1}`.
unfoldable pub skip_report : Text → Event → Text → Report
skip_report incident_id event summary = record {
  results =
      record {
        incident_id = incident_id;
        receiver_id = [];
        event = event;
        status = some skipped;
        attempt = pos 0;
        error_class = [];
        summary = summary;
      }
      ∷ [];
  delivered_count = 0;
  failed_count = 0;
  skipped_count = 1;
  dry_run_count = 0;
}

unfoldable pub new_result : Text → Text → Event → DeliveryResult
new_result incident_id receiver_id event = record {
  incident_id = incident_id;
  receiver_id = receiver_id;
  event = event;
  status = none;
  attempt = pos 0;
  error_class = [];
  summary = [];
}
