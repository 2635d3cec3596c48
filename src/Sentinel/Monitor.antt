-- ===== src/Sentinel/Monitor.antt =====
-- packages/sentinel/src/monitor.ts: the checks of the monitored sources, and the metrics.
use reclose.Prelude.{
  ℕ, ◌+◌, String, Bool, true, false, not, ◌&&◌, ◌||◌, Option, none, some, List, Result, ok, throw,
  ◌==◌, nat_eq, if◌then◌else◌, keep, length, is_some, every_char, is_alphanumeric, utf16_length,
  code, leb,
}
use Prim.Native.String
use reclose.Async.{Async, pure, ◌>>=◌, ◌>>◌, modify, collect}
use reclose.Sentinel.State.{
  Pattern, literal, regexp, MonitoredSource, SourceCheckResult, HealthMetrics, Response, World,
  Session,
}

abbrev pub max_fetched_text_chars : ℕ
max_fetched_text_chars = 16000

-- `text.startsWith(p)`
unfoldable pub starts_with : String → String → Bool
starts_with String.[] s = true
starts_with (String.◌∷◌ d p) String.[] = false
starts_with (String.◌∷◌ d p) (String.◌∷◌ c s) = code d == code c && starts_with p s

-- `text.includes(p)`
unfoldable pub contains : String → String → Bool
unfolding starts_with
contains p String.[] = starts_with p String.[]
contains p (String.◌∷◌ c s) = starts_with p (String.◌∷◌ c s) || contains p s

unfoldable pub matches_pattern : String → Pattern → Bool
unfolding contains
matches_pattern text (literal p) = contains p text
matches_pattern text (regexp test) = test text

-- `/^[A-Za-z0-9_.:-]{1,64}$/`
unfoldable pub is_valid_source_id : String → Bool
unfolding every_char utf16_length
is_valid_source_id s =
    every_char (λ c. is_alphanumeric c || c == b'_' || c == b'.' || c == b':' || c == b'-') s
    && leb 1 (utf16_length s)
    && leb (utf16_length s) 64

abbrev pub result_of : MonitoredSource → ℕ → Bool → String → Option String → SourceCheckResult
result_of source fetched_at detected text error = record {
  source_id = source.source_id;
  url = source.url;
  source_class = source.source_class;
  candidate_detected = detected;
  extracted_text = text;
  fetched_at = fetched_at;
  error = error;
}

module _ (w : World) where
  -- A call that the world answers, or rejects.
  abbrev pub ask : {A : Type 0} → (ℕ → A) → Async Session String A
  ask answer s = (ok (answer s.tick), record s { tick = s.tick + 1 })

  abbrev pub ask_result : {A : Type 0} → (ℕ → Result String A) → Async Session String A
  ask_result answer s = (answer s.tick, record s { tick = s.tick + 1 })

  -- The body of the `try` of `checkSource`, and its `catch`.
  unfoldable pub fetched_result : MonitoredSource → ℕ → Result String Response → SourceCheckResult
  unfolding matches_pattern
  fetched_result source at (throw e) = result_of source at false "" (some e)
  fetched_result source at (ok response) = elim response.text [
    | throw e ↦ result_of source at false "" (some e)
    | ok body ↦
        let text = w.slice max_fetched_text_chars body in
        if response.status == 200
        then result_of source at (matches_pattern text source.pattern) text none
        else result_of source at false text
            (some (String.◌++◌ "HTTP " (w.number_text response.status)))
  ]

  unfoldable pub check_source : MonitoredSource → Async Session String SourceCheckResult
  unfolding is_valid_source_id fetched_result
  check_source source = do
    at ← ask w.now
    if not (is_valid_source_id source.source_id)
        then pure (result_of source at false "" (some "invalid sourceId"))
        else if not (w.is_valid_source_url source.url)
        then pure
            (result_of source at false "" (some "URL rejected by canonical evidence URL rules"))
        else (do reply ← ask (λ t. w.fetch t source.url); pure (fetched_result source at reply))

  -- One source after the other.
  unfoldable pub check_all_sources :
      List MonitoredSource → Async Session String (List SourceCheckResult)
  unfolding collect check_source
  check_all_sources = collect check_source

  abbrev pub update_metrics : (HealthMetrics → HealthMetrics) → Async Session String (Unit {0})
  update_metrics f = modify λ s. record s { metrics = f s.metrics }

  -- The metrics after a round of checks.
  unfoldable pub count_checks : List SourceCheckResult → ℕ → HealthMetrics → HealthMetrics
  count_checks results at m = record m {
    checks_performed = m.checks_performed + length results;
    candidates_detected = m.candidates_detected + length (keep (λ r. r.candidate_detected) results);
    source_errors = m.source_errors + length (keep (λ r. is_some r.error) results);
    last_check_at = some at;
  }

  unfoldable pub monitor_run_once :
      List MonitoredSource → Async Session String (List SourceCheckResult)
  unfolding check_all_sources count_checks
  monitor_run_once sources = do
    results ← check_all_sources sources
    at ← ask w.now
    update_metrics (count_checks results at)
    pure results

  unfoldable pub record_report_submitted : Async Session String (Unit {0})
  record_report_submitted =
      update_metrics λ m. record m { reports_submitted = m.reports_submitted + 1 }

  unfoldable pub record_transaction_failure : Async Session String (Unit {0})
  record_transaction_failure =
      update_metrics λ m. record m { transaction_failures = m.transaction_failures + 1 }

  unfoldable pub record_duplicate_suppressed : Async Session String (Unit {0})
  record_duplicate_suppressed =
      update_metrics
        λ m. record m { duplicate_candidates_suppressed = m.duplicate_candidates_suppressed + 1 }

-- The metrics of a new monitor.
unfoldable pub initial_metrics : List MonitoredSource → HealthMetrics
initial_metrics sources = record {
  sources_configured = length sources;
  checks_performed = 0;
  candidates_detected = 0;
  source_errors = 0;
  reports_submitted = 0;
  transaction_failures = 0;
  duplicate_candidates_suppressed = 0;
  last_check_at = none;
}
