-- ===== src/Sentinel/State.antt =====
-- The data of packages/sentinel/src: monitored sources and their checks (monitor.ts), the runner's
-- durable state (runner.ts), and what it calls. A time is a number of milliseconds.
use reclose.Prelude.{
  ℕ, String, Bool, false, not, Option, none, some, List, ◌==◌, string_eq, Result, Dict,
}

-- A deterministic detector: a text to be found, or a regular expression as the test that it is.
pub data Pattern : Type 0 where
  literal : String → Pattern
  regexp : (String → Bool) → Pattern

pub record MonitoredSource : Type 0 where
  pub source_id : String
  pub url : String
  pub source_class : String
  pub pattern : Pattern

pub record SourceCheckResult : Type 0 where
  pub source_id : String
  pub url : String
  pub source_class : String
  pub candidate_detected : Bool
  pub extracted_text : String
  pub fetched_at : ℕ
  pub error : Option String

pub record HealthMetrics : Type 0 where
  pub sources_configured : ℕ
  pub checks_performed : ℕ
  pub candidates_detected : ℕ
  pub source_errors : ℕ
  pub reports_submitted : ℕ
  pub transaction_failures : ℕ
  pub duplicate_candidates_suppressed : ℕ
  pub last_check_at : Option ℕ

pub record SentinelSubmissionContext : Type 0 where
  pub target_id : String
  pub policy_key : String
  pub policy_hash : String
  pub rule_id : String
  pub resource_id : String
  pub subject : String

pub record PendingTransaction : Type 0 where
  pub submitted_at : ℕ
  pub candidate_key : String

pub record SentinelState : Type 0 where
  pub seen_candidate_keys : Dict String
  pub pending_transactions : Dict PendingTransaction
  pub last_submission_at_by_rule : Dict ℕ

-- The arguments of `submitIncident`.
pub record Submission : Type 0 where
  pub target_id : String
  pub policy_key : String
  pub rule_id : String
  pub resource_id : String
  pub evidence_hash : String
  pub evidence_json : String
  pub reporter_nonce : ℕ
  pub bond_id : String

-- The part of `buildCandidateReport`'s report that is submitted.
pub record CandidateReport : Type 0 where
  pub eap_json : String
  pub artifact_hash : String

-- What `tracker.poll` answers of a lifecycle.
pub record Polled : Type 0 where
  pub is_final : Option Bool
  pub raw_status : Option String

-- A response: its status, and its body once it is read.
pub record Response : Type 0 where
  pub status : ℕ
  pub text : Result String String

-- What the sentinel calls, by the number of the call. An error is given by its message.
pub record World : Type 0 where
  pub now : ℕ → ℕ
  pub fetch : ℕ → String → Result String Response
  pub poll : ℕ → String → Result String Polled
  pub track : ℕ → String → Result String (Unit {0})
  pub load_failure : ℕ → Option String
  pub save_failure : ℕ → Option String
  pub get_reporter_address : ℕ → Result String String
  pub get_next_reporter_nonce : ℕ → Result String ℕ
  pub submit_incident : ℕ → Submission → Result String String
  pub is_valid_source_url : String → Bool
  -- `text.slice(0, n)` of the runtime, which may cut a surrogate pair
  pub slice : ℕ → String → String
  pub number_text : ℕ → String
  pub keccak256_hex : String → Result String String
  pub sort : List String → List String
  pub build_candidate_report :
      SentinelSubmissionContext → String → List SourceCheckResult → Result String CandidateReport
  pub bond_id_factory : Option (String → ℕ → String)

-- A call of `submitIncident`: the candidate it was made for, and what it was answered. A call that
-- rejects was made as well.
pub record SubmitCall : Type 0 where
  pub key : String
  pub submission : Submission
  pub answer : Result String String

-- What a run changes: the stored state, the metrics, the number of calls so far, and the calls of
-- `submitIncident` so far, the last one first.
pub record Session : Type 0 where
  pub stored : Option SentinelState
  pub metrics : HealthMetrics
  pub tick : ℕ
  pub calls : List SubmitCall

-- `if (value)` on a text that may be undefined.
abbrev pub is_truthy : Option String → Bool
is_truthy none = false
is_truthy (some s) = not (s == "")
