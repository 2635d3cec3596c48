-- ===== src/Sentinel/Candidate/Tests.antt =====
-- A candidate report (packages/sentinel/src/candidateEap.ts).
use reclose.Prelude.{ℕ, String, true, Option, none, some, [], ◌∷◌, ◌≡◌, refl, Result, ok, throw}
use reclose.Evidence.{Url}
use reclose.Evidence.Build.{
  canonical_source, build_eap_object, validate_eap, preimage_of, build_eap, eap_json, check_size,
}
use reclose.Json.{canonical_keccak256, stringify}
use reclose.Sentinel.State.{SentinelSubmissionContext, SourceCheckResult, CandidateReport}
use reclose.Sentinel.Candidate.{
  CandidateError, build_candidate_report, IsCarried, build_candidate_report-IsCarried,
}

abbrev parse_url : String → Option Url
parse_url url = some (record {
  username = "";
  password = "";
  protocol = "https:";
  port = "";
  hostname = "example.org";
})

abbrev iso_text : ℕ → String
iso_text n = "2026-01-01T00:00:00Z"

abbrev context : SentinelSubmissionContext
context = record {
  target_id = "t";
  policy_key = "p";
  policy_hash = "0x0000000000000000000000000000000000000000000000000000000000000000";
  rule_id = "R";
  resource_id = "r";
  subject = "outage";
}

abbrev reporter : String
reporter = "0x0000000000000000000000000000000000000000"

abbrev check : SourceCheckResult
check = record {
  source_id = "s1";
  url = "https://example.org/status";
  source_class = "AUTHORITATIVE_PUBLIC";
  candidate_detected = true;
  extracted_text = "halted";
  fetched_at = 5;
  error = none;
}

abbrev report_of : Result CandidateError CandidateReport → CandidateReport
report_of (ok r) = r
report_of (throw e) = record { eap_json = ""; artifact_hash = "" }

abbrev report : CandidateReport
report = report_of (
    build_candidate_report (λ s. true) parse_url (λ s. true) iso_text context reporter none
      (check ∷ []))

built :
    build_candidate_report
      (λ s. true)
      parse_url
      (λ s. true)
      iso_text
      context
      reporter
      none
      (check ∷ [])
    ≡ ok report
unfolding build_candidate_report canonical_source build_eap_object validate_eap canonical_keccak256
    preimage_of build_eap eap_json stringify check_size
built = refl

build_candidate_report-IsCarried_example :
    IsCarried (λ s. true) parse_url (λ s. true) iso_text report
build_candidate_report-IsCarried_example =
    build_candidate_report-IsCarried (λ s. true) parse_url (λ s. true) iso_text context reporter
      none (check ∷ []) report built
