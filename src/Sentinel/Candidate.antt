-- ===== src/Sentinel/Candidate.antt =====
-- packages/sentinel/src/candidateEap.ts. A time is shown by its ISO text, whose order is that of the
-- times. The report holds what is submitted of it. `observed_at` is that of the context of the
-- report, which the runner leaves out.
mod Tests
use reclose.Prelude.{
  or_else, ℕ, String, Bool, true, false, not, ◌&&◌, Option, none, some, List, [], ◌∷◌, map, Result,
  ok, throw, ◌>>=◌, ◌>>◌, is_some, if◌then◌else◌, ◌==◌, string_eq, keep, ltb, ◌≡◌, refl, ap, sym,
  ◌∙◌, arith, bind-eq-ok, ok_injective,
}
use reclose.Evidence.{Url, EvidenceSourceInput, EapInput, CanonicalEap, content_addressed}
use reclose.Evidence.Build.{
  EapError, build_eap_object, build_eap, check_size, eap_json, verify_eap_artifact,
}
use reclose.Evidence.Verified.{verify_eap_artifact_of_built}
use reclose.Sentinel.State.{
  SentinelSubmissionContext, SourceCheckResult, CandidateReport, is_truthy,
}

pub data CandidateError : Type 0 where
  no_triggered_sources : CandidateError
  invalid_package : EapError → CandidateError

abbrev pub with_candidate_error : {A : Type 0} → Result EapError A → Result CandidateError A
with_candidate_error (ok a) = ok a
with_candidate_error (throw e) = throw (invalid_package e)

abbrev pub triggered_sources : List SourceCheckResult → List SourceCheckResult
triggered_sources results = keep (λ r. r.candidate_detected && not (is_truthy r.error)) results

-- The latest time, from one on.
unfoldable pub latest_fetch : ℕ → List SourceCheckResult → ℕ
latest_fetch latest [] = latest
latest_fetch latest (r ∷ rs) =
    latest_fetch (if ltb latest r.fetched_at then r.fetched_at else latest) rs

module _ (encodes : String → Bool) (parse_url : String → Option Url) (is_date : String → Bool)
    (iso_text : ℕ → String) where
  abbrev pub candidate_source : SourceCheckResult → EvidenceSourceInput
  candidate_source r = record {
    source_id = r.source_id;
    url = r.url;
    source_class = r.source_class;
    extracted_text = r.extracted_text;
    snapshot_ref = some (if r.source_class == content_addressed then r.url else "");
    retrieved_at = iso_text r.fetched_at;
  }

  abbrev pub candidate_input :
      SentinelSubmissionContext → String → Option String → ℕ → List SourceCheckResult → EapInput
  candidate_input context reporter observed_at retrieved_at sources = record {
    target_id = context.target_id;
    policy_hash = context.policy_hash;
    rule_id = context.rule_id;
    subject = context.subject;
    reporter = reporter;
    observed_at = or_else observed_at (iso_text retrieved_at);
    retrieved_at = iso_text retrieved_at;
    sources = map candidate_source sources;
  }

  -- The package of some triggered sources, the first of which is given.
  unfoldable pub package_of :
      SentinelSubmissionContext
      → String
      → Option String
      → SourceCheckResult
      → List SourceCheckResult
      → Result CandidateError CandidateReport
  package_of context reporter observed_at first sources = do
    let input =
        candidate_input context reporter observed_at (latest_fetch first.fetched_at sources) sources
    canonical ← with_candidate_error (build_eap_object encodes parse_url is_date input)
    eap_json ← with_candidate_error (build_eap encodes parse_url is_date input)
    ok (record { eap_json = eap_json; artifact_hash = canonical.artifact_hash })

  unfoldable pub package_of_all :
      SentinelSubmissionContext
      → String
      → Option String
      → List SourceCheckResult
      → Result CandidateError CandidateReport
  unfolding package_of
  package_of_all context reporter observed_at [] = throw no_triggered_sources
  package_of_all context reporter observed_at (r ∷ rs) =
      package_of context reporter observed_at r (r ∷ rs)

  unfoldable pub build_candidate_report :
      SentinelSubmissionContext
      → String
      → Option String
      → List SourceCheckResult
      → Result CandidateError CandidateReport
  unfolding package_of_all
  build_candidate_report context reporter observed_at results =
      package_of_all context reporter observed_at (triggered_sources results)

  with_candidate_error-eq-ok :
      {A : Type 0} (r : Result EapError A) {a : A} → with_candidate_error r ≡ ok a → r ≡ ok a
  with_candidate_error-eq-ok (ok b) h = cc
  with_candidate_error-eq-ok (throw e) h = cc

  check_size-eq-ok : (json given : String) → check_size json ≡ ok given → json ≡ given
  unfolding check_size
  check_size-eq-ok json given h = ground arith

  -- The JSON that is built is that of the package that is built.
  build_eap-eq-ok :
      (input : EapInput) (c : CanonicalEap) (json : String)
      → build_eap_object encodes parse_url is_date input ≡ ok c
      → build_eap encodes parse_url is_date input ≡ ok json
      → eap_json c ≡ ok json
  unfolding build_eap
  build_eap-eq-ok input c json built h =
      let (c', built', rest) = bind-eq-ok (build_eap_object encodes parse_url is_date input) _ h in
      let (json', shown, checked) = bind-eq-ok (eap_json c') _ rest in
      let same : c' ≡ c = ok_injective (sym built' ∙ built) in
      let same_json : json' ≡ json = check_size-eq-ok json' json checked in cc

  -- The package that a candidate report carries: verified, with its hash and its JSON.
  pub record IsCarried (report : CandidateReport) : Type 0 where
    pub carried : CanonicalEap
    pub verified : verify_eap_artifact encodes carried ≡ ok true
    pub hash : report.artifact_hash ≡ carried.artifact_hash
    pub json : eap_json carried ≡ ok report.eap_json

  package_of-IsCarried :
      (context : SentinelSubmissionContext) (reporter : String) (observed_at : Option String)
      (r : SourceCheckResult) (rs : List SourceCheckResult) (report : CandidateReport)
      → package_of context reporter observed_at r rs ≡ ok report
      → IsCarried report
  unfolding package_of
  package_of-IsCarried context reporter observed_at r rs report h =
      let input = candidate_input context reporter observed_at (latest_fetch r.fetched_at rs) rs in
      let (c, built, rest) =
        bind-eq-ok (with_candidate_error (build_eap_object encodes parse_url is_date input)) _ h in
      let (json, shown, returned) =
        bind-eq-ok (with_candidate_error (build_eap encodes parse_url is_date input)) _ rest in
      let object = with_candidate_error-eq-ok _ built in
      let text = with_candidate_error-eq-ok _ shown in
      let same = ok_injective returned in
      record {
        carried = c;
        verified = verify_eap_artifact_of_built encodes parse_url is_date input c object;
        hash = ap (λ x. x.artifact_hash) (sym same);
        json = build_eap-eq-ok input c json object text ∙ ap (λ x. ok x.eap_json) same;
      }

  -- The evidence that the Sentinel submits is verified: the hash and the JSON of a candidate report
  -- are those of one package, which passes the check of evidence packages.
  pub build_candidate_report-IsCarried :
      (context : SentinelSubmissionContext) (reporter : String) (observed_at : Option String)
      (results : List SourceCheckResult) (report : CandidateReport)
      → build_candidate_report context reporter observed_at results ≡ ok report
      → IsCarried report
  unfolding build_candidate_report
  build_candidate_report-IsCarried context reporter observed_at results report h =
      all_carried (triggered_sources results) h
    where
      all_carried :
          (rs : List SourceCheckResult)
          → package_of_all context reporter observed_at rs ≡ ok report
          → IsCarried report
      all_carried [] k = cc
      all_carried (r ∷ rs) k = package_of-IsCarried context reporter observed_at r (r ∷ rs) report k
