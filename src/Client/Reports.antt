-- ===== src/Client/Reports.antt =====
-- The report builders of packages/protocol-sdk/src/client.ts: bonds, incidents, remediation and
-- recovery.
use reclose.Prelude.{
  ℕ, String, Bool, not, ◌&&◌, Option, none, some, List, [], ◌∷◌, map, Result, ok, throw, ◌>>=◌,
  ◌>>◌, or_else, throw_if, is_at_most_zero, if◌then◌else◌, ◌==◌, string_eq, any,
}
use reclose.Evidence.{Url, EvidenceSourceInput, EapInput, CanonicalEap}
use reclose.Evidence.Build.{build_eap_object, eap_json, EapError}
use reclose.Client.Values.{ClientError, invalid_evidence, bond_required, bond_mismatch}
use reclose.Client.Records.{PolicyRule, PolicyEffect}
use reclose.Client.Identity.{BondInput, derive_bond_id}
use reclose.Client.Drafts.{wei}

-- The runtime's `encodeURIComponent`, of which only it matters that it returns, its URL parser, `Date.parse` and clock: `now` is `new Date().toISOString()` by the
-- number of transport calls so far.
pub record Runtime : Type 0 where
  pub encodes : String → Bool
  pub parse_url : String → Option Url
  pub is_date : String → Bool
  pub now : ℕ → String

-- A source as the builders take it.
pub record EvidenceSource : Type 0 where
  pub source_id : String
  pub url : String
  pub source_class : String
  pub extracted_text : Option String
  pub snapshot_ref : Option String
  pub observed_at : Option String
  pub fetched_at : String

abbrev pub source_input : EvidenceSource → EvidenceSourceInput
source_input s = record {
  source_id = s.source_id;
  url = s.url;
  source_class = s.source_class;
  extracted_text = or_else s.extracted_text "";
  snapshot_ref = some (or_else s.snapshot_ref "");
  retrieved_at = or_else s.observed_at s.fetched_at;
}

abbrev pub with_evidence_error : {A : Type 0} → Result EapError A → Result ClientError A
with_evidence_error (ok a) = ok a
with_evidence_error (throw e) = throw (invalid_evidence e)

abbrev pub eap_input :
    String
    → (target_id policy_hash rule_id subject reporter_address : String) → List EvidenceSource
    → EapInput
eap_input now target_id policy_hash rule_id subject reporter_address evidence_sources = record {
  target_id = target_id;
  policy_hash = policy_hash;
  rule_id = rule_id;
  subject = subject;
  reporter = reporter_address;
  observed_at = now;
  retrieved_at = now;
  sources = map source_input evidence_sources;
}

-- `buildCanonicalEap`, and the JSON that its callers make of it.
unfoldable pub build_canonical_eap : Runtime → EapInput → Result ClientError (CanonicalEap × String)
unfolding build_eap_object eap_json
build_canonical_eap runtime input = do
  eap ←
      with_evidence_error (build_eap_object runtime.encodes runtime.parse_url runtime.is_date input)
  json ← with_evidence_error (eap_json eap)
  ok (eap, json)

-- `policy.rules.find((r) => r.ruleId === ruleId && r.enabled)`
unfoldable pub find_rule : String → List PolicyRule → Option PolicyRule
find_rule rule_id [] = none
find_rule rule_id (r ∷ rs) =
    let rest = find_rule rule_id rs in if r.rule_id == rule_id && r.enabled then some r else rest

-- `policy.effects.find(...) !== undefined`, for the effects that govern a resource
unfoldable pub is_governed : String → String → List PolicyEffect → Bool
is_governed rule_id resource_id effects =
    any (λ e. e.rule_id == rule_id && e.enabled && e.resource_id == resource_id) effects

-- A bond is needed and given: it has to be that of the current nonce.
unfoldable pub check_bond : BondInput → String → Result ClientError String
check_bond input bond_id = do
  throw_if (bond_id == "") (bond_required input.rule_id)
  expected ← derive_bond_id input
  throw_if (not (expected == bond_id)) (bond_mismatch bond_id)
  ok bond_id

-- `requireVerifiedBond`
unfoldable pub require_verified_bond :
    Option PolicyRule → BondInput → Option String → Result ClientError String
require_verified_bond none input bond_id = ok (or_else bond_id "")
require_verified_bond (some rule) input bond_id = do
  bond ← wei rule.report_bond
  if is_at_most_zero bond then ok (or_else bond_id "") else check_bond input (or_else bond_id "")
