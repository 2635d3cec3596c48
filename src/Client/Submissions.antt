-- ===== src/Client/Submissions.antt =====
-- The prepared submissions of packages/protocol-sdk/src/client.ts: `buildOpenBond`,
-- `buildIncidentReport`, `buildRecoveryReport` and `buildRemediationReport`.
use reclose.Prelude.{
  ℕ, pos, String, Option, none, some, List, [], ◌∷◌, ◌++◌, length, Result, ok, or_else,
  is_at_most_zero, if◌then◌else◌, ◌==◌, string_eq,
}
use reclose.Async.{pure, reject, lift, gets, or_reject}
use reclose.Json.{Value, text, number, join}
use reclose.Client.{◌>>=◌, ◌>>◌, Client, RecloseTransport, RecloseAddresses, judge_read}
use reclose.Client.Values.{
  ClientError, view_num, no_vault, inactive_rule, zero_bond_rule, no_reporter, ungoverned_resource,
}
use reclose.Client.Records.{PolicyRule, PolicyDetail}
use reclose.Client.Reads.{get_active_policy}
use reclose.Client.Incidents.{get_incident}
use reclose.Client.Identity.{BondInput, derive_bond_id, derive_incident_id}
use reclose.Client.Drafts.{
  FeeTransactionPreview, PreparedRecloseWrite, PredictedIncidentIdentity, PreparedWriteSemanticKind,
  incident_report, remediation_report, recovery_validation_report, prepare, fee_preview, wei,
}
use reclose.Client.Reports.{
  Runtime, EvidenceSource, eap_input, build_canonical_eap, find_rule, is_governed,
  require_verified_bond,
}

-- The input of `buildIncidentReport`; the other two reports have an incident in place of the target,
-- the rule and the resource.
pub record ReportInput : Type 0 where
  pub evidence_sources : List EvidenceSource
  pub reporter_address : Option String
  pub bond_id : Option String
  pub subject : Option String

-- `a || b`
abbrev pub or_if_empty : String → String → String
or_if_empty a b = if a == "" then b else a

abbrev pub predicted : (incident_id target_id reporter : String) → ℕ → PredictedIncidentIdentity
predicted incident_id target_id reporter nonce = record {
  incident_id = incident_id;
  target_id = target_id;
  reporter_address = reporter;
  reporter_nonce = nonce;
}

abbrev pub bond_input : PolicyDetail → (target_id rule_id reporter : String) → ℕ → BondInput
bond_input policy target_id rule_id reporter nonce = record {
  target_id = target_id;
  policy_key = policy.summary.policy_key;
  rule_id = rule_id;
  reporter_address = reporter;
  reporter_nonce = nonce;
  predicted_incident_id = derive_incident_id target_id reporter nonce;
}

-- `bondId ?? deriveBondId(input)`
abbrev pub or_derive : BondInput → Option String → Result ClientError String
or_derive input none = derive_bond_id input
or_derive input (some bond_id) = ok bond_id

abbrev pub with_bond : PolicyRule → FeeTransactionPreview → FeeTransactionPreview
with_bond rule fee = record fee { bond_wei = some rule.report_bond }

-- `if (!input.reporterAddress) throw`
unfoldable pub require_reporter : Option String → Client String
require_reporter reporter_address =
    if or_else reporter_address "" == ""
    then reject no_reporter
    else pure (or_else reporter_address "")

module _ (t : RecloseTransport) (addresses : RecloseAddresses) (runtime : Runtime) where
  unfoldable pub reporter_nonce : String → Client ℕ
  unfolding judge_read view_num
  reporter_nonce reporter = do
    view ← judge_read t addresses "get_reporter_nonce" (text reporter ∷ [])
    lift (view_num view)

  unfoldable pub build_open_bond :
      (target_id rule_id reporter_address : String)
      → Option String
      → Client (PreparedRecloseWrite × String)
  unfolding get_active_policy find_rule wei reporter_nonce derive_incident_id derive_bond_id
      fee_preview prepare
  build_open_bond target_id rule_id reporter_address given = do
    vault ← or_reject no_vault addresses.vault
    (if vault == "" then reject no_vault else pure tt)
    policy ← get_active_policy t addresses target_id
    rule ← or_reject (inactive_rule rule_id) (find_rule rule_id policy.rules)
    bond ← lift (wei rule.report_bond)
    (if is_at_most_zero bond then reject (zero_bond_rule rule_id) else pure tt)
    nonce ← reporter_nonce reporter_address
    let input = bond_input policy target_id rule_id reporter_address nonce
    bond_id ← lift (or_derive input given)
    let args =
        text bond_id
        ∷ text target_id
        ∷ text policy.summary.policy_key
        ∷ number policy.summary.version
        ∷ text rule_id
        ∷ number nonce
        ∷ text input.predicted_incident_id
        ∷ []
    fee ← fee_preview t addresses "open_bond" args vault bond
    report ←
        prepare
          (record {
            contract_address = vault;
            function_name = "open_bond";
            args = args;
            value_wei = rule.report_bond;
            semantic_kind = incident_report;
            expected_signer = some reporter_address;
          })
          fee none
    pure (report, bond_id)

  -- The evidence, the bond check, the fee and the draft, which the three reports share. The
  -- arguments are those before the evidence.
  unfoldable pub build_submission :
      (function_name : String)
      → PreparedWriteSemanticKind
      → (policy : PolicyDetail) → (rule : Option PolicyRule)
      → (target_id rule_id reporter default_subject : String) → ReportInput
      → List Value
      → (FeeTransactionPreview → FeeTransactionPreview)
      → Client PreparedRecloseWrite
  unfolding build_canonical_eap reporter_nonce derive_incident_id require_verified_bond fee_preview
      prepare
  build_submission function_name kind policy rule target_id rule_id reporter default_subject input
        first_args adjust =
      do
        calls ← gets λ s. length s.requests
        (eap, evidence_json) ← lift (
            build_canonical_eap runtime (
              eap_input (runtime.now calls) target_id policy.summary.manifest_hash rule_id
                (or_else input.subject default_subject) reporter input.evidence_sources))
        nonce ← reporter_nonce reporter
        let identity = bond_input policy target_id rule_id reporter nonce
        bond_id ← lift (require_verified_bond rule identity input.bond_id)
        let args =
            first_args
            ++ (text eap.artifact_hash ∷ text evidence_json ∷ number nonce ∷ text bond_id ∷ [])
        fee ← fee_preview t addresses function_name args addresses.judge (pos 0)
        prepare
            (record {
              contract_address = addresses.judge;
              function_name = function_name;
              args = args;
              value_wei = "0";
              semantic_kind = kind;
              expected_signer = some reporter;
            })
            (adjust fee) (some (predicted identity.predicted_incident_id target_id reporter nonce))

  unfoldable pub build_incident_report :
      (target_id rule_id resource_id : String) → ReportInput → Client PreparedRecloseWrite
  unfolding get_active_policy find_rule is_governed require_reporter build_submission
  build_incident_report target_id rule_id resource_id input = do
    policy ← get_active_policy t addresses target_id
    rule ← or_reject (inactive_rule rule_id) (find_rule rule_id policy.rules)
    (if is_governed rule_id resource_id policy.effects
        then pure tt
        else reject (ungoverned_resource resource_id))
    reporter ← require_reporter input.reporter_address
    build_submission "submit_incident" incident_report policy (some rule) target_id rule_id reporter
        (join "" (rule_id ∷ " report against " ∷ or_if_empty resource_id target_id ∷ [])) input
        (text target_id ∷ text policy.summary.policy_key ∷ text rule_id ∷ text resource_id ∷ [])
        (with_bond rule)

  unfoldable pub build_recovery_report : String → ReportInput → Client PreparedRecloseWrite
  unfolding get_incident get_active_policy find_rule require_reporter build_submission
  build_recovery_report incident_id input = do
    incident ← get_incident t addresses incident_id
    policy ← get_active_policy t addresses incident.target_id
    reporter ← require_reporter input.reporter_address
    build_submission "submit_recovery_validation" recovery_validation_report policy
        (find_rule "RECOVERY_VALIDATED_V1" policy.rules) incident.target_id "RECOVERY_VALIDATED_V1"
        reporter (join "" ("Recovery validation for " ∷ incident_id ∷ [])) input
        (text incident_id ∷ text policy.summary.policy_key ∷ []) (λ fee. fee)

  unfoldable pub build_remediation_report : String → ReportInput → Client PreparedRecloseWrite
  unfolding get_incident get_active_policy find_rule require_reporter build_submission
  build_remediation_report incident_id input = do
    incident ← get_incident t addresses incident_id
    policy ← get_active_policy t addresses incident.target_id
    reporter ← require_reporter input.reporter_address
    build_submission "submit_remediation" remediation_report policy
        (find_rule "REMEDIATION_CONFIRMED_V1" policy.rules) incident.target_id
        "REMEDIATION_CONFIRMED_V1" reporter (join "" ("Remediation for " ∷ incident_id ∷ [])) input
        (text incident_id ∷ text policy.summary.policy_key ∷ []) (λ fee. fee)
