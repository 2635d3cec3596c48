-- ===== src/Client/Manifests.antt =====
-- `diffCanonicalApm`, `diffAPM` and `hashAPM` of packages/protocol-sdk/src/client.ts, on manifests and
-- on policies that were read.
use reclose.Prelude.{is_empty, String, Bool, List, map, Result, ok, throw, if◌then◌else◌, ◌>>=◌}
use reclose.Json.{
  Value, boolean, number, text, array, object, field, no_fields, to_items, canonical_keccak256,
}
use reclose.Policy.Manifest.{
  ActionType, no_action, alert, monitor, restrict, throttle, revoke_capability, reroute,
  enter_safe_mode, pause, enter_recovery, restore, RuleKind, incident, remediation,
  recovery_validation,
}
use reclose.Client.Values.{ClientError, not_canonical, with_error, invalid_apm, bounty_not_integer}
use reclose.Client.Records.{
  Phase, remediation_confirmed, recovery_validated, provisional, PolicyRule, PolicyEffect,
  PolicyDetail,
}
use reclose.Client.Apm.{validate_canonical_apm_structure}
use reclose.Client.Diff.{PolicySecurityDiffChange, diff_changes, authority_expands}
use reclose.Client.Extract.{extract_kernel_rule_effect_model}

abbrev action_type_text : ActionType → String
action_type_text no_action = "NO_ACTION"
action_type_text alert = "ALERT"
action_type_text monitor = "MONITOR"
action_type_text restrict = "RESTRICT"
action_type_text throttle = "THROTTLE"
action_type_text revoke_capability = "REVOKE_CAPABILITY"
action_type_text reroute = "REROUTE"
action_type_text enter_safe_mode = "ENTER_SAFE_MODE"
action_type_text pause = "PAUSE"
action_type_text enter_recovery = "ENTER_RECOVERY"
action_type_text restore = "RESTORE"

abbrev rule_kind_text : RuleKind → String
rule_kind_text incident = "INCIDENT"
rule_kind_text remediation = "REMEDIATION"
rule_kind_text recovery_validation = "RECOVERY_VALIDATION"

abbrev phase_text : Phase → String
phase_text remediation_confirmed = "REMEDIATION_CONFIRMED"
phase_text recovery_validated = "RECOVERY_VALIDATED"
phase_text provisional = "PROVISIONAL"

abbrev rule_value : PolicyRule → Value
rule_value r = object (
    field "ruleId" (text r.rule_id) (
      field "judge" (text r.judge) (
        field "judgeVersion" (number r.judge_version) (
          field "ruleKind" (text (rule_kind_text r.rule_kind)) (
            field "provisionalAllowed" (boolean r.provisional_allowed) (
              field "reportBond" (text r.report_bond) (
                field "confirmedBounty" (text r.confirmed_bounty)
                  (field "enabled" (boolean r.enabled) no_fields))))))))

abbrev effect_value : PolicyEffect → Value
effect_value e = object (
    field "ruleId" (text e.rule_id) (
      field "actionType" (text (action_type_text e.action_type)) (
        field "resourceId" (text e.resource_id) (
          field "paramU256" (text e.param_u256) (
            field "paramStr" (text e.param_str) (
              field "releasePhase" (text (phase_text e.release_phase))
                (field "enabled" (boolean e.enabled) no_fields)))))))

-- A policy that was read, as the value that the diff takes; of its summary, what the diff reads.
abbrev pub detail_value : PolicyDetail → Value
detail_value p = object (
    field "summary"
      (object (field "humanOverrideEnabled" (boolean p.summary.human_override_enabled) no_fields))
      (field "rules" (array (to_items (map rule_value p.rules)))
        (field "effects" (array (to_items (map effect_value p.effects))) no_fields)))

-- The versions are left out.
pub record PolicySecurityDiff : Type 0 where
  pub authority_expands : Bool
  pub changes : List PolicySecurityDiffChange

module _ (number_of_text : String → String) where
  unfoldable pub diff_canonical_apm : Value → Value → Result ClientError PolicySecurityDiff
  unfolding extract_kernel_rule_effect_model diff_changes authority_expands
  diff_canonical_apm from_apm to_apm = do
    from ← with_error bounty_not_integer (extract_kernel_rule_effect_model number_of_text from_apm)
    to ← with_error bounty_not_integer (extract_kernel_rule_effect_model number_of_text to_apm)
    ok (record { authority_expands = authority_expands from to; changes = diff_changes from to })

  unfoldable pub diff_apm : Value → Value → Result ClientError PolicySecurityDiff
  unfolding validate_canonical_apm_structure diff_canonical_apm
  diff_apm from_apm to_apm =
      let errors = validate_canonical_apm_structure to_apm in
      if is_empty errors then diff_canonical_apm from_apm to_apm else throw (invalid_apm errors)

unfoldable pub hash_apm : Value → Result ClientError String
unfolding validate_canonical_apm_structure canonical_keccak256
hash_apm apm =
    let errors = validate_canonical_apm_structure apm in
    if is_empty errors
    then with_error not_canonical (canonical_keccak256 apm)
    else throw (invalid_apm errors)
