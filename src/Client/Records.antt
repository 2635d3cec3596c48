-- ===== src/Client/Records.antt =====
-- The records that the reads of packages/protocol-sdk/src/client.ts return (its types are those of
-- packages/protocol-sdk/src/types.ts), and the constants that it reads ordinals with.
use reclose.Prelude.{ℕ, String, Bool, Option, none, some, List, [], ◌∷◌, or_else, get_elem?}
use reclose.Policy.Manifest.{
  ActionType, no_action, alert, monitor, restrict, throttle, revoke_capability, reroute,
  enter_safe_mode, pause, enter_recovery, restore, RuleKind, incident, remediation,
  recovery_validation,
}

pub data AssuranceState : Type 0 where
  normal monitored restricted safe_mode paused recovery : AssuranceState

pub data Phase : Type 0 where
  remediation_confirmed recovery_validated provisional : Phase

pub data CanonicalDecisionOutcome : Type 0 where
  confirmed rejected undetermined : CanonicalDecisionOutcome

pub data IncidentStatus : Type 0 where
  open_incident provisional_applied final_confirmed final_rejected final_undetermined :
      IncidentStatus
  in_recovery closed : IncidentStatus

pub data CanonicalDecisionStage : Type 0 where
  provisional_stage final_stage : CanonicalDecisionStage

pub record Target : Type 0 where
  pub target_id : String
  pub target_address : String
  pub cached_owner : String
  pub assurance_state : AssuranceState
  pub active_policy_key : String
  pub registered_at : ℕ
  pub policy_generation : ℕ
  pub authority_revoked : Bool
  pub human_override_enabled : Bool

pub record Restriction : Type 0 where
  pub incident_id : String
  pub action_type : ActionType
  pub resource_id : String

pub record AssuranceStateSummary : Type 0 where
  pub target_id : String
  pub state : AssuranceState
  pub active_restrictions : List Restriction
  pub effective_capabilities : List String
  pub as_of_block : ℕ

pub record PolicyRule : Type 0 where
  pub rule_id : String
  pub judge : String
  pub judge_version : ℕ
  pub rule_kind : RuleKind
  pub provisional_allowed : Bool
  pub report_bond : String
  pub confirmed_bounty : String
  pub enabled : Bool

pub record PolicyEffect : Type 0 where
  pub rule_id : String
  pub action_type : ActionType
  pub resource_id : String
  pub param_u256 : String
  pub param_str : String
  pub release_phase : Phase
  pub enabled : Bool

pub record PolicySummary : Type 0 where
  pub policy_key : String
  pub target_id : String
  pub version : ℕ
  pub manifest_hash : String
  pub sealed : Bool
  pub active : Bool
  pub superseded : Bool
  pub rule_count : ℕ
  pub resource_count : ℕ
  pub effect_count : ℕ
  pub human_override_enabled : Bool

pub record PolicyDetail : Type 0 where
  pub summary : PolicySummary
  pub rules : List PolicyRule
  pub effects : List PolicyEffect

pub record PolicyLifecycle : Type 0 where
  pub target_id : String
  pub version : ℕ
  pub manifest_hash : String
  pub created_at : ℕ
  pub sealed_at : ℕ
  pub activation_not_before : ℕ
  pub activated_at : ℕ
  pub sealed : Bool
  pub active : Bool
  pub superseded : Bool

pub record Incident : Type 0 where
  pub incident_id : String
  pub target_id : String
  pub policy_key : String
  pub rule_id : String
  pub resource_id : String
  pub reporter : String
  pub judge : String
  pub evidence_hash : String
  pub condition_code : String
  pub status : IncidentStatus
  pub created_at : ℕ
  pub closed_at : Option ℕ

-- Without the fields that are constant, or copied from another field.
pub record DecisionRecord : Type 0 where
  pub decision_id : String
  pub incident_id : String
  pub target_id : String
  pub policy_hash : String
  pub policy_version : ℕ
  pub rule_id : String
  pub affected_resource : String
  pub evidence_hash : String
  pub reporter : String
  pub outcome : CanonicalDecisionOutcome
  pub condition_code : String
  pub judge_module : String
  pub judge_version : ℕ
  pub decision_stage : CanonicalDecisionStage
  pub generated_at : ℕ

pub record IncidentLineage : Type 0 where
  pub incident_id : String
  pub parent_incident_id : Option String
  pub target_id : String
  pub policy_key : String
  pub rule_id : String
  pub reporter : String
  pub evidence_hash : String
  pub outcome : ℕ
  pub condition_code : String
  pub children : List String

abbrev pub assurance_states : List AssuranceState
assurance_states = normal ∷ monitored ∷ restricted ∷ safe_mode ∷ paused ∷ recovery ∷ []

unfoldable pub rule_kinds : ℕ → Option RuleKind
rule_kinds n =
    or_else (get_elem? (none ∷ some incident ∷ some remediation ∷ some recovery_validation ∷ []) n)
      none

abbrev pub action_types : List ActionType
action_types =
    no_action ∷ alert ∷ monitor ∷ restrict ∷ throttle ∷ revoke_capability ∷ reroute
    ∷ enter_safe_mode ∷ pause ∷ enter_recovery ∷ restore ∷ []

unfoldable pub release_phases : ℕ → Option Phase
release_phases n =
    or_else
      (get_elem?
        (none ∷ some remediation_confirmed ∷ some recovery_validated ∷ some provisional ∷ []) n)
      none

unfoldable pub outcomes : ℕ → Option CanonicalDecisionOutcome
outcomes n =
    or_else (get_elem? (none ∷ some confirmed ∷ some rejected ∷ some undetermined ∷ []) n) none

abbrev pub incident_statuses : List IncidentStatus
incident_statuses =
    open_incident ∷ provisional_applied ∷ final_confirmed ∷ in_recovery ∷ closed ∷ []
