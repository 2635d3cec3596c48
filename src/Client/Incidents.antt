-- ===== src/Client/Incidents.antt =====
-- The reads of `DirectRecloseClient` (packages/protocol-sdk/src/client.ts) about incidents, and what
-- they make of the restrictions on a target.
use reclose.Prelude.{
  ℕ, String, Bool, ◌&&◌, none, some, List, [], ◌∷◌, map, Result, ok, or_else, if◌then◌else◌, ◌==◌,
  nat_eq, string_eq, get_elem?, keep, take, without_suffix,
}
use reclose.Async.{pure, reject, lift, or_reject}
use reclose.Json.{text, number}
use reclose.Policy.Manifest.{ActionType, action_eq}
use reclose.Policy.{action_type_ordinal, max_effects_per_decision}
use reclose.Client.{◌>>=◌, ◌>>◌, Client, RecloseTransport, RecloseAddresses, judge_read, kernel}
use reclose.Client.Values.{
  Cell, ClientError, num, str, view_num, view_str, iso, date_unless_zero, by_ordinal, truthy, at,
  unknown_incident, unknown_decision, undecided, tuple,
}
use reclose.Client.Records.{
  IncidentStatus, open_incident, final_rejected, final_undetermined, closed, rejected, undetermined,
  CanonicalDecisionStage, provisional_stage, final_stage, PolicyEffect, Incident, DecisionRecord,
  IncidentLineage, action_types, outcomes, incident_statuses,
}
use reclose.Client.Reads.{each_index, kernel_tuple, kernel_num, get_policy_by_key}
use reclose.Client.Identity.{compute_action_id}

-- The status of an incident: a closed one has the outcome of its final decision.
unfoldable pub incident_status : ℕ → ℕ → IncidentStatus
unfolding outcomes
incident_status ordinal outcome =
    elim (or_else (get_elem? incident_statuses ordinal) open_incident) [
      | closed ↦ elim (outcomes outcome) [
        | some rejected ↦ final_rejected
        | some undetermined ↦ final_undetermined
        | _ ↦ closed
      ]
      | s ↦ s
    ]

-- The ordinal of the final decision, which is only read where the incident is closed.
unfoldable pub final_outcome : ℕ → Cell → Result ClientError ℕ
unfolding num
final_outcome ordinal c = if ordinal == 4 then num c else ok 0

abbrev pub DecisionIdentity : Type 0
DecisionIdentity = String × CanonicalDecisionStage

unfoldable pub decision_identity : String → DecisionIdentity
unfolding without_suffix
decision_identity decision_id = elim (without_suffix ":PROVISIONAL" decision_id) [
  | some incident_id ↦ (incident_id, provisional_stage)
  | none ↦ elim (without_suffix ":FINAL" decision_id) [
    | some incident_id ↦ (incident_id, final_stage)
    | none ↦ (decision_id, final_stage)
  ]
]

-- Which ordinal a decision of that stage is recorded in.
abbrev pub stage_cell : CanonicalDecisionStage → List Cell → Cell
stage_cell provisional_stage cells = at cells 9
stage_cell final_stage cells = at cells 10

-- The action ids that a policy's effects dispatch for an incident.
abbrev pub IncidentAction : Type 0
IncidentAction = String × ActionType × String

unfoldable pub incident_action : String → String → PolicyEffect → IncidentAction
unfolding compute_action_id action_type_ordinal
incident_action incident_id policy_key effect = (
  compute_action_id incident_id policy_key (action_type_ordinal effect.action_type)
      effect.resource_id effect.param_u256 effect.param_str,
  effect.action_type,
  effect.resource_id,
)

abbrev pub matching_effects : String → List PolicyEffect → List PolicyEffect
matching_effects rule_id effects =
    take max_effects_per_decision (keep (λ e. e.rule_id == rule_id && e.enabled) effects)

module _ (t : RecloseTransport) (addresses : RecloseAddresses) where
  unfoldable pub get_incident : String → Client Incident
  unfolding kernel tuple str num iso date_unless_zero incident_status final_outcome
  get_incident incident_id = do
    cells ← kernel_tuple t addresses "get_incident_detail" (text incident_id ∷ [])
    target_id ← lift (str (at cells 0))
    (if target_id == "" then reject (unknown_incident incident_id) else pure tt)
    ordinal ← lift (num (at cells 11))
    outcome ← lift (final_outcome ordinal (at cells 10))
    policy_key ← lift (str (at cells 1))
    rule_id ← lift (str (at cells 3))
    resource_id ← lift (str (at cells 4))
    reporter ← lift (str (at cells 5))
    judge ← lift (str (at cells 6))
    evidence_hash ← lift (str (at cells 7))
    condition_code ← lift (str (at cells 8))
    created_at ← lift (iso (at cells 12))
    closed_at ← lift (date_unless_zero (at cells 13))
    pure (record {
      incident_id = incident_id;
      target_id = target_id;
      policy_key = policy_key;
      rule_id = rule_id;
      resource_id = resource_id;
      reporter = reporter;
      judge = judge;
      evidence_hash = evidence_hash;
      condition_code = condition_code;
      status = incident_status ordinal outcome;
      created_at = created_at;
      closed_at = closed_at;
    })

  unfoldable pub get_decision : String → Client DecisionRecord
  unfolding kernel tuple str num iso decision_identity outcomes
  get_decision decision_id = do
    let (incident_id, stage) = decision_identity decision_id
    cells ← kernel_tuple t addresses "get_incident_detail" (text incident_id ∷ [])
    target_id ← lift (str (at cells 0))
    (if target_id == "" then reject (unknown_decision decision_id) else pure tt)
    policy_key ← lift (str (at cells 1))
    header ← kernel_tuple t addresses "get_policy_header" (text policy_key ∷ [])
    ordinal ← lift (num (stage_cell stage cells))
    outcome ← or_reject (undecided incident_id) (outcomes ordinal)
    rule_id ← lift (str (at cells 3))
    rule ← kernel_tuple t addresses "get_policy_rule" (text policy_key ∷ text rule_id ∷ [])
    policy_hash ← lift (str (at header 1))
    policy_version ← lift (num (at cells 2))
    affected_resource ← lift (str (at cells 4))
    evidence_hash ← lift (str (at cells 7))
    reporter ← lift (str (at cells 5))
    condition_code ← lift (str (at cells 8))
    judge_module ← lift (str (at cells 6))
    judge_version ← lift (num (at rule 1))
    generated_at ← lift (iso (at cells 12))
    pure (record {
      decision_id = decision_id;
      incident_id = incident_id;
      target_id = target_id;
      policy_hash = policy_hash;
      policy_version = policy_version;
      rule_id = rule_id;
      affected_resource = affected_resource;
      evidence_hash = evidence_hash;
      reporter = reporter;
      outcome = outcome;
      condition_code = condition_code;
      judge_module = judge_module;
      judge_version = judge_version;
      decision_stage = stage;
      generated_at = generated_at;
    })

  unfoldable pub list_incident_action_ids : String → Client (List IncidentAction)
  unfolding get_incident get_policy_by_key incident_action
  list_incident_action_ids incident_id = do
    incident ← get_incident incident_id
    policy ← get_policy_by_key t addresses incident.policy_key incident.target_id
    pure (
        map (incident_action incident_id incident.policy_key)
          (matching_effects incident.rule_id policy.effects))

  unfoldable pub get_incident_own_restrictions : String → Client (List (ActionType × String × Bool))
  unfolding kernel tuple view_num str by_ordinal truthy
  get_incident_own_restrictions incident_id = do
    count ← kernel_num t addresses "get_incident_restriction_count" (text incident_id ∷ [])
    each_index count 0 λ i. do
      cells ←
          kernel_tuple t addresses "get_incident_restriction_at" (text incident_id ∷ number i ∷ [])
      action_type ← lift (by_ordinal action_types (at cells 2) "action type")
      resource_id ← lift (str (at cells 3))
      pure (action_type, resource_id, truthy (at cells 5))

  unfoldable pub get_incident_lineage : String → Client IncidentLineage
  unfolding judge_read view_num view_str
  get_incident_lineage incident_id = do
    let ask =
        λ (function_name : String). judge_read t addresses function_name (text incident_id ∷ [])
    parent_view ← ask "get_incident_parent"
    target_view ← ask "get_incident_target_id"
    policy_view ← ask "get_incident_policy_key"
    rule_view ← ask "get_incident_rule_id"
    reporter_view ← ask "get_incident_reporter"
    evidence_view ← ask "get_incident_evidence_hash"
    outcome_view ← ask "get_incident_outcome"
    condition_view ← ask "get_incident_condition_code"
    count_view ← ask "get_parent_child_count"
    count ← lift (view_num count_view)
    children ← each_index count 0 λ i. do
      child ← judge_read t addresses "get_parent_child_at" (text incident_id ∷ number i ∷ [])
      lift (view_str child)
    parent ← lift (view_str parent_view)
    target_id ← lift (view_str target_view)
    policy_key ← lift (view_str policy_view)
    rule_id ← lift (view_str rule_view)
    reporter ← lift (view_str reporter_view)
    evidence_hash ← lift (view_str evidence_view)
    outcome ← lift (view_num outcome_view)
    condition_code ← lift (view_str condition_view)
    pure (record {
      incident_id = incident_id;
      parent_incident_id = if parent == "" then none else some parent;
      target_id = target_id;
      policy_key = policy_key;
      rule_id = rule_id;
      reporter = reporter;
      evidence_hash = evidence_hash;
      outcome = outcome;
      condition_code = condition_code;
      children = children;
    })
