-- ===== src/Client/Network/Calls.antt =====
-- The calls of the client of packages/protocol-sdk/src/client.ts, in any sequence.
use reclose.Prelude.{ℕ, String, false, Option, List, [], ◌∷◌, refl, inr}
use reclose.Json.{Value}
use reclose.Client.{Client, Session, RecloseTransport, RecloseAddresses}
use reclose.Client.Reads.{get_target, get_policy_lifecycle, get_policy_by_key, get_active_policy}
use reclose.Client.Incidents.{
  get_incident, get_decision, list_incident_action_ids, get_incident_own_restrictions,
  get_incident_lineage,
}
use reclose.Client.Status.{
  get_assurance_state, get_effective_provider_status, get_provider_availability_tri_state,
}
use reclose.Client.Reports.{Runtime}
use reclose.Client.Drafts.{PreparedWriteSemanticKind}
use reclose.Client.Submissions.{
  ReportInput, build_open_bond, build_incident_report, build_recovery_report,
  build_remediation_report,
}
use reclose.Client.Owner.{
  Registration, build_target_registration, build_revoke_authority, build_disable_action,
  build_disable_resource, build_prepared_write_for_call,
}
use reclose.Client.Activation.{build_policy_activation_review, build_policy_activation_write}
use reclose.Client.Tracking.{get_decision_view, track_transaction, track_action_trace}
use reclose.Client.Network.{IsSound, Opens, Opens-Guards}
use reclose.Client.Network.Reads
use reclose.Client.Network.Writes

-- A call of a method that asks the transport, with its arguments.
pub data Call : Type 0 where
  target assurance_state active_policy policy_lifecycle incident decision : String → Call
  action_ids own_restrictions lineage decision_view tracked action_trace : String → Call
  policy_by_key provider_status provider_availability : String → String → Call
  registration : Registration → Call
  revoke_authority : String → Call
  disable_action : String → ℕ → Call
  disable_resource : String → String → Call
  prepared_write :
      String
      → List Value
      → Option String
      → PreparedWriteSemanticKind
      → (value_wei target_id : Option String) → Call
  open_bond : (target_id rule_id reporter : String) → Option String → Call
  incident_report : (target_id rule_id resource_id : String) → ReportInput → Call
  recovery_report remediation_report : String → ReportInput → Call
  activation_review : String → Value → Call
  activation_write : (target_id policy_key : String) → Value → Call

module _ (t : RecloseTransport) (addresses : RecloseAddresses) (runtime : Runtime)
    (number_of_text : String → String) where
  -- The session after a call, whether it returns or rejects.
  unfoldable pub run : Call → Session → Session
  unfolding get_target track_transaction
  run (target id) s = (get_target t addresses id s).1
  run (assurance_state id) s = (get_assurance_state t addresses id s).1
  run (active_policy id) s = (get_active_policy t addresses id s).1
  run (policy_lifecycle key) s = (get_policy_lifecycle t addresses key s).1
  run (incident id) s = (get_incident t addresses id s).1
  run (decision id) s = (get_decision t addresses id s).1
  run (action_ids id) s = (list_incident_action_ids t addresses id s).1
  run (own_restrictions id) s = (get_incident_own_restrictions t addresses id s).1
  run (lineage id) s = (get_incident_lineage t addresses id s).1
  run (decision_view id) s = (get_decision_view t addresses id s).1
  run (tracked id) s = (track_transaction t addresses id s).1
  run (action_trace id) s = (track_action_trace t addresses runtime.is_date id s).1
  run (policy_by_key key id) s = (get_policy_by_key t addresses key id s).1
  run (provider_status id r) s = (get_effective_provider_status t addresses id r s).1
  run (provider_availability id r) s = (get_provider_availability_tri_state t addresses id r s).1
  run (registration r) s = (build_target_registration t addresses r s).1
  run (revoke_authority id) s = (build_revoke_authority t addresses id s).1
  run (disable_action id a) s = (build_disable_action t addresses id a s).1
  run (disable_resource id r) s = (build_disable_resource t addresses id r s).1
  run (prepared_write f args a k v id) s =
      (build_prepared_write_for_call t addresses f args a k v id s).1
  run (open_bond id rule r given) s = (build_open_bond t addresses runtime id rule r given s).1
  run (incident_report id rule r i) s = (build_incident_report t addresses runtime id rule r i s).1
  run (recovery_report id i) s = (build_recovery_report t addresses runtime id i s).1
  run (remediation_report id i) s = (build_remediation_report t addresses runtime id i s).1
  run (activation_review id apm) s =
      (build_policy_activation_review number_of_text t addresses id apm s).1
  run (activation_write id key apm) s =
      (build_policy_activation_write number_of_text t addresses id key apm s).1

  unfoldable pub run_all : List Call → Session → Session
  unfolding run
  run_all [] s = s
  run_all (c ∷ cs) s = run_all cs (run c s)

  IsSound-Opens :
      {A : Type 0} {m : Client A}
      → Opens t addresses m
      → (s : Session) → IsSound t s
      → IsSound t (m s).1
  IsSound-Opens o = (Opens-Guards t addresses o).guarded

  run-IsSound : (c : Call) (s : Session) → IsSound t s → IsSound t (run c s)
  unfolding run build_revoke_authority build_disable_action build_disable_resource
  run-IsSound (target id) = IsSound-Opens (Reads.get_target-Opens t addresses id)
  run-IsSound (assurance_state id) = IsSound-Opens (Reads.get_assurance_state-Opens t addresses id)
  run-IsSound (active_policy id) = IsSound-Opens (Reads.get_active_policy-Opens t addresses id)
  run-IsSound (policy_lifecycle key) =
      IsSound-Opens (Reads.get_policy_lifecycle-Opens t addresses key)
  run-IsSound (incident id) = IsSound-Opens (Reads.get_incident-Opens t addresses id)
  run-IsSound (decision id) = IsSound-Opens (Reads.get_decision-Opens t addresses id)
  run-IsSound (action_ids id) = IsSound-Opens (Reads.list_incident_action_ids-Opens t addresses id)
  run-IsSound (own_restrictions id) =
      IsSound-Opens (Reads.get_incident_own_restrictions-Opens t addresses id)
  run-IsSound (lineage id) = IsSound-Opens (Reads.get_incident_lineage-Opens t addresses id)
  run-IsSound (decision_view id) = IsSound-Opens (Writes.get_decision_view-Opens t addresses id)
  run-IsSound (tracked id) = IsSound-Opens (Writes.track_transaction-Opens t addresses id)
  run-IsSound (action_trace id) =
      (Writes.track_action_trace-Guards t addresses runtime.is_date id).guarded
  run-IsSound (policy_by_key key id) =
      IsSound-Opens (Reads.get_policy_by_key-Opens t addresses key id)
  run-IsSound (provider_status id r) =
      IsSound-Opens (Reads.get_effective_provider_status-Opens t addresses id r)
  run-IsSound (provider_availability id r) =
      (Reads.get_provider_availability_tri_state-Guards t addresses id r).guarded
  run-IsSound (registration r) = (Writes.build_target_registration-Guards t addresses r).guarded
  run-IsSound (revoke_authority id) =
      IsSound-Opens (Writes.build_owner_write-Opens t addresses _ _ _ _)
  run-IsSound (disable_action id a) =
      IsSound-Opens (Writes.build_owner_write-Opens t addresses _ _ _ _)
  run-IsSound (disable_resource id r) =
      IsSound-Opens (Writes.build_owner_write-Opens t addresses _ _ _ _)
  run-IsSound (prepared_write f args a k v id) =
      (Writes.build_prepared_write_for_call-Guards t addresses f args a k v id).guarded
  run-IsSound (open_bond id rule r given) =
      (Writes.build_open_bond-Guards t addresses runtime id rule r given).guarded
  run-IsSound (incident_report id rule r i) =
      IsSound-Opens (Writes.build_incident_report-Opens t addresses runtime id rule r i)
  run-IsSound (recovery_report id i) =
      IsSound-Opens (Writes.build_recovery_report-Opens t addresses runtime id i)
  run-IsSound (remediation_report id i) =
      IsSound-Opens (Writes.build_remediation_report-Opens t addresses runtime id i)
  run-IsSound (activation_review id apm) =
      (Writes.build_policy_activation_review-Guards t addresses number_of_text id apm).guarded
  run-IsSound (activation_write id key apm) =
      (Writes.build_policy_activation_write-Guards t addresses number_of_text id key apm).guarded

  run_all-IsSound_from : (cs : List Call) (s : Session) → IsSound t s → IsSound t (run_all cs s)
  unfolding run_all
  run_all-IsSound_from [] s h = h
  run_all-IsSound_from (c ∷ cs) s h = run_all-IsSound_from cs (run c s) (run-IsSound c s h)

abbrev pub new_session : Session
new_session = record { network_checked = false; requests = [] }

-- After any sequence of the reads, builders and lookups of a new client, `trackKernelToTargetChild`
-- apart, the transport has reported the canonical chain id, or nothing has been sent but requests
-- for the chain id and lookups in the transaction index.
pub run_all-IsSound :
    (t : RecloseTransport) (addresses : RecloseAddresses) (runtime : Runtime)
    (number_of_text : String → String) (calls : List Call)
    → IsSound t (run_all t addresses runtime number_of_text calls new_session)
run_all-IsSound t addresses runtime number_of_text calls =
    run_all-IsSound_from t addresses runtime number_of_text calls new_session (inr (refl, tt))
