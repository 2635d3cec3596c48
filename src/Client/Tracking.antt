-- ===== src/Client/Tracking.antt =====
-- The tracking of transactions in packages/protocol-sdk/src/client.ts.
use reclose.Prelude.{
  ℕ, String, Bool, false, not, ◌&&◌, ◌||◌, ◌≡◌, Option, none, some, List, [], ◌∷◌, or_else, Eq,
  index_eq, arith, includes, if◌then◌else◌, ◌==◌, string_eq,
}
use reclose.Async.{pure, reject, lift, or_reject}
use reclose.Json.{Value}
use reclose.Lifecycle.{GenLayerTransactionLifecycle, map_raw_transaction}
use reclose.Client.{
  ◌>>=◌, ◌>>◌, Client, RecloseTransport, RecloseAddresses, ResolvedActionTransaction,
  ExecutionResult, finished_with_return, finished_with_error, not_voted, timeout, nondet_disagree,
  deterministic_violation, ensure_network, send, ask_transaction, ask_triggered, ask_mapping,
}
use reclose.Client.Values.{
  no_index_adapter, no_mapping, no_target_id, no_execution_time, inconsistent_lifecycle, with_error,
}
use reclose.Client.Records.{DecisionRecord}
use reclose.Client.Incidents.{get_decision}

abbrev result_index : ExecutionResult → ℕ
result_index finished_with_return = 0
result_index finished_with_error = 1
result_index not_voted = 2
result_index timeout = 3
result_index nondet_disagree = 4
result_index deterministic_violation = 5

pub result_index_injective : (a b : ExecutionResult) → result_index a ≡ result_index b → a ≡ b
result_index_injective a b h = ground arith

instance abbrev pub result_eq : Eq ExecutionResult
result_eq = index_eq result_index result_index_injective

abbrev pub failure_results : List ExecutionResult
failure_results = finished_with_error ∷ timeout ∷ nondet_disagree ∷ deterministic_violation ∷ []

pub data FinalStatus : Type 0 where
  success failure unknown : FinalStatus

-- Without the fields that are constant.
pub record ExecutionReceipt : Type 0 where
  pub action_id : String
  pub target_id : String
  pub adapter_id : String
  pub parent_tx_id : String
  pub child_tx_id : String
  pub child_lifecycle : GenLayerTransactionLifecycle
  pub execution_result : ExecutionResult
  pub final_status : FinalStatus
  pub pre_state_hash : Option String
  pub post_state_hash : Option String
  pub expected_post_state_required : Bool
  pub observed_post_state : Option Value
  pub post_state_matches_expected : Option Bool
  pub execution_time : String

-- `finalStatus` before the post-state is looked at.
unfoldable pub executed_status : ExecutionResult → FinalStatus
executed_status r =
    if r == finished_with_return
    then success
    else if includes r failure_results
    then failure
    else unknown

-- `finalStatus`: an expected post-state that is not known to match is a failure.
unfoldable pub final_status_of : ExecutionResult → (required : Bool) → Option Bool → FinalStatus
unfolding executed_status
final_status_of r required matches = elim (executed_status r) [
  | success ↦ if required && not (or_else matches false) then failure else success
  | s ↦ s
]

abbrev pub TrackedLifecycle : Type 0
TrackedLifecycle = GenLayerTransactionLifecycle × Option ExecutionResult

module _ (t : RecloseTransport) (addresses : RecloseAddresses) where
  unfoldable pub fetch_transaction : String → Client TrackedLifecycle
  unfolding send map_raw_transaction
  fetch_transaction tx_id = do
    (raw, execution_result) ← send (ask_transaction tx_id) λ n. t.get_transaction n tx_id
    lifecycle ← lift (with_error inconsistent_lifecycle (map_raw_transaction raw))
    pure (lifecycle, execution_result)

  unfoldable pub track_transaction : String → Client TrackedLifecycle
  unfolding ensure_network fetch_transaction
  track_transaction tx_id = do ensure_network t addresses; fetch_transaction tx_id

  -- The mapping of an action or a decision.
  unfoldable pub resolve_mapping : String → Client ResolvedActionTransaction
  unfolding send
  resolve_mapping id = do
    resolver ← or_reject no_index_adapter t.resolve_action_transaction
    mapping ← send (ask_mapping id) λ n. resolver n id
    or_reject (no_mapping id) mapping

  -- The first of the triggered transactions, if there is one.
  unfoldable pub first_child : List String → Client (Option TrackedLifecycle)
  unfolding track_transaction
  first_child [] = pure none
  first_child (tx_id ∷ tx_ids) = do child ← track_transaction tx_id; pure (some child)

  unfoldable pub track_kernel_to_target_child : String → Client (Option TrackedLifecycle)
  unfolding resolve_mapping send first_child
  track_kernel_to_target_child action_id = do
    mapping ← resolve_mapping action_id
    triggered ←
        send (ask_triggered mapping.child_tx_id)
          λ n. t.get_triggered_transaction_ids n mapping.child_tx_id
    first_child triggered

  unfoldable pub get_decision_view : String → Client (DecisionRecord × TrackedLifecycle)
  unfolding get_decision resolve_mapping track_transaction
  get_decision_view decision_id = do
    record' ← get_decision t addresses decision_id
    mapping ← resolve_mapping decision_id
    transaction ← track_transaction mapping.parent_tx_id
    pure (record', transaction)

  -- `is_date` is `!Number.isNaN(Date.parse(text))`.
  unfoldable pub track_action_trace : (String → Bool) → String → Client ExecutionReceipt
  unfolding resolve_mapping track_transaction fetch_transaction final_status_of
  track_action_trace is_date action_id = do
    mapping ← resolve_mapping action_id
    (if mapping.target_id == "" then reject (no_target_id action_id) else pure tt)
    (if mapping.execution_time == "" || not (is_date mapping.execution_time)
        then reject (no_execution_time action_id)
        else pure tt)
    (parent, _) ← track_transaction mapping.parent_tx_id
    (child_lifecycle, reported) ← fetch_transaction mapping.child_tx_id
    pure (record {
      action_id = action_id;
      target_id = mapping.target_id;
      adapter_id = mapping.adapter_id;
      parent_tx_id = parent.tx_id;
      child_tx_id = mapping.child_tx_id;
      child_lifecycle = child_lifecycle;
      execution_result = or_else reported not_voted;
      final_status =
          final_status_of (or_else reported not_voted) mapping.expected_post_state_required
            mapping.post_state_matches_expected;
      pre_state_hash = mapping.pre_state_hash;
      post_state_hash = mapping.post_state_hash;
      expected_post_state_required = mapping.expected_post_state_required;
      observed_post_state = mapping.observed_post_state;
      post_state_matches_expected = mapping.post_state_matches_expected;
      execution_time = mapping.execution_time;
    })
