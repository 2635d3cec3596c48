-- ===== src/Lifecycle.antt =====
-- packages/protocol-sdk/src/lifecycle.ts, and the transaction truth model of
-- packages/protocol-sdk/src/types.ts that it enforces.
-- An absent optional field and `null` are both `none`.
pub mod Truth
mod Tests
use reclose.Prelude.{
  is_some, ◌≡◌, refl, ℕ, String, Bool, true, false, not, ◌&&◌, Option, none, some, List, [], ◌∷◌,
  Result, ok, throw, Eq, ◌==◌, index_eq, arith, includes, if◌then◌else◌, ◌>>=◌, ◌>>◌, throw_if,
}

pub data RawTransactionStatus : Type 0 where
  uninitialized pending proposing committing revealing accepted undetermined : RawTransactionStatus
  finalized canceled appeal_revealing appeal_committing : RawTransactionStatus
  validators_timeout leader_timeout leader_revealing : RawTransactionStatus

pub data RawTransactionResult : Type 0 where
  idle agree disagree timeout deterministic_violation no_majority : RawTransactionResult
  majority_agree majority_disagree majority_timeout : RawTransactionResult

pub data ProtocolDecisionOutcome : Type 0 where
  accepted undetermined validators_timeout leader_timeout : ProtocolDecisionOutcome

abbrev status_index : RawTransactionStatus → ℕ
status_index uninitialized = 0
status_index pending = 1
status_index proposing = 2
status_index committing = 3
status_index revealing = 4
status_index RawTransactionStatus.accepted = 5
status_index RawTransactionStatus.undetermined = 6
status_index finalized = 7
status_index canceled = 8
status_index appeal_revealing = 9
status_index appeal_committing = 10
status_index RawTransactionStatus.validators_timeout = 11
status_index RawTransactionStatus.leader_timeout = 12
status_index leader_revealing = 13

pub status_index_injective : (a b : RawTransactionStatus) → status_index a ≡ status_index b → a ≡ b
status_index_injective a b h = ground arith

instance abbrev pub status_eq : Eq RawTransactionStatus
status_eq = index_eq status_index status_index_injective

abbrev pub terminal_raw_statuses : List RawTransactionStatus
terminal_raw_statuses = finalized ∷ canceled ∷ []

abbrev pub non_terminal_processing_statuses : List RawTransactionStatus
non_terminal_processing_statuses =
    uninitialized ∷ pending ∷ proposing ∷ committing ∷ revealing ∷ appeal_revealing
    ∷ appeal_committing ∷ leader_revealing ∷ []

unfoldable pub required_protocol_decision_outcome :
    RawTransactionStatus → Option ProtocolDecisionOutcome
required_protocol_decision_outcome RawTransactionStatus.accepted = some accepted
required_protocol_decision_outcome RawTransactionStatus.undetermined = some undetermined
required_protocol_decision_outcome RawTransactionStatus.validators_timeout = some validators_timeout
required_protocol_decision_outcome RawTransactionStatus.leader_timeout = some leader_timeout
required_protocol_decision_outcome _ = none

unfoldable pub display_labels : RawTransactionStatus → String
display_labels uninitialized = "Submitting"
display_labels pending = "Pending"
display_labels proposing = "Leader proposing"
display_labels committing = "Validators committing"
display_labels revealing = "Validators revealing"
display_labels RawTransactionStatus.accepted = "Accepted"
display_labels RawTransactionStatus.undetermined = "Undetermined"
display_labels finalized = "Finalized"
display_labels canceled = "Canceled"
display_labels appeal_revealing = "Appeal revealing"
display_labels appeal_committing = "Appeal committing"
display_labels RawTransactionStatus.validators_timeout = "Validators timed out"
display_labels RawTransactionStatus.leader_timeout = "Leader timed out"
display_labels leader_revealing = "Leader revealing"

pub record RawGenLayerTransaction : Type 0 where
  pub tx_id : String
  pub status : RawTransactionStatus
  pub result : Option RawTransactionResult
  pub decided_at_block : Option ℕ
  pub appeal_deadline : Option String

pub record DerivedLifecycleDisplay : Type 0 where
  pub display_label : String
  pub is_final : Bool

pub record GenLayerTransactionLifecycle : Type 0 where
  pub tx_id : String
  pub raw_status : RawTransactionStatus
  pub raw_result : Option RawTransactionResult
  pub protocol_decision_outcome : Option ProtocolDecisionOutcome
  pub decided_at_block : Option ℕ
  pub appeal_deadline : Option String
  pub derived : Option DerivedLifecycleDisplay

-- The one error of `mapRawTransaction`, with the status that its message names.
pub data LifecycleError : Type 0 where
  invariant_violated : RawTransactionStatus → LifecycleError

-- The object that `mapRawTransaction` returns.
unfoldable pub lifecycle_of : RawGenLayerTransaction → GenLayerTransactionLifecycle
unfolding required_protocol_decision_outcome display_labels
lifecycle_of raw = record {
  tx_id = raw.tx_id;
  raw_status = raw.status;
  raw_result = raw.result;
  protocol_decision_outcome = required_protocol_decision_outcome raw.status;
  decided_at_block = raw.decided_at_block;
  appeal_deadline = raw.appeal_deadline;
  derived = some (record {
    display_label = display_labels raw.status;
    is_final = includes raw.status terminal_raw_statuses;
  });
}

unfoldable pub map_raw_transaction :
    RawGenLayerTransaction → Result LifecycleError GenLayerTransactionLifecycle
unfolding required_protocol_decision_outcome lifecycle_of
map_raw_transaction raw = do
  let is_non_terminal_processing = includes raw.status non_terminal_processing_statuses
  let outcome = required_protocol_decision_outcome raw.status
  throw_if (is_non_terminal_processing && is_some outcome) (invariant_violated raw.status)
  ok (lifecycle_of raw)

-- `lifecycle.derived?.isFinal === true`
abbrev pub derived_is_final : Option DerivedLifecycleDisplay → Bool
derived_is_final none = false
derived_is_final (some d) = d.is_final

unfoldable pub is_safe_to_resubmit : GenLayerTransactionLifecycle → Bool
is_safe_to_resubmit lifecycle =
    derived_is_final lifecycle.derived && lifecycle.raw_status == canceled
