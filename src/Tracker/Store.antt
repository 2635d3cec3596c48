-- ===== src/Tracker/Store.antt =====
-- What the tracker persists, and the contract of its pluggable store: the record types of
-- packages/transaction-tracker/src/tracker.ts and packages/transaction-tracker/src/store.ts.
use reclose.Prelude.{ℕ, String, Option, some, List, ◌≡◌, ◌==◌, string_eq, if◌then◌else◌}
use reclose.Lifecycle.{GenLayerTransactionLifecycle}

pub data ChildTransactionRole : Type 0 where
  judge_decision kernel_effect target_action unknown : ChildTransactionRole

-- The text of a role, as it is stored in a label.
unfoldable pub role_name : ChildTransactionRole → String
role_name judge_decision = "JUDGE_DECISION"
role_name kernel_effect = "KERNEL_EFFECT"
role_name target_action = "TARGET_ACTION"
role_name unknown = "UNKNOWN"

pub data ChildMaterializationStatus : Type 0 where
  not_observable no_messages_due awaiting_materialization materialized : ChildMaterializationStatus

pub data PostStateVerification : Type 0 where
  match mismatch pending : PostStateVerification

pub record TrackedChild : Type 0 where
  pub tx_id : String
  pub parent_tx_id : Option String
  pub role : ChildTransactionRole
  pub lifecycle : GenLayerTransactionLifecycle
  pub execution_result : Option String
  pub first_seen_at : Option String
  pub last_seen_at : Option String

pub record TrackedTransaction : Type 0 where
  pub tx_id : String
  pub label : Option String
  pub lifecycle : GenLayerTransactionLifecycle
  pub children : List TrackedChild
  pub parent_tx_id : Option String
  pub emitted_message_count : Option ℕ
  pub child_materialization : ChildMaterializationStatus
  pub post_state_verification : Option PostStateVerification
  pub first_tracked_at : Option String
  pub last_polled_at : Option String

-- `TransactionStore`: a saved record is what a later load of its transaction returns, and no other
-- record changes. A store whose `save` or `load` rejects is left out.
pub record TransactionStore : Type 1 where
  pub State : Type 0
  pub save : TrackedTransaction → State → State
  pub load : String → State → Option TrackedTransaction
  pub load-save :
      (id : String) (r : TrackedTransaction) (s : State)
      → load id (save r s) ≡ (if r.tx_id == id then some r else load id s)
