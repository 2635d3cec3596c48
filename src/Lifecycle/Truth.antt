-- ===== src/Lifecycle/Truth.antt =====
-- What a mapped lifecycle says of its raw status: packages/protocol-sdk/src/lifecycle.ts never
-- makes the display more certain than the protocol.
use reclose.Prelude.{is_some, ◌≡◌, ◌↔◌, ◌⊎◌, true, false, none, ok, arith, In}
use reclose.Lifecycle.{
  RawTransactionStatus, finalized, canceled, RawGenLayerTransaction, GenLayerTransactionLifecycle,
  map_raw_transaction, lifecycle_of, derived_is_final, is_safe_to_resubmit,
  non_terminal_processing_statuses,
}

-- What the display may say of a transaction in a given raw status.
pub record IsTruthful (raw : RawGenLayerTransaction) (l : GenLayerTransactionLifecycle)
    : Type 0 where
  pub same_id : l.tx_id ≡ raw.tx_id
  pub same_status : l.raw_status ≡ raw.status
  pub final_iff :
      (derived_is_final l.derived ≡ true) ↔ ((raw.status ≡ finalized) ⊎ (raw.status ≡ canceled))
  pub decided_iff : (is_some l.protocol_decision_outcome ≡ true) ↔ (
      (raw.status ≡ RawTransactionStatus.accepted)
      ⊎ (raw.status ≡ RawTransactionStatus.undetermined)
      ⊎ (raw.status ≡ RawTransactionStatus.validators_timeout)
      ⊎ (raw.status ≡ RawTransactionStatus.leader_timeout))
  pub processing_undecided :
      In raw.status non_terminal_processing_statuses → l.protocol_decision_outcome ≡ none
  pub decided_not_final :
      is_some l.protocol_decision_outcome ≡ true → derived_is_final l.derived ≡ false

lifecycle_of-IsTruthful : (raw : RawGenLayerTransaction) → IsTruthful raw (lifecycle_of raw)
unfolding lifecycle_of
lifecycle_of-IsTruthful raw = ground arith

-- The mapping returns for every raw transaction: its invariant check never throws. What it returns is truthful: the id and
-- the status are the raw ones, it is final exactly when FINALIZED or CANCELED, carries a decision
-- exactly in the four decided statuses, none while processing, and no decided status is final.
pub map_raw_transaction_total :
    (raw : RawGenLayerTransaction)
    → (map_raw_transaction raw ≡ ok (lifecycle_of raw)) × IsTruthful raw (lifecycle_of raw)
unfolding map_raw_transaction
map_raw_transaction_total raw = (ground arith, lifecycle_of-IsTruthful raw)

-- Resubmission is considered for a mapped transaction exactly when it was canceled; so never after a timeout.
pub is_safe_to_resubmit-lifecycle_of :
    (raw : RawGenLayerTransaction)
    → (is_safe_to_resubmit (lifecycle_of raw) ≡ true) ↔ (raw.status ≡ canceled)
unfolding is_safe_to_resubmit lifecycle_of
is_safe_to_resubmit-lifecycle_of raw = ground arith
