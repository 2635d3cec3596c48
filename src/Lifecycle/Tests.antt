-- ===== src/Lifecycle/Tests.antt =====
-- The mapping of packages/protocol-sdk/src/lifecycle.ts at a concrete transaction.
use reclose.Prelude.{◌≡◌, ◌↔◌, true, none, ok}
use reclose.Lifecycle.{
  RawGenLayerTransaction, canceled, map_raw_transaction, lifecycle_of, is_safe_to_resubmit,
  RawTransactionStatus,
}
use reclose.Lifecycle.Truth.{
  IsTruthful, map_raw_transaction_total, is_safe_to_resubmit-lifecycle_of,
}

abbrev timed_out : RawGenLayerTransaction
timed_out = record {
  tx_id = "0x1";
  status = RawTransactionStatus.validators_timeout;
  result = none;
  decided_at_block = none;
  appeal_deadline = none;
}

map_raw_transaction_total_example :
    (map_raw_transaction timed_out ≡ ok (lifecycle_of timed_out))
    × IsTruthful timed_out (lifecycle_of timed_out)
map_raw_transaction_total_example = map_raw_transaction_total timed_out

is_safe_to_resubmit-lifecycle_of_example :
    (is_safe_to_resubmit (lifecycle_of timed_out) ≡ true) ↔ (timed_out.status ≡ canceled)
is_safe_to_resubmit-lifecycle_of_example = is_safe_to_resubmit-lifecycle_of timed_out
