-- ===== src/Tracker/InMemory.antt =====
-- `InMemoryTransactionStore` of packages/transaction-tracker/src/store.ts. A `Map` keeps the place
-- of a key that is set again; a record is a value here, so the copies that the class makes are the
-- record itself.
use reclose.Prelude.{
  String, Option, none, some, List, [], ◌∷◌, ◌≡◌, refl, ◌==◌, string_eq, if◌then◌else◌, arith,
  eq_iff,
}
use reclose.Tracker.Store.{TrackedTransaction, TransactionStore}

unfoldable pub save : TrackedTransaction → List TrackedTransaction → List TrackedTransaction
save r [] = r ∷ []
save r (q ∷ qs) = if q.tx_id == r.tx_id then r ∷ qs else q ∷ save r qs

unfoldable pub load : String → List TrackedTransaction → Option TrackedTransaction
load id [] = none
load id (q ∷ qs) = if q.tx_id == id then some q else load id qs

pub load-save :
    (id : String) (r : TrackedTransaction) (s : List TrackedTransaction)
    → load id (save r s) ≡ (if r.tx_id == id then some r else load id s)
unfolding save load
load-save id r [] = refl
load-save id r (q ∷ qs) =
    ground (arith, eq_iff q.tx_id r.tx_id, eq_iff q.tx_id id, eq_iff r.tx_id id, load-save id r qs)

abbrev pub in_memory : TransactionStore
in_memory = record {
  State = List TrackedTransaction;
  save = save;
  load = load;
  load-save = load-save;
}
