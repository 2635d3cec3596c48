-- ===== src/Tracker/Tests.antt =====
-- The tracker over a small chain of transactions: tests, and the theorems at an input.
use reclose.Prelude.{
  ℕ, String, Option, none, some, List, [], ◌∷◌, ◌≡◌, ◌≢◌, refl, inl, ok, throw, map, In, All, arith,
  if◌then◌else◌, ◌==◌, string_eq, Bool-cases, inr,
}
use reclose.Lifecycle.{RawTransactionStatus, finalized, map_raw_transaction}
use reclose.Async.{collect}
use reclose.Tracker.Store.{
  role_name, TrackedTransaction, TrackedChild, ChildMaterializationStatus, not_observable,
  materialized,
}
use reclose.Tracker.InMemory.{in_memory, save, load}
use reclose.Tracker.{
  World, Reply, Session, out_of_fuel, track, poll, refresh_child, mapped, distinct_from,
  previous_child, child_materialization_of,
}
use reclose.Tracker.Keeping.{
  first_record, IsConsistent, poll-IsConsistent, track-IsConsistent, track_idempotent,
}
use reclose.Tracker.Termination.{IsClosed, poll-ne-out_of_fuel}
use reclose.Tracker.Discovery.{IsDiscovered, refresh_child-IsDiscovered}

abbrev answer : String → RawTransactionStatus → Option ℕ → Reply
answer id status emitted = record {
  raw = record {
    tx_id = id;
    status = status;
    result = none;
    decided_at_block = none;
    appeal_deadline = none;
  };
  execution_result = none;
  messages = emitted;
  emitted_messages = none;
  post_state_verification = none;
}

-- `a` triggers `b`, and `b` answers that it triggered `a`: a cycle.
abbrev world : World
world = record {
  get_transaction = λ n id.
      if id == "a"
      then some (answer "a" finalized (some 1))
      else some (answer id finalized (some 1));
  get_triggered_transaction_ids =
      λ n id. if id == "a" then some ("b" ∷ "b" ∷ []) else some ("a" ∷ []);
  now = λ n. "t";
}

abbrev start : Session in_memory world
start = record { store = []; tick = 0 }

abbrev ids : List String
ids = "a" ∷ "b" ∷ []

all_methods : Unit {0}
unfolding track poll collect refresh_child mapped map_raw_transaction save load distinct_from
    previous_child child_materialization_of role_name
all_methods = tt

abbrev tracked : Session in_memory world
tracked = (track in_memory world "a" (some "submit_incident") start).1

-- Two nodes are polled, and the poll ends although they form a cycle.
cycle_ends :
    (map (λ (r : TrackedTransaction). r.tx_id) (poll in_memory world 3 "a" tracked).1.store
      ≡ "a" ∷ "b" ∷ [])
unfolding all_methods
cycle_ends = refl

-- The record of `a` was saved anew as a child of `b`: its label is gone, and its status is reset.
label_lost :
    map {B = Option String × ChildMaterializationStatus}
      (λ (r : TrackedTransaction). (r.label, r.child_materialization))
      (poll in_memory world 3 "a" tracked).1.store
    ≡ (none, not_observable) ∷ (none, materialized) ∷ []
unfolding all_methods
label_lost = refl

tracked-IsConsistent : IsConsistent in_memory world tracked
tracked-IsConsistent =
    track-IsConsistent in_memory world "a" (some "submit_incident") start
      (unfold load in λ id r h. absurd (cc h))

within :
    (n : ℕ) (id : String) (found : List String)
    → world.get_triggered_transaction_ids n id ≡ some found
    → All (λ i. In i ids) found
within n id found h = ground arith

-- The store of `tracked` has one record, without children.
tracked-IsClosed : IsClosed in_memory world ids tracked
unfolding all_methods
tracked-IsClosed id r h = elim (Bool-cases ("a" == id)) [
  | inl e ↦
      let stored : first_record in_memory world "a" (some "submit_incident") start ≡ r =
        cc (rw e at h) in
      rw (← stored) tt
  | inr e ↦ absurd (cc (rw e at h))
]

poll-ne-out_of_fuel_example : (poll in_memory world 3 "a" tracked).0 ≢ throw out_of_fuel
poll-ne-out_of_fuel_example =
    poll-ne-out_of_fuel in_memory world ids within 3 "a" tracked (inl refl) tracked-IsClosed
      (omega arith)

poll-IsConsistent_example : IsConsistent in_memory world (poll in_memory world 3 "a" tracked).1
poll-IsConsistent_example = poll-IsConsistent in_memory world 3 "a" tracked tracked-IsConsistent

track_idempotent_example :
    (r : TrackedTransaction) × ((track in_memory world "a" none start).0 ≡ ok r)
    × (track in_memory world "a" (some "x") (track in_memory world "a" none start).1
        ≡ (ok r, (track in_memory world "a" none start).1))
track_idempotent_example = track_idempotent in_memory world "a" none (some "x") start

found_child : (c : TrackedChild) × ((refresh_child in_memory world "b" "t" [] "a" tracked).0 ≡ ok c)
unfolding all_methods
found_child = (_, refl)

refresh_child-IsDiscovered_example :
    (r : TrackedTransaction) × (load "a"
        (refresh_child in_memory world "b" "t" [] "a" tracked).1.store
      ≡ some r)
    × IsDiscovered in_memory world [] "a" (load "a" tracked.store) r
refresh_child-IsDiscovered_example =
    refresh_child-IsDiscovered in_memory world "b" "t" [] "a" tracked found_child.0 found_child.1
