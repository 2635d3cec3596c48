-- ===== src/Tracker.antt =====
-- packages/transaction-tracker/src/tracker.ts: `TransactionTracker` over any store.
-- A promise that rejects is an error, and the writes before it stay. Every call of the client and
-- every `new Date()` advances `tick`, which numbers the answers of the outside world: two requests
-- for one transaction need not agree. `pollGraph` follows what the client answers, so it takes fuel.
pub mod Store
pub mod InMemory
pub mod Steps
pub mod Keeping
pub mod Termination
pub mod Discovery
mod Tests
use reclose.Prelude.{
  or_else, first_some, is_some, ℕ, zero, suc, String, Bool, true, false, ◌||◌, ◌&&◌, Option, none,
  some, List, [], ◌∷◌, ◌==◌, string_eq, if◌then◌else◌, ltb, Result, ok, throw, ok_or, length,
  includes, nat_eq,
}
use reclose.Lifecycle.{
  RawGenLayerTransaction, GenLayerTransactionLifecycle, uninitialized, LifecycleError,
  map_raw_transaction, derived_is_final, is_safe_to_resubmit,
}
use reclose.Async.{Async, pure, reject, or_reject, resume, ◌>>=◌, ◌>>◌, modify, collect, gets}
use reclose.Tracker.Store.{
  ChildTransactionRole, unknown, role_name, ChildMaterializationStatus, not_observable,
  no_messages_due, awaiting_materialization, materialized, PostStateVerification, TrackedChild,
  TrackedTransaction, TransactionStore,
}

-- What `getTransaction` answers. Of the emitted messages only their number is read.
pub record Reply : Type 0 where
  pub raw : RawGenLayerTransaction
  pub execution_result : Option String
  pub messages : Option ℕ
  pub emitted_messages : Option ℕ
  pub post_state_verification : Option PostStateVerification

-- The client and the clock, by the number of the call; `none` is a rejected request.
pub record World : Type 0 where
  pub get_transaction : ℕ → String → Option Reply
  pub get_triggered_transaction_ids : ℕ → String → Option (List String)
  pub now : ℕ → String

pub data TrackerError : Type 0 where
  untracked cycle_unknown discovered_untracked request_failed : String → TrackerError
  bad_lifecycle : LifecycleError → TrackerError
  -- not an error of the program: the model's fuel ran out
  out_of_fuel : TrackerError

-- `Array.from(new Set(ids))`, beside the ids seen before.
unfoldable pub distinct_from : List String → List String → List String
distinct_from seen [] = []
distinct_from seen (id ∷ ids) =
    let rest = distinct_from seen ids in
    let fresh = id ∷ distinct_from (id ∷ seen) ids in if includes id seen then rest else fresh

-- `prior.get(childId)`: a later child of the same id replaces an earlier one.
unfoldable pub previous_child : String → List TrackedChild → Option TrackedChild
previous_child id [] = none
previous_child id (c ∷ cs) =
    first_some (previous_child id cs) (if c.tx_id == id then some c else none)

-- The status of a node from its emitted messages and its children.
unfoldable pub child_materialization_of : Option ℕ → ℕ → ChildMaterializationStatus
child_materialization_of none children = if children == 0 then not_observable else materialized
child_materialization_of (some emitted) children =
    if ltb children emitted
    then awaiting_materialization
    else if emitted == 0
    then no_messages_due
    else materialized

-- What `track` maps before the first poll.
abbrev pub placeholder : String → RawGenLayerTransaction
placeholder id = record {
  tx_id = id;
  status = uninitialized;
  result = none;
  decided_at_block = none;
  appeal_deadline = none;
}

-- The record of a transaction that is tracked for the first time.
abbrev pub registered :
    String → Option String → GenLayerTransactionLifecycle → String → TrackedTransaction
registered id label lifecycle now = record {
  tx_id = id;
  label = label;
  lifecycle = lifecycle;
  children = [];
  parent_tx_id = none;
  emitted_message_count = none;
  child_materialization = not_observable;
  post_state_verification = none;
  first_tracked_at = some now;
  last_polled_at = none;
}

-- `previous?.firstSeenAt ?? now`
abbrev pub first_seen : String → Option TrackedChild → String
first_seen now none = now
first_seen now (some c) = or_else c.first_seen_at now

-- `childRecord`: the record that is saved for a child found at a parent.
abbrev pub child_record :
    (parent now child_id : String)
    → Option TrackedChild
    → Option TrackedTransaction
    → Reply
    → GenLayerTransactionLifecycle
    → TrackedTransaction
child_record parent now child_id previous stored reply lifecycle = record {
  tx_id = child_id;
  label = elim previous [ none ↦ none | some c ↦ some (role_name c.role) ];
  lifecycle = lifecycle;
  children = elim stored [ none ↦ [] | some r ↦ r.children ];
  parent_tx_id = some parent;
  emitted_message_count = none;
  child_materialization = not_observable;
  post_state_verification = reply.post_state_verification;
  first_tracked_at = some (first_seen now previous);
  last_polled_at = some now;
}

-- `child`: the entry in the parent's own list.
abbrev pub child_entry :
    (parent now child_id : String)
    → Option TrackedChild
    → Reply
    → GenLayerTransactionLifecycle
    → TrackedChild
child_entry parent now child_id previous reply lifecycle = record {
  tx_id = child_id;
  parent_tx_id = some parent;
  role = elim previous [ none ↦ unknown | some c ↦ c.role ];
  lifecycle = lifecycle;
  execution_result = reply.execution_result;
  first_seen_at = some (first_seen now previous);
  last_seen_at = some now;
}

-- `emittedMessageCount`: the count answered now, or the one known before.
abbrev pub message_count : Reply → TrackedTransaction → Option ℕ
message_count reply existing =
    first_some (first_some reply.emitted_messages reply.messages) existing.emitted_message_count

-- `updated`
abbrev pub updated_record :
    TrackedTransaction
    → Reply
    → GenLayerTransactionLifecycle
    → List TrackedChild
    → String
    → TrackedTransaction
updated_record existing reply lifecycle children polled = record existing {
  lifecycle = lifecycle;
  children = children;
  emitted_message_count = message_count reply existing;
  child_materialization = child_materialization_of (message_count reply existing) (length children);
  post_state_verification =
      first_some reply.post_state_verification existing.post_state_verification;
  last_polled_at = some polled;
}

module _ (T : TransactionStore) (w : World) where
  open T use {State, save, load}

  pub record Session : Type 0 where
    pub store : State
    pub tick : ℕ

  abbrev pub Tracking : Type 0 → Type 0
  Tracking A = Async Session TrackerError A

  load_record : String → Tracking (Option TrackedTransaction)
  load_record id = gets (λ s. load id s.store)

  save_record : TrackedTransaction → Tracking (Unit {0})
  save_record r = modify (λ s. record s { store = save r s.store })

  timestamp : Tracking String
  timestamp s = (ok (w.now s.tick), record s { tick = suc s.tick })

  request : String → Tracking Reply
  request id s =
      (ok_or (request_failed id) (w.get_transaction s.tick id), record s { tick = suc s.tick })

  triggered_ids : String → Tracking (List String)
  triggered_ids id s = (
    ok_or (request_failed id) (w.get_triggered_transaction_ids s.tick id),
    record s { tick = suc s.tick },
  )

  pub mapped : RawGenLayerTransaction → Tracking GenLayerTransactionLifecycle
  mapped raw s =
      (elim (map_raw_transaction raw) [ ok l ↦ ok l | throw e ↦ throw (bad_lifecycle e) ], s)

  -- The part of `track` for a transaction that the store does not have.
  register : String → Option String → Tracking TrackedTransaction
  unfolding timestamp save_record
  register id label = do
    lifecycle ← mapped (placeholder id)
    now ← timestamp
    save_record (registered id label lifecycle now)
    pure (registered id label lifecycle now)

  or_register : String → Option String → Option TrackedTransaction → Tracking TrackedTransaction
  unfolding register
  or_register id label none = register id label
  or_register id label (some r) = pure r

  unfoldable pub track : String → Option String → Tracking TrackedTransaction
  unfolding or_register load_record
  track id label = do existing ← load_record id; or_register id label existing

  -- The body of the loop over `childIds`.
  unfoldable pub refresh_child :
      (parent now : String) → List TrackedChild → String → Tracking TrackedChild
  unfolding request load_record save_record
  refresh_child parent now children child_id = do
    reply ← request child_id
    lifecycle ← mapped reply.raw
    let previous = previous_child child_id children
    stored ← load_record child_id
    save_record (child_record parent now child_id previous stored reply lifecycle)
    pure (child_entry parent now child_id previous reply lifecycle)

  refresh_children :
      String → List TrackedChild → GenLayerTransactionLifecycle → Tracking (List TrackedChild)
  unfolding triggered_ids timestamp refresh_child
  refresh_children id children lifecycle =
      if derived_is_final lifecycle.derived || is_some lifecycle.protocol_decision_outcome
      then (do
        child_ids ← triggered_ids id
        now ← timestamp
        collect (refresh_child id now children) (distinct_from [] child_ids))
      else pure children

  -- `pollGraph` from the answer for the node to its last save.
  poll_replied :
      String
      → TrackedTransaction
      → Reply
      → GenLayerTransactionLifecycle
      → Tracking TrackedTransaction
  unfolding refresh_children timestamp save_record
  poll_replied id existing reply lifecycle = do
    children ← refresh_children id existing.children lifecycle
    polled ← timestamp
    save_record (updated_record existing reply lifecycle children polled)
    pure (updated_record existing reply lifecycle children polled)

  -- `pollGraph` for an unvisited node, up to that save.
  unfoldable pub poll_node : String → Tracking TrackedTransaction
  unfolding load_record request poll_replied
  poll_node id = do
    found ← load_record id
    existing ← or_reject (discovered_untracked id) found
    reply ← request id
    lifecycle ← mapped reply.raw
    poll_replied id existing reply lifecycle

  -- `for (const child of children) await this.pollGraph(child.txId, visited);`
  poll_each :
      (String → List String → Tracking (TrackedTransaction × List String))
      → List TrackedChild
      → List String
      → Tracking (List String)
  poll_each poll [] visited = pure visited
  poll_each poll (c ∷ cs) visited = do out ← poll c.tx_id visited; poll_each poll cs out.1

  -- The set `visited` is shared by the calls, so it is passed on and returned.
  unfoldable pub poll_graph : ℕ → String → List String → Tracking (TrackedTransaction × List String)
  unfolding load_record poll_node poll_each
  poll_graph zero id visited = reject out_of_fuel
  poll_graph (suc fuel) id visited =
      let again = (do
        known ← load_record id
        r ← or_reject (cycle_unknown id) known
        pure (r, visited)) in
      let fresh = (do
        updated ← poll_node id
        seen ← poll_each (poll_graph fuel) updated.children (id ∷ visited)
        pure (updated, seen)) in
      if includes id visited then again else fresh

  unfoldable pub poll : ℕ → String → Tracking TrackedTransaction
  unfolding load_record poll_graph
  poll fuel id = do
    found ← load_record id
    or_reject (untracked id) found
    out ← poll_graph fuel id []
    pure out.0

  unfoldable pub is_ready_for_resubmit_decision : String → Tracking Bool
  unfolding load_record
  is_ready_for_resubmit_decision id = do
    found ← load_record id
    pure (elim found [ none ↦ false | some r ↦ is_safe_to_resubmit r.lifecycle ])
