-- ===== src/Tracker/Steps.antt =====
-- One rule for all that the tracker of packages/transaction-tracker/src/tracker.ts does: a preorder
-- on sessions that holds across a tick and across the save of a sound record holds from before to
-- after every method, whether it returns or rejects.
use mathlib.Core.Path.{fun_ext}
use reclose.Prelude.{
  is_some, ℕ, zero, suc, String, ◌||◌, ◌<◌, ◌≤◌, Option, none, some, List, [], ◌∷◌, ◌≡◌, refl, ok,
  length, includes, arith, string_eq, ltb, ◌==◌, nat_eq, Bool-cases, inl, inr,
}
use reclose.Lifecycle.{
  RawGenLayerTransaction, GenLayerTransactionLifecycle, lifecycle_of, derived_is_final,
}
use reclose.Lifecycle.Truth.{map_raw_transaction_total}
use reclose.Async.{pure, or_reject, ◌>>=◌, ◌>>◌}
use reclose.Async.Leads.{
  IsPreorder, Leads, Leads-pure, Leads-reject, Leads-or_reject, Leads-if, Leads-bind, Leads-collect,
}
use reclose.Tracker.Store.{
  ChildMaterializationStatus, not_observable, no_messages_due, awaiting_materialization,
  materialized, TrackedChild, TrackedTransaction, TransactionStore,
}
use reclose.Tracker.{
  World, out_of_fuel, untracked, discovered_untracked, cycle_unknown, or_register, Session,
  Tracking, child_materialization_of, load_record, save_record, timestamp, request, triggered_ids,
  mapped, register, track, refresh_child, refresh_children, poll_replied, poll_node, poll_each,
  poll_graph, poll, distinct_from, registered, child_record, child_entry, updated_record,
  message_count, placeholder, previous_child, Reply,
}

-- What a status says of the number of emitted messages, if it is known, and of the children found.
abbrev pub Agrees : ChildMaterializationStatus → Option ℕ → ℕ → Type 0
Agrees materialized none children = 0 < children
Agrees materialized (some emitted) children = (0 < emitted) × (emitted ≤ children)
Agrees awaiting_materialization none children = ⊥
Agrees awaiting_materialization (some emitted) children = children < emitted
Agrees no_messages_due none children = ⊥
Agrees no_messages_due (some emitted) children = emitted ≡ 0
Agrees not_observable none children = Unit
Agrees not_observable (some emitted) children = ⊥

-- A record claims no more than is known: its lifecycle is a mapped one, and its status agrees with
-- the messages emitted and the children found.
pub record IsSound (r : TrackedTransaction) : Type 0 where
  pub mapped : (raw : RawGenLayerTransaction) × (r.lifecycle ≡ lifecycle_of raw)
  pub agrees : Agrees r.child_materialization r.emitted_message_count (length r.children)

registered-IsSound :
    (id : String) (label : Option String) (raw : RawGenLayerTransaction) (now : String)
    → IsSound (registered id label (lifecycle_of raw) now)
registered-IsSound id label raw now = record { mapped = (raw, refl); agrees = tt }

child_record-IsSound :
    (parent now child_id : String) (previous : Option TrackedChild)
    (stored : Option TrackedTransaction) (reply : Reply)
    → IsSound (child_record parent now child_id previous stored reply (lifecycle_of reply.raw))
child_record-IsSound parent now child_id previous stored reply = record {
  mapped = (reply.raw, refl);
  agrees = tt;
}

-- The status computed from a count and a number of children agrees with them.
Agrees-child_materialization_of :
    (count : Option ℕ) (k : ℕ) → Agrees (child_materialization_of count k) count k
unfolding child_materialization_of
Agrees-child_materialization_of none k = elim (Bool-cases (k == 0)) [
  | inl h ↦ rw h tt
  | inr h ↦ rw h (ground arith)
]
Agrees-child_materialization_of (some n) k = elim (Bool-cases (ltb k n)) [
  | inl h ↦ rw h (ground arith)
  | inr h ↦ elim (Bool-cases (n == 0)) [
    | inl z ↦ rw (h, z) (ground arith)
    | inr z ↦ rw (h, z) (ground arith, ground arith)
  ]
]

updated_record-IsSound :
    (existing : TrackedTransaction) (reply : Reply) (children : List TrackedChild) (polled : String)
    → IsSound (updated_record existing reply (lifecycle_of reply.raw) children polled)
updated_record-IsSound existing reply children polled = record {
  mapped = (reply.raw, refl);
  agrees = Agrees-child_materialization_of (message_count reply existing) (length children);
}

module _ (T : TransactionStore) (w : World) where
  open T use {State, save, load}

  abbrev pub ticked : Session T w → Session T w
  ticked s = record s { tick = suc s.tick }

  abbrev pub saved : TrackedTransaction → Session T w → Session T w
  saved r s = record s { store = save r s.store }

  pub mapped-lifecycle_of : mapped T w ≡ λ raw s. (ok (lifecycle_of raw), s)
  unfolding mapped
  mapped-lifecycle_of = fun_ext λ raw. fun_ext λ s. rw ((map_raw_transaction_total raw).0)

  module _ (R : Session T w → Session T w → Type 0) (p : IsPreorder R)
      (ticks : (s : Session T w) → R s (ticked s))
      (saves : (r : TrackedTransaction) (s : Session T w) → IsSound r → R s (saved r s)) where
    Leads-load_record : (id : String) → Leads R (load_record T w id)
    unfolding load_record
    Leads-load_record id = record { from = p.stays }

    Leads-save_record : (r : TrackedTransaction) → IsSound r → Leads R (save_record T w r)
    unfolding save_record
    Leads-save_record r h = record { from = λ s. saves r s h }

    Leads-timestamp : Leads R (timestamp T w)
    unfolding timestamp
    Leads-timestamp = record { from = ticks }

    Leads-request : (id : String) → Leads R (request T w id)
    unfolding request
    Leads-request id = record { from = ticks }

    Leads-triggered_ids : (id : String) → Leads R (triggered_ids T w id)
    unfolding triggered_ids
    Leads-triggered_ids id = record { from = ticks }

    Leads-mapped :
        {A : Type 0} (raw : RawGenLayerTransaction)
        (f : GenLayerTransactionLifecycle → Tracking T w A)
        → Leads R (f (lifecycle_of raw))
        → Leads R (mapped T w raw >>= f)
    Leads-mapped raw f h = rw mapped-lifecycle_of h

    -- A save that ends a method.
    Leads-save_then :
        {A : Type 0} (r : TrackedTransaction) (a : A)
        → IsSound r
        → Leads R (save_record T w r >> pure a)
    Leads-save_then r a h =
        Leads-bind R p (save_record T w r) _ (Leads-save_record r h) λ _. Leads-pure R p a

    Leads-register : (id : String) (label : Option String) → Leads R (register T w id label)
    unfolding register
    Leads-register id label = Leads-mapped _ _ (
        Leads-bind R p (timestamp T w) _ Leads-timestamp λ now.
          let r = registered id label (lifecycle_of (placeholder id)) now in
          Leads-save_then r r (registered-IsSound id label (placeholder id) now))

    Leads-or_register :
        (id : String) (label : Option String) (found : Option TrackedTransaction)
        → Leads R (or_register T w id label found)
    unfolding or_register
    Leads-or_register id label none = Leads-register id label
    Leads-or_register id label (some r) = Leads-pure R p r

    pub Leads-track : (id : String) (label : Option String) → Leads R (track T w id label)
    unfolding track
    Leads-track id label =
        Leads-bind R p (load_record T w id) (or_register T w id label) (Leads-load_record id)
          (Leads-or_register id label)

    Leads-refresh_child :
        (parent now : String) (children : List TrackedChild) (child_id : String)
        → Leads R (refresh_child T w parent now children child_id)
    unfolding refresh_child
    Leads-refresh_child parent now children child_id =
        Leads-bind R p (request T w child_id) _ (Leads-request child_id) λ reply. Leads-mapped _ _ (
          Leads-bind R p (load_record T w child_id) _ (Leads-load_record child_id) λ stored.
            Leads-save_then
              (child_record parent now child_id (previous_child child_id children) stored reply
                (lifecycle_of reply.raw))
              (child_entry parent now child_id (previous_child child_id children) reply
                (lifecycle_of reply.raw))
              (child_record-IsSound parent now child_id (previous_child child_id children) stored
                reply))

    Leads-refresh_children :
        (id : String) (children : List TrackedChild) (l : GenLayerTransactionLifecycle)
        → Leads R (refresh_children T w id children l)
    unfolding refresh_children
    Leads-refresh_children id children l =
        Leads-if R p (derived_is_final l.derived || is_some l.protocol_decision_outcome) _
          (pure children)
          (Leads-bind R p (triggered_ids T w id) _ (Leads-triggered_ids id) λ ids.
            Leads-bind R p (timestamp T w) _ Leads-timestamp λ now.
              Leads-collect R p (refresh_child T w id now children) (distinct_from [] ids)
                (Leads-refresh_child id now children))
          (Leads-pure R p children)

    Leads-poll_replied :
        (id : String) (existing : TrackedTransaction) (reply : Reply)
        → Leads R (poll_replied T w id existing reply (lifecycle_of reply.raw))
    unfolding poll_replied
    Leads-poll_replied id existing reply =
        let l = lifecycle_of reply.raw in
        Leads-bind R p (refresh_children T w id existing.children l) _
          (Leads-refresh_children id existing.children l)
          λ children. Leads-bind R p (timestamp T w) _ Leads-timestamp λ polled.
            Leads-save_then (updated_record existing reply l children polled)
              (updated_record existing reply l children polled)
              (updated_record-IsSound existing reply children polled)

    Leads-poll_node : (id : String) → Leads R (poll_node T w id)
    unfolding poll_node
    Leads-poll_node id = Leads-bind R p (load_record T w id) _ (Leads-load_record id) λ found.
        Leads-bind R p (or_reject (discovered_untracked id) found) _
          (Leads-or_reject R p (discovered_untracked id) found)
          λ existing. Leads-bind R p (request T w id) _ (Leads-request id) λ reply.
            Leads-mapped reply.raw (poll_replied T w id existing reply)
              (Leads-poll_replied id existing reply)

    Leads-poll_each :
        (poll : String → List String → Tracking T w (TrackedTransaction × List String))
        → ((id : String) (visited : List String) → Leads R (poll id visited))
        → (cs : List TrackedChild) (visited : List String) → Leads R (poll_each T w poll cs visited)
    unfolding poll_each
    Leads-poll_each poll h [] visited = Leads-pure R p visited
    Leads-poll_each poll h (c ∷ cs) visited =
        Leads-bind R p (poll c.tx_id visited) _ (h c.tx_id visited)
          λ out. Leads-poll_each poll h cs out.1

    Leads-poll_graph :
        (fuel : ℕ) (id : String) (visited : List String) → Leads R (poll_graph T w fuel id visited)
    unfolding poll_graph
    Leads-poll_graph zero id visited = Leads-reject R p out_of_fuel
    Leads-poll_graph (suc fuel) id visited =
        Leads-if R p (includes id visited) _ _
          (Leads-bind R p (load_record T w id) _ (Leads-load_record id) λ known.
            Leads-bind R p (or_reject (cycle_unknown id) known) _
              (Leads-or_reject R p (cycle_unknown id) known) λ r. Leads-pure R p (r, visited))
          (Leads-bind R p (poll_node T w id) _ (Leads-poll_node id) λ updated.
            Leads-bind R p (poll_each T w (poll_graph T w fuel) updated.children (id ∷ visited)) _
              (Leads-poll_each (poll_graph T w fuel) (Leads-poll_graph fuel) updated.children
                (id ∷ visited))
              λ seen. Leads-pure R p (updated, seen))

    pub Leads-poll : (fuel : ℕ) (id : String) → Leads R (poll T w fuel id)
    unfolding poll
    Leads-poll fuel id = Leads-bind R p (load_record T w id) _ (Leads-load_record id) λ found.
        Leads-bind R p (or_reject (untracked id) found) _ (Leads-or_reject R p (untracked id) found)
          λ _.
            Leads-bind R p (poll_graph T w fuel id []) _ (Leads-poll_graph fuel id [])
              λ out. Leads-pure R p out.0
