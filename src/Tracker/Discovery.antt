-- ===== src/Tracker/Discovery.antt =====
-- What finding a child does to the record that the store has of it: the loop over `childIds` of
-- packages/transaction-tracker/src/tracker.ts.
use reclose.Prelude.{String, Option, none, some, List, ◌≡◌, refl, ok, arith, Option-cases, inl, inr}
use text.Mathlib.TextPositions.{eq_refl}
use reclose.Lifecycle.{lifecycle_of}
use reclose.Tracker.Store.{
  role_name, not_observable, TrackedChild, TrackedTransaction, TransactionStore,
}
use reclose.Tracker.{World, Session, refresh_child, child_record, previous_child}
use reclose.Tracker.Steps.{mapped-lifecycle_of}

-- The label that a child found again is given, from the parent's earlier entry for it.
abbrev pub discovered_label : Option TrackedChild → Option String
discovered_label none = none
discovered_label (some c) = some (role_name c.role)

module _ (T : TransactionStore) (w : World) where
  open T use {load, load-save}

  -- What the store holds of a child that was just found.
  pub record IsDiscovered (children : List TrackedChild) (child_id : String)
      (before : Option TrackedTransaction) (r : TrackedTransaction) : Type 0 where
    pub relabelled : r.label ≡ discovered_label (previous_child child_id children)
    pub count_forgotten : r.emitted_message_count ≡ none
    pub status_reset : r.child_materialization ≡ not_observable
    pub children_kept : (q : TrackedTransaction) → before ≡ some q → r.children ≡ q.children

  -- Finding a child replaces the record that the store has of it: its own children stay, but whatever
  -- label it was tracked under is replaced by the parent's earlier role for it, or by none, and its
  -- message count and status are reset.
  pub refresh_child-IsDiscovered :
      (parent now : String) (children : List TrackedChild) (child_id : String) (s : Session T w)
      (c : TrackedChild)
      → (refresh_child T w parent now children child_id s).0 ≡ ok c
      → (r : TrackedTransaction) × (load child_id
            (refresh_child T w parent now children child_id s).1.store
          ≡ some r)
        × IsDiscovered children child_id (load child_id s.store) r
  unfolding refresh_child
  refresh_child-IsDiscovered parent now children child_id s c h =
      elim (Option-cases (w.get_transaction s.tick child_id)) [
        | inl e ↦ absurd (cc (rw e at h))
        | inr (reply, e) ↦ (
          child_record parent now child_id (previous_child child_id children)
              (load child_id s.store) reply (lifecycle_of reply.raw),
          rw (e, mapped-lifecycle_of T w, load-save, eq_refl) refl,
          record {
            relabelled = ground arith;
            count_forgotten = refl;
            status_reset = refl;
            children_kept = λ q k. rw k refl;
          },
        )
      ]
