-- ===== src/Tracker/Keeping.antt =====
-- What tracking and polling keep: packages/transaction-tracker/src/tracker.ts persists an id before
-- the first poll, and never stores more certainty than it has. The store does not reject.
use reclose.Prelude.{
  ℕ, String, Option, none, some, ◌≡◌, refl, ok, ◌==◌, string_eq, eq_iff, Option-cases, Bool-cases,
  inl, inr,
}
use text.Mathlib.TextPositions.{eq_refl}
use reclose.Lifecycle.{lifecycle_of}
use reclose.Async.Leads.{IsPreorder}
use reclose.Tracker.Store.{TrackedTransaction, TransactionStore}
use reclose.Tracker.{World, Session, registered, placeholder, track, poll, register}
use reclose.Tracker.Steps.{IsSound, ticked, saved, mapped-lifecycle_of, Leads-track, Leads-poll}

module _ (T : TransactionStore) (w : World) where
  open T use {load, save, load-save}

  -- Every stored record is filed under its own id and is sound.
  abbrev pub IsConsistent : Session T w → Type 0
  IsConsistent s =
      (id : String) (r : TrackedTransaction) → load id s.store ≡ some r → (r.tx_id ≡ id) × IsSound r

  abbrev Preserves : Session T w → Session T w → Type 0
  Preserves s t = IsConsistent s → IsConsistent t

  Preserves-IsPreorder : IsPreorder Preserves
  Preserves-IsPreorder = record { stays = λ s h. h; joins = λ s t u h k c. k (h c) }

  Preserves-saved :
      (r : TrackedTransaction) (s : Session T w) → IsSound r → Preserves s (saved T w r s)
  Preserves-saved r s sound c id q e = elim (Bool-cases (r.tx_id == id)) [
    | inl same ↦
        let stored : r ≡ q = cc (rw (load-save, same) at e) in
        rw (← stored) ((eq_iff r.tx_id id).0 same, sound)
    | inr other ↦ c id q (rw (load-save, other) at e)
  ]

  -- From a consistent store, `poll` leaves a consistent one, whether it returns or rejects: every
  -- record is filed under its own id, carries a mapped lifecycle, and has a status that agrees with
  -- what is known. Materialized: at least as many children as emitted messages, or, where their
  -- number is not known, at least one child; awaiting: a known number of messages, and fewer
  -- children; no messages due: the number is known to be zero.
  pub poll-IsConsistent :
      (fuel : ℕ) (id : String) (s : Session T w)
      → IsConsistent s
      → IsConsistent (poll T w fuel id s).1
  poll-IsConsistent fuel id s =
      (Leads-poll T w Preserves Preserves-IsPreorder (λ t h. h) Preserves-saved fuel id).from s

  pub track-IsConsistent :
      (id : String) (label : Option String) (s : Session T w)
      → IsConsistent s
      → IsConsistent (track T w id label s).1
  track-IsConsistent id label s =
      (Leads-track T w Preserves Preserves-IsPreorder (λ t h. h) Preserves-saved id label).from s

  -- The record that `track` makes for a new id.
  abbrev pub first_record : String → Option String → Session T w → TrackedTransaction
  first_record id label s = registered id label (lifecycle_of (placeholder id)) (w.now s.tick)

  track-known :
      (id : String) (label : Option String) (s : Session T w) (r : TrackedTransaction)
      → load id s.store ≡ some r
      → track T w id label s ≡ (ok r, s)
  unfolding track
  track-known id label s r h = rw h

  track-new :
      (id : String) (label : Option String) (s : Session T w)
      → load id s.store ≡ none
      → track T w id label s
        ≡ (ok (first_record id label s), saved T w (first_record id label s) (ticked T w s))
  unfolding track register
  track-new id label s h = rw (h, mapped-lifecycle_of T w)

  load-saved :
      (r : TrackedTransaction) (s : Session T w) → load r.tx_id (saved T w r s).store ≡ some r
  load-saved r s = rw (load-save, eq_refl)

  -- Over a store that does not reject, `track` returns, and its record is stored: tracking the id again, under any label,
  -- returns that record and changes nothing.
  pub track_idempotent :
      (id : String) (label label' : Option String) (s : Session T w)
      → (r : TrackedTransaction) × ((track T w id label s).0 ≡ ok r)
        × (track T w id label' (track T w id label s).1 ≡ (ok r, (track T w id label s).1))
  track_idempotent id label label' s = elim (Option-cases (load id s.store)) [
    | inl absent ↦
        let r = first_record id label s in
        (
          r,
          rw (track-new id label s absent) refl,
          rw (track-new id label s absent)
              (track-known id label' (saved T w r (ticked T w s)) r (load-saved r (ticked T w s))),
        )
    | inr (r, present) ↦ (
      r,
      rw (track-known id label s r present) refl,
      rw (track-known id label s r present) (track-known id label' s r present),
    )
  ]
