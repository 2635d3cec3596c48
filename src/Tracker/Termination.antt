-- ===== src/Tracker/Termination.antt =====
-- `pollGraph` of packages/transaction-tracker/src/tracker.ts ends, cycles included, whenever the
-- client answers with finitely many ids: each call that is not a repeat marks one of them.
use reclose.Prelude.{
  is_some, ℕ, zero, suc, String, Bool, true, false, not, ◌||◌, ◌<◌, ◌≤◌, Option, none, some, List,
  [], ◌∷◌, ◌≡◌, ◌≢◌, refl, Result, ok, throw, ok_or, length, includes, keep, All, In, arith,
  if◌then◌else◌, ◌==◌, string_eq, eq_iff, Bool-cases, Option-cases, inl, inr,
}
use reclose.Lifecycle.{GenLayerTransactionLifecycle, lifecycle_of, derived_is_final}
use reclose.Async.{Async, resume, ◌>>=◌, collect}
use reclose.Tracker.Store.{TrackedChild, TrackedTransaction, TransactionStore}
use reclose.Tracker.{
  World, TrackerError, out_of_fuel, request_failed, Session, Tracking, request, triggered_ids,
  refresh_child, refresh_children, poll_node, poll_each, poll_graph, poll, distinct_from,
  child_record, updated_record, previous_child,
}
use reclose.Tracker.Steps.{mapped-lifecycle_of}

-- The ids of `ids` that are not visited.
abbrev unvisited : List String → List String → ℕ
unvisited visited ids = length (keep (λ id. not (includes id visited)) ids)

-- What is visited stays visited.
abbrev Grows : List String → List String → Type 0
Grows visited seen = (id : String) → includes id visited ≡ true → includes id seen ≡ true

unvisited_mono :
    (visited seen ids : List String)
    → Grows visited seen
    → unvisited seen ids ≤ unvisited visited ids
unvisited_mono visited seen [] g = omega arith
unvisited_mono visited seen (id ∷ ids) g = ground (arith, g id, unvisited_mono visited seen ids g)

unvisited-nil : (ids : List String) → unvisited [] ids ≤ length ids
unvisited-nil [] = omega arith
unvisited-nil (id ∷ ids) = omega (arith, unvisited-nil ids)

Grows-cons : (id : String) (visited : List String) → Grows visited (id ∷ visited)
Grows-cons id visited i h = ground arith

unvisited-cons :
    (id : String) (visited ids : List String)
    → includes id visited ≡ false
    → In id ids
    → unvisited (id ∷ visited) ids < unvisited visited ids
unvisited-cons id visited [] fresh m = elim m [ ]
unvisited-cons id visited (i ∷ ids) fresh (inl e) =
    ground
      (arith, eq_iff id i, unvisited_mono visited (id ∷ visited) ids (Grows-cons id visited), e)
unvisited-cons id visited (i ∷ ids) fresh (inr m) =
    ground (arith, Grows-cons id visited i, unvisited-cons id visited ids fresh m)

-- A postcondition on return, and on rejection that the fuel did not run out.
abbrev Ends : {S A : Type 0} → (A → S → Type 0) → Result TrackerError A × S → Type 0
Ends Q (ok a, s) = Q a s
Ends Q (throw e, s) = e ≢ out_of_fuel

module _ {S A B : Type 0} where
  Ends-resume :
      (f : A → Async S TrackerError B) (P : A → S → Type 0) (Q : B → S → Type 0)
      (r : Result TrackerError A) (s : S)
      → Ends P (r, s)
      → ((a : A) (t : S) → P a t → Ends Q (f a t))
      → Ends Q (resume f r s)
  Ends-resume f P Q (ok a) s h k = k a s h
  Ends-resume f P Q (throw e) s h k = h

  Ends-bind :
      (m : Async S TrackerError A) (f : A → Async S TrackerError B) (P : A → S → Type 0)
      (Q : B → S → Type 0) (s : S)
      → Ends P (m s)
      → ((a : A) (t : S) → P a t → Ends Q (f a t))
      → Ends Q ((m >>= f) s)
  Ends-bind m f P Q s h k = Ends-resume f P Q (m s).0 (m s).1 h k

Ends-weaken :
    {S A : Type 0} (P Q : A → S → Type 0) (out : Result TrackerError A × S)
    → Ends P out
    → ((a : A) (s : S) → P a s → Q a s)
    → Ends Q out
Ends-weaken P Q (ok a, s) h k = k a s h
Ends-weaken P Q (throw e, s) h k = h

Ends-ne :
    {S A : Type 0} (Q : A → S → Type 0) (out : Result TrackerError A × S)
    → Ends Q out
    → out.0 ≢ throw out_of_fuel
Ends-ne Q (ok a, s) h e = cc e
Ends-ne Q (throw e, s) h e' = h (cc e')

if-Ends :
    {S B : Type 0} (b : Bool) (m n : Async S TrackerError B) (Q : B → S → Type 0) (s : S)
    → Ends Q (m s)
    → Ends Q (n s)
    → Ends Q ((if b then m else n) s)
if-Ends true m n Q s h k = h
if-Ends false m n Q s h k = k

ok_or-Ends :
    {S A : Type 0} (e : TrackerError) (o : Option A) (Q : A → S → Type 0) (s : S)
    → ((a : A) → o ≡ some a → Q a s)
    → e ≢ out_of_fuel
    → Ends Q (ok_or e o, s)
ok_or-Ends e none Q s h k = k
ok_or-Ends e (some a) Q s h k = h a refl

distinct_from-All :
    (P : String → Type 0) (seen ids : List String) → All P ids → All P (distinct_from seen ids)
unfolding distinct_from
distinct_from-All P seen [] h = tt
distinct_from-All P seen (id ∷ ids) (p, h) =
    ground (arith, distinct_from-All P seen ids h, distinct_from-All P (id ∷ seen) ids h)

module _ (T : TransactionStore) (w : World) (ids : List String) where
  open T use {load, save, load-save}

  abbrev Known : List TrackedChild → Type 0
  Known = All (λ c. In c.tx_id ids)

  -- The children that the store names are among the ids.
  abbrev pub IsClosed : Session T w → Type 0
  IsClosed s = (id : String) (r : TrackedTransaction) → load id s.store ≡ some r → Known r.children

  abbrev Keep : {A : Type 0} → A → Session T w → Type 0
  Keep a t = IsClosed t

  abbrev KeepKnown : TrackedTransaction → Session T w → Type 0
  KeepKnown r t = IsClosed t × Known r.children

  IsClosed-saved :
      (r : TrackedTransaction) (s : Session T w)
      → Known r.children
      → IsClosed s
      → IsClosed (record s { store = save r s.store })
  IsClosed-saved r s k h id q e = elim (Bool-cases (r.tx_id == id)) [
    | inl same ↦ let stored : r ≡ q = cc (rw (load-save, same) at e) in rw (← stored) k
    | inr other ↦ h id q (rw (load-save, other) at e)
  ]

  request-Ends : (id : String) (s : Session T w) → IsClosed s → Ends Keep (request T w id s)
  unfolding request
  request-Ends id s h =
      ok_or-Ends (request_failed id) (w.get_transaction s.tick id) Keep _ (λ a _. h) (λ e. cc e)

  -- The client answers with ids of the list.
  module _
      (within : (n : ℕ) (id : String) (found : List String)
        → w.get_triggered_transaction_ids n id ≡ some found
        → All (λ i. In i ids) found) where
    triggered_ids-Ends :
        (id : String) (s : Session T w)
        → IsClosed s
        → Ends (λ found t. IsClosed t × All (λ i. In i ids) found) (triggered_ids T w id s)
    unfolding triggered_ids
    triggered_ids-Ends id s h =
        ok_or-Ends (request_failed id) (w.get_triggered_transaction_ids s.tick id) _ _
          (λ found e. (h, within s.tick id found e)) (λ e. cc e)

    stored-Known :
        (id : String) (s : Session T w)
        → IsClosed s
        → Known (elim (load id s.store) [ none ↦ [] | some r ↦ r.children ])
    stored-Known id s h = elim (Option-cases (load id s.store)) [
      | inl e ↦ rw e tt
      | inr (r, e) ↦ rw e (h id r e)
    ]

    refresh_child-Ends :
        (parent now : String) (children : List TrackedChild) (child_id : String) (s : Session T w)
        → In child_id ids
        → IsClosed s
        → Ends
            (λ c t. IsClosed t × In c.tx_id ids)
            (refresh_child T w parent now children child_id s)
    unfolding refresh_child
    refresh_child-Ends parent now children child_id s m h =
        Ends-bind (request T w child_id) _ Keep _ s (request-Ends child_id s h) λ reply t k.
          rw (mapped-lifecycle_of T w) (
            IsClosed-saved
                (child_record parent now child_id (previous_child child_id children)
                  (load child_id t.store) reply (lifecycle_of reply.raw))
                t (stored-Known child_id t k) k,
            m,
          )

    collect-Ends :
        (f : String → Tracking T w TrackedChild)
        → ((id : String) (s : Session T w)
            → In id ids
            → IsClosed s
            → Ends (λ c t. IsClosed t × In c.tx_id ids) (f id s))
        → (found : List String) (s : Session T w) → All (λ i. In i ids) found
        → IsClosed s
        → Ends (λ cs t. IsClosed t × Known cs) (collect f found s)
    unfolding collect
    collect-Ends f each [] s m h = (h, tt)
    collect-Ends f each (id ∷ found) s (i, m) h = Ends-bind (f id) _ _ _ s (each id s i h) λ c t k.
        Ends-bind (collect f found) _ _ _ t (collect-Ends f each found t m k.0)
          λ cs u l. (l.0, (k.1, l.1))

    refresh_children-Ends :
        (id : String) (children : List TrackedChild) (l : GenLayerTransactionLifecycle)
        (s : Session T w)
        → Known children
        → IsClosed s
        → Ends (λ cs t. IsClosed t × Known cs) (refresh_children T w id children l s)
    unfolding refresh_children
    refresh_children-Ends id children l s k h =
        if-Ends (derived_is_final l.derived || is_some l.protocol_decision_outcome) _ _ _ s
          (Ends-bind (triggered_ids T w id) _ _ _ s (triggered_ids-Ends id s h) λ found t m.
            collect-Ends (refresh_child T w id (w.now t.tick) children)
              (refresh_child-Ends id (w.now t.tick) children) (distinct_from [] found) _
              (distinct_from-All (λ i. In i ids) [] found m.1) m.0)
          (h, k)

    poll_node-Ends :
        (id : String) (s : Session T w) → IsClosed s → Ends KeepKnown (poll_node T w id s)
    unfolding poll_node
    poll_node-Ends id s h = elim (Option-cases (load id s.store)) [
      | inl e ↦ rw e (λ e. cc e)
      | inr (r, e) ↦ rw e (
          Ends-bind (request T w id) _ Keep KeepKnown s (request-Ends id s h) λ reply t k.
            rw (mapped-lifecycle_of T w) (
              Ends-bind (refresh_children T w id r.children (lifecycle_of reply.raw)) _ _ KeepKnown
                t (refresh_children-Ends id r.children (lifecycle_of reply.raw) t (h id r e) k)
                λ cs u m. (
                  IsClosed-saved (updated_record r reply (lifecycle_of reply.raw) cs (w.now u.tick))
                      u m.1 m.0,
                  m.1,
                )))
    ]

    -- What a call of `pollGraph` leaves behind, for the calls after it.
    abbrev Visits : List String → TrackedTransaction × List String → Session T w → Type 0
    Visits visited out t = IsClosed t × Grows visited out.1

    poll_each-Ends :
        (fuel : ℕ) (poll : String → List String → Tracking T w (TrackedTransaction × List String))
        → ((id : String) (visited : List String) (s : Session T w)
            → In id ids
            → IsClosed s
            → unvisited visited ids < fuel
            → Ends (Visits visited) (poll id visited s))
        → (cs : List TrackedChild) (visited : List String) (s : Session T w) → Known cs
        → IsClosed s
        → unvisited visited ids < fuel
        → Ends (λ seen t. IsClosed t × Grows visited seen) (poll_each T w poll cs visited s)
    unfolding poll_each
    poll_each-Ends fuel each one [] visited s k h lt = (h, λ i e. e)
    poll_each-Ends fuel each one (c ∷ cs) visited s (m, k) h lt =
        Ends-bind (each c.tx_id visited) _ (Visits visited) _ s (one c.tx_id visited s m h lt)
          λ out t v.
            Ends-weaken (λ seen u. IsClosed u × Grows out.1 seen)
              (λ seen u. IsClosed u × Grows visited seen) (poll_each T w each cs out.1 t)
              (poll_each-Ends fuel each one cs out.1 t k v.0
                (omega (arith, unvisited_mono visited out.1 ids v.1)))
              λ seen u g. (g.0, λ i e. g.1 i (v.1 i e))

    poll_graph-Ends :
        (fuel : ℕ) (id : String) (visited : List String) (s : Session T w)
        → In id ids
        → IsClosed s
        → unvisited visited ids < fuel
        → Ends (Visits visited) (poll_graph T w fuel id visited s)
    unfolding poll_graph
    poll_graph-Ends zero id visited s m h lt = absurd (omega arith)
    poll_graph-Ends (suc fuel) id visited s m h lt = elim (Bool-cases (includes id visited)) [
      | inl again ↦ rw again (elim (Option-cases (load id s.store)) [
        | inl e ↦ rw e (λ e. cc e)
        | inr (r, e) ↦ rw e (h, λ i e. e)
      ])
      | inr fresh ↦ rw fresh (
          Ends-bind (poll_node T w id) _ KeepKnown (Visits visited) s (poll_node-Ends id s h)
            λ r t k.
              Ends-bind (poll_each T w (poll_graph T w fuel) r.children (id ∷ visited)) _
                (λ seen u. IsClosed u × Grows (id ∷ visited) seen) (Visits visited) t
                (poll_each-Ends fuel (poll_graph T w fuel) (poll_graph-Ends fuel) r.children
                  (id ∷ visited) t k.1 k.0 (omega (arith, unvisited-cons id visited ids fresh m)))
                λ seen u g. (g.0, λ i e. g.1 i (Grows-cons id visited i e)))
    ]

    -- If the client only ever answers with ids of a finite list, the store names only such children,
    -- and the polled id is one of them, then fuel beyond the length of the list is enough: the poll
    -- ends without running out, cycles included.
    pub poll-ne-out_of_fuel :
        (fuel : ℕ) (id : String) (s : Session T w)
        → In id ids
        → IsClosed s
        → length ids < fuel
        → (poll T w fuel id s).0 ≢ throw out_of_fuel
    unfolding poll
    poll-ne-out_of_fuel fuel id s m h lt = elim (Option-cases (load id s.store)) [
      | inl e ↦ rw e (λ e. cc e)
      | inr (r, e) ↦ rw e (
          Ends-ne (λ _ _. Unit {0}) _
            (Ends-bind (poll_graph T w fuel id []) _ (Visits []) (λ _ _. Unit {0}) s
              (poll_graph-Ends fuel id [] s m h (omega (arith, unvisited-nil ids))) λ out t v. tt))
    ]
