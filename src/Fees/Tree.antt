-- ===== src/Fees/Tree.antt =====
-- `buildNestedMessageAllocationTree` of packages/protocol-sdk/src/feeAllocation.ts.
use reclose.Prelude.{
  ℕ, zero, suc, ◌+◌, ◌<◌, String, true, some, List, [], ◌∷◌, ◌++◌, map, ◌≡◌, refl, sym, ◌∙◌, inl,
  inr, nat_eq, nat_beq_iff, length, length-append, arith, Result, ok, bind-eq-ok, Option-cases,
  same_lower_case, get_elem?,
}
use mathlib.Core.Path.{subst}
use reclose.Fees.{
  Node, CallSpec, Estimate, TreeError, StepResult, NestedAllocationTree, allocations_of, graft,
  find_recipient, extend, step_result, finish_tree, build_nested_message_allocation_tree,
  sum_budgets,
}
use reclose.Fees.RollUp.{IsForest, IsForest-map-shape}
use reclose.Fees.Totals.{roots-roll_up_nested_budgets}
use reclose.Fees.Consistency.{map-shape-roll_up_nested_budgets}

-- The node that `findIndex` returns is in the list and has the address.
pub find_recipient_sound :
    (address : String) (ns : List Node) (i : ℕ)
    → find_recipient address ns ≡ some i
    → (n : Node) × (get_elem? ns i ≡ some n)
      × (same_lower_case n.recipient address ≡ true)
      × (i < length ns)
unfolding find_recipient
find_recipient_sound address [] i e = cc
find_recipient_sound address (n ∷ ns) zero e = (n, refl, ground arith, omega arith)
find_recipient_sound address (n ∷ ns) (suc i) e =
    let (m, found, same, h) = find_recipient_sound address ns i (ground arith) in
    (m, found, same, omega arith)

sum_budgets-append : (ns ms : List Node) → sum_budgets (ns ++ ms) ≡ sum_budgets ns + sum_budgets ms
unfolding sum_budgets
sum_budgets-append [] ms = omega arith
sum_budgets-append (n ∷ ns) ms = omega (arith, sum_budgets-append ns ms)

-- What the estimates of the steps report together.
pub sum_steps : List StepResult → ℕ
sum_steps [] = 0
sum_steps (s ∷ ss) = sum_budgets s.allocations + sum_steps ss

sum_steps-append :
    (ss : List StepResult) (s : StepResult)
    → sum_steps (ss ++ s ∷ []) ≡ sum_steps ss + sum_budgets s.allocations
unfolding sum_steps
sum_steps-append [] s = omega arith
sum_steps-append (t ∷ ss) s = omega (arith, sum_steps-append ss s)

module _ (root_index : ℕ) where
  sum_budgets-graft :
      (offset p : ℕ) (ns : List Node)
      → sum_budgets (map (graft root_index offset p) ns) ≡ sum_budgets ns
  unfolding sum_budgets graft
  sum_budgets-graft offset p [] = refl
  sum_budgets-graft offset p (n ∷ ns) = omega (arith, sum_budgets-graft offset p ns)

  IsForest-append :
      (k j : ℕ) (ns ms : List Node)
      → length ns + k ≡ j
      → IsForest root_index k ns
      → IsForest root_index j ms
      → IsForest root_index k (ns ++ ms)
  IsForest-append k j [] ms e f g =
      subst (λ i. IsForest root_index i ms) (let e' : j ≡ k = omega arith in e') g
  IsForest-append k j (n ∷ ns) ms e (p, f) g =
      (p, IsForest-append (suc k) j ns ms (omega arith) f g)

  -- A grafted subtree stands under an earlier node throughout.
  IsForest-graft :
      (offset p k j : ℕ) (ns : List Node)
      → p < offset
      → offset + k ≡ j
      → IsForest root_index k ns
      → IsForest root_index j (map (graft root_index offset p) ns)
  unfolding graft
  IsForest-graft offset p k j [] h e f = tt
  IsForest-graft offset p k j (n ∷ ns) h e (q, f) = (
    ground (arith, nat_beq_iff n.parent_index root_index),
    IsForest-graft offset p (suc k) (suc j) ns h (omega arith) f,
  )

  module _ (estimate : ℕ → CallSpec → Result TreeError Estimate)
      (reports_forests : (i : ℕ) (spec : CallSpec) (e : Estimate)
        → estimate i spec ≡ ok e
        → IsForest root_index 0 (allocations_of e)) where
    -- What the loop over the chain keeps.
    record IsComposed (merged : List Node) (steps : List StepResult) : Type 0 where
      forest : IsForest root_index 0 merged
      complete : sum_budgets merged ≡ sum_steps steps

    -- One round of the loop.
    graft-IsComposed :
        (calls p : ℕ) (step : CallSpec) (e : Estimate) (s : StepResult) (merged : List Node)
        (steps : List StepResult)
        → estimate calls step ≡ ok e
        → s.allocations ≡ allocations_of e
        → p < length merged
        → IsComposed merged steps
        → IsComposed
            (merged ++ map (graft root_index (length merged) p) (allocations_of e))
            (steps ++ s ∷ [])
    unfolding sum_budgets
    graft-IsComposed calls p step e s merged steps estimated same h c = record {
      forest = IsForest-append 0 (length merged) merged _ (omega arith) c.forest (
          IsForest-graft (length merged) p 0 (length merged) (allocations_of e) h (omega arith)
            (reports_forests calls step e estimated));
      complete =
          rw (sum_budgets-append, sum_budgets-graft, sum_steps-append, same)
            (omega (arith, c.complete));
    }

    extend-IsComposed :
        (calls : ℕ) (previous : String) (chain : List CallSpec) (merged : List Node)
        (steps : List StepResult) (out : List Node × List StepResult)
        → IsComposed merged steps
        → extend root_index estimate calls previous chain merged steps ≡ ok out
        → IsComposed out.0 out.1 × (length out.1 ≡ length steps + length chain)
    unfolding extend
    extend-IsComposed calls previous [] merged steps out c h =
        let e : (merged, steps) ≡ out = ground arith in
        subst
          (λ (o : List Node × List StepResult).
            IsComposed o.0 o.1 × (length o.1 ≡ length steps + 0))
          e (c, omega arith)
    extend-IsComposed calls previous (step ∷ chain) merged steps out c h =
        elim (Option-cases (find_recipient step.address merged)) [
          | inl missing ↦ absurd (cc (rw (missing, extend) at h))
          | inr (p, found) ↦
              let (e, estimated, rest) =
                bind-eq-ok (estimate calls step) _ (rw (found, extend) at h) in
              let (m, _, _, lt) = find_recipient_sound step.address merged p found in
              let (c', len) =
                extend-IsComposed (suc calls) step.address chain _ _ out
                  (graft-IsComposed calls p step e _ merged steps estimated refl lt c) rest in
              (c', omega (arith, len, length-append {0} {A = StepResult} steps))
        ]

    first-IsComposed :
        (root : CallSpec) (e : Estimate)
        → estimate 0 root ≡ ok e
        → IsComposed (allocations_of e) (step_result root e ∷ [])
    unfolding sum_steps
    first-IsComposed root e estimated = record {
      forest = reports_forests 0 root e estimated;
      complete = omega arith;
    }

    -- If every estimate reports nodes that stand under earlier ones, a tree that is built funds at its
    -- roots exactly what all the estimates report together, holds one step for each call, and again
    -- has every node under an earlier one.
    pub build-total :
        (root : CallSpec) (chain : List CallSpec) (tree : NestedAllocationTree)
        → build_nested_message_allocation_tree root_index estimate root chain ≡ ok tree
        → (tree.total_message_fees ≡ sum_steps tree.steps)
          × (length tree.steps ≡ suc (length chain))
          × IsForest root_index 0 tree.message_allocations
    unfolding build_nested_message_allocation_tree finish_tree
    build-total root chain tree h =
        let (e, estimated, h1) = bind-eq-ok (estimate 0 root) _ h in
        let (out, extended, h2) =
          bind-eq-ok
            (extend root_index estimate 1 root.address chain (allocations_of e)
              (step_result root e ∷ []))
            (λ out. ok (finish_tree root_index e out)) h1 in
        let (c, len) =
          extend-IsComposed 1 root.address chain _ _ out (first-IsComposed root e estimated)
            extended in
        let built : finish_tree root_index e out ≡ tree = cc h2 in
        rw (← built) (
          roots-roll_up_nested_budgets root_index out.0 c.forest ∙ c.complete,
          omega (arith, len),
          IsForest-map-shape root_index 0 out.0 _
              (sym (map-shape-roll_up_nested_budgets root_index out.0)) c.forest,
        )
