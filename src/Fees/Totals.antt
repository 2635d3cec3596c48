-- ===== src/Fees/Totals.antt =====
-- What the roots of a rolled-up tree fund: `rollUpNestedBudgets` and the sum behind
-- `totalMessageFees` in packages/protocol-sdk/src/feeAllocation.ts.
use reclose.Prelude.{
  ℕ, zero, suc, ◌+◌, ◌<◌, ◌≤◌, some, List, [], ◌∷◌, map, ◌≡◌, refl, ap, sym, ◌∙◌, ◌==◌, nat_eq,
  nat_beq_iff, length, get_elem?, set, keep, if◌then◌else◌, arith, length-map, get_elem?_of_lt,
}
use reclose.Fees.{Node, fold_into_parent, roll_below, roll_up_nested_budgets, sum_budgets}
use reclose.Fees.RollUp.{
  shape, IsForest, IsForest-map-shape, map-shape-fold_into_parent, Round, at_root, into,
  fold_into_parent-Round,
}

pub length-map-shape : (ns ms : List Node) → map shape ns ≡ map shape ms → length ns ≡ length ms
length-map-shape ns ms e =
    sym (length-map shape ns) ∙ ap (λ (l : List Node). length l) e ∙ length-map shape ms

module _ (root : ℕ) where
  -- What the roots hold.
  abbrev pub roots : List Node → ℕ
  roots ns = sum_budgets (keep (λ n. n.parent_index == root) ns)

  -- What the nested nodes below index `i` hold.
  nested_below : ℕ → List Node → ℕ
  nested_below zero ns = 0
  nested_below (suc i) [] = 0
  nested_below (suc i) (n ∷ ns) =
      (if n.parent_index == root then 0 else n.budget) + nested_below i ns

  nested_below-suc :
      (i : ℕ) (ns : List Node) {n : Node}
      → get_elem? ns i ≡ some n
      → nested_below (suc i) ns
        ≡ nested_below i ns + (if n.parent_index == root then 0 else n.budget)
  unfolding nested_below
  nested_below-suc i [] e = cc
  nested_below-suc zero (m ∷ ns) e = ground arith
  nested_below-suc (suc i) (m ∷ ns) e = ground (arith, nested_below-suc i ns e)

  -- Raising a budget below index `i` raises the two sums together by as much.
  held-set :
      (i p : ℕ) (ns : List Node) {q : Node} (b : ℕ)
      → p < i
      → get_elem? ns p ≡ some q
      → roots (set ns p (record q { budget = q.budget + b }))
          + nested_below i (set ns p (record q { budget = q.budget + b }))
        ≡ roots ns + nested_below i ns + b
  unfolding nested_below sum_budgets
  held-set i p [] b h e = cc
  held-set zero p (m ∷ ns) b h e = elim h [ ]
  held-set (suc i) zero (m ∷ ns) b h e = ground arith
  held-set (suc i) (suc p) (m ∷ ns) b h e = ground (arith, held-set i p ns b (omega arith) e)

  nested_below-length : (ns : List Node) → roots ns + nested_below (length ns) ns ≡ sum_budgets ns
  unfolding nested_below sum_budgets
  nested_below-length [] = refl
  nested_below-length (n ∷ ns) = ground (arith, nested_below-length ns)

  held-fold_into_parent :
      (i : ℕ) (ns : List Node) (n : Node)
      → get_elem? ns i ≡ some n
      → Round root i ns n
      → roots (fold_into_parent root i ns) + nested_below i (fold_into_parent root i ns)
        ≡ roots ns + nested_below (suc i) ns
  held-fold_into_parent i ns n e (at_root r same) =
      rw same (ground (arith, nested_below-suc i ns e, nat_beq_iff n.parent_index root))
  held-fold_into_parent i ns n e (into q nested below found same) =
      rw same
        (ground (arith, held-set i n.parent_index ns n.budget below found, nested_below-suc i ns e))

  roots-roll_below :
      (i : ℕ) (ns : List Node)
      → IsForest root 0 ns
      → i ≤ length ns
      → roots (roll_below root i ns) ≡ roots ns + nested_below i ns
  unfolding roll_below nested_below
  roots-roll_below zero ns f h = omega arith
  roots-roll_below (suc i) ns f h =
      let (n, e) = get_elem?_of_lt ns i h in
      let ns' = fold_into_parent root i ns in
      let same = map-shape-fold_into_parent root i ns in
      let f' = IsForest-map-shape root 0 ns ns' (sym same) f in
      roots-roll_below i ns' f' (omega (arith, length-map-shape ns' ns same))
      ∙ held-fold_into_parent i ns n e (fold_into_parent-Round root i ns n f e)

  -- In a forest the roots of the rolled-up tree hold together the budgets of all the nodes.
  pub roots-roll_up_nested_budgets :
      (ns : List Node)
      → IsForest root 0 ns
      → roots (roll_up_nested_budgets root ns) ≡ sum_budgets ns
  unfolding roll_up_nested_budgets
  roots-roll_up_nested_budgets ns f =
      roots-roll_below (length ns) ns f (omega arith) ∙ nested_below-length ns
