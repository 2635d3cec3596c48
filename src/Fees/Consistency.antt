-- ===== src/Fees/Consistency.antt =====
-- Every node of a rolled-up tree holds its own estimate and all that its children hold:
-- `rollUpNestedBudgets` of packages/protocol-sdk/src/feeAllocation.ts.
use reclose.Prelude.{
  ℕ, zero, suc, ◌+◌, ◌≤◌, Bool, none, some, List, [], ◌∷◌, map, ◌≡◌, ◌≢◌, refl, ap, sym, ◌∙◌, ◌&&◌,
  not, ◌==◌, nat_eq, nat_beq_iff, length, get_elem?, get_elem?-set, keep, if◌then◌else◌, arith,
  lt-length_of_get_elem?, get_elem?_of_lt,
}
use reclose.Fees.{
  Node, RawNode, normalize_node, fold_into_parent, roll_below, roll_up_nested_budgets, sum_budgets,
}
use reclose.Fees.RollUp.{
  shape, IsForest, IsForest-map-shape, IsForest-get_elem?, map-shape-fold_into_parent, Round,
  at_root, into, fold_into_parent-Round,
}
use reclose.Fees.Totals.{roots, length-map-shape}

-- The budget at an index, 0 where there is no node.
abbrev pub budget_at : List Node → ℕ → ℕ
budget_at ns p = elim (get_elem? ns p) [ none ↦ 0 | some n ↦ n.budget ]

get_elem?-map-shape :
    (i : ℕ) (ns ms : List Node) {n : Node}
    → map shape ns ≡ map shape ms
    → get_elem? ns i ≡ some n
    → (m : Node) × (get_elem? ms i ≡ some m) × (m.parent_index ≡ n.parent_index)
get_elem?-map-shape i [] ms s e = cc
get_elem?-map-shape i (n ∷ ns) [] s e = cc
get_elem?-map-shape zero (n ∷ ns) (m ∷ ms) s e = (m, refl, ground arith)
get_elem?-map-shape (suc i) (n ∷ ns) (m ∷ ms) s e = get_elem?-map-shape i ns ms (ground arith) e

module _ (root : ℕ) where
  -- A node stands directly under index `p`.
  abbrev pub is_child : ℕ → Node → Bool
  is_child p n = not (n.parent_index == root) && n.parent_index == p

  -- What a node gives to index `p`.
  abbrev share : ℕ → Node → ℕ
  share p n = if is_child p n then n.budget else 0

  -- What the nodes below index `i` give to index `p`.
  funded : ℕ → ℕ → List Node → ℕ
  funded p zero ns = 0
  funded p (suc i) [] = 0
  funded p (suc i) (n ∷ ns) = share p n + funded p i ns

  funded-suc :
      (p i : ℕ) (ns : List Node) {n : Node}
      → get_elem? ns i ≡ some n
      → funded p (suc i) ns ≡ funded p i ns + share p n
  unfolding funded
  funded-suc p i [] e = cc
  funded-suc p zero (m ∷ ns) e = ground arith
  funded-suc p (suc i) (m ∷ ns) e = ground (arith, funded-suc p i ns e)

  -- No node at or below `p` stands under `p`.
  funded-eq-zero :
      (k p i : ℕ) (ns : List Node) → IsForest root k ns → k + i ≤ suc p → funded p i ns ≡ 0
  unfolding funded
  funded-eq-zero k p zero ns f h = refl
  funded-eq-zero k p (suc i) [] f h = refl
  funded-eq-zero k p (suc i) (n ∷ ns) (parent, f) h =
      ground (arith, funded-eq-zero (suc k) p i ns f (omega arith))

  funded-length :
      (p : ℕ) (ns : List Node) → funded p (length ns) ns ≡ sum_budgets (keep (is_child p) ns)
  unfolding funded sum_budgets
  funded-length p [] = refl
  funded-length p (n ∷ ns) = ground (arith, funded-length p ns)

  budget_at-fold_into_parent :
      (p i : ℕ) (ns : List Node) (n : Node)
      → get_elem? ns i ≡ some n
      → Round root i ns n
      → budget_at (fold_into_parent root i ns) p ≡ budget_at ns p + share p n
  budget_at-fold_into_parent p i ns n e (at_root r same) =
      rw same (ground (arith, nat_beq_iff n.parent_index root))
  budget_at-fold_into_parent p i ns n e (into q nested below found same) = rw same (
      ground (
        arith,
        get_elem?-set ns n.parent_index p (record q { budget = q.budget + n.budget })
            (lt-length_of_get_elem? ns n.parent_index found),
        nat_beq_iff n.parent_index p,
      ))

  map-shape-roll_below : (i : ℕ) (ns : List Node) → map shape (roll_below root i ns) ≡ map shape ns
  unfolding roll_below
  map-shape-roll_below zero ns = refl
  map-shape-roll_below (suc i) ns =
      map-shape-roll_below i (fold_into_parent root i ns) ∙ map-shape-fold_into_parent root i ns

  funded-zero : (b p : ℕ) (ns : List Node) → b ≡ b + funded p zero ns
  unfolding funded
  funded-zero b p ns = omega arith

  -- One round, from what the earlier rounds do to every budget.
  step :
      (p i : ℕ) (ns : List Node) (n : Node) (r : List Node)
      → get_elem? ns i ≡ some n
      → map shape r ≡ map shape ns
      → IsForest root 0 ns
      → ((p : ℕ) → budget_at r p ≡ budget_at ns p + share p n + funded p i r)
      → budget_at r p ≡ budget_at ns p + funded p (suc i) r
  step p i ns n r e same f ih =
      let (m, e', alike) = get_elem?-map-shape i ns r (sym same) e in
      let forest = IsForest-map-shape root 0 ns r (sym same) f in
      let nothing = funded-eq-zero 0 i i r forest (omega arith) in
      let above = IsForest-get_elem? root 0 i ns f e in
      let at_i : m.budget ≡ n.budget = ground (arith, ih i) in
      ground (arith, ih p, funded-suc p i r e')

  budget_at-roll_below :
      (p i : ℕ) (ns : List Node)
      → IsForest root 0 ns
      → i ≤ length ns
      → budget_at (roll_below root i ns) p ≡ budget_at ns p + funded p i (roll_below root i ns)
  unfolding roll_below
  budget_at-roll_below p zero ns f h = funded-zero (budget_at ns p) p ns
  budget_at-roll_below p (suc i) ns f h =
      let (n, e) = get_elem?_of_lt ns i h in
      let ns' = fold_into_parent root i ns in
      let same = map-shape-fold_into_parent root i ns in
      let f' = IsForest-map-shape root 0 ns ns' (sym same) f in
      let h' : i ≤ length ns' = omega (arith, length-map-shape ns' ns same) in
      let round = fold_into_parent-Round root i ns n f e in
      step p i ns n (roll_below root i ns') e (map-shape-roll_below i ns' ∙ same) f (λ p.
        budget_at-roll_below p i ns' f' h'
        ∙ ap (λ b. b + funded p i (roll_below root i ns'))
            (budget_at-fold_into_parent p i ns n e round))

  pub map-shape-roll_up_nested_budgets :
      (ns : List Node) → map shape (roll_up_nested_budgets root ns) ≡ map shape ns
  unfolding roll_up_nested_budgets
  map-shape-roll_up_nested_budgets ns = map-shape-roll_below (length ns) ns

  -- In the rolled-up forest every budget is the node's own estimate and its children's budgets.
  pub budget_at-roll_up_nested_budgets :
      (ns : List Node) (p : ℕ)
      → IsForest root 0 ns
      → budget_at (roll_up_nested_budgets root ns) p
        ≡ budget_at ns p + sum_budgets (keep (is_child p) (roll_up_nested_budgets root ns))
  unfolding roll_up_nested_budgets
  budget_at-roll_up_nested_budgets ns p f =
      budget_at-roll_below p (length ns) ns f (omega arith)
      ∙ ap (λ s. budget_at ns p + s)
          (ap (λ k. funded p k (roll_below root (length ns) ns))
              (sym (length-map-shape _ ns (map-shape-roll_below (length ns) ns)))
            ∙ funded-length p (roll_below root (length ns) ns))

  -- An estimate whose only node carries no parent index, which `normalizeNode` reads as index 0:
  -- where 0 does not mark a root the node is its own parent, so its budget is doubled, and the
  -- total over the roots leaves it out.
  pub missing_parent_index :
      (raw : RawNode)
      → raw.parent_index ≡ none
      → root ≢ 0
      → let n = normalize_node raw in
        let rolled = roll_up_nested_budgets root (n ∷ []) in
        (budget_at rolled 0 ≡ n.budget + n.budget) × (roots root rolled ≡ 0)
  unfolding roll_up_nested_budgets fold_into_parent normalize_node sum_budgets
  missing_parent_index raw absent marked = ground arith
