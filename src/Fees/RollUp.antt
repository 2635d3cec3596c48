-- ===== src/Fees/RollUp.antt =====
-- `rollUpNestedBudgets` of packages/protocol-sdk/src/feeAllocation.ts: the shape of the tree, and
-- the total that its roots fund.
use reclose.Prelude.{
  ℕ, zero, suc, ◌+◌, ◌<◌, false, some, List, [], ◌∷◌, map, ◌≡◌, refl, ap, ◌⊎◌, inl, inr, ◌==◌,
  nat_eq, nat_beq_iff, get_elem?, set, arith, lt-length_of_get_elem?, get_elem?_of_lt, Bool-cases,
  Option-cases,
}
use reclose.Fees.{Node, fold_into_parent}

-- A node without its budget.
abbrev pub shape : Node → Node
shape n = record n { budget = 0 }

module _ (root : ℕ) where
  -- Every node, from index `k` on, is a root or stands under an earlier one.
  abbrev pub IsForest : ℕ → List Node → Type 0
  IsForest k [] = Unit
  IsForest k (n ∷ ns) = ((n.parent_index ≡ root) ⊎ (n.parent_index < k)) × IsForest (suc k) ns

  pub IsForest-get_elem? :
      (k i : ℕ) (ns : List Node) {n : Node}
      → IsForest k ns
      → get_elem? ns i ≡ some n
      → (n.parent_index ≡ root) ⊎ (n.parent_index < k + i)
  IsForest-get_elem? k i [] f e = cc
  IsForest-get_elem? k zero (m ∷ ns) f e = ground arith
  IsForest-get_elem? k (suc i) (m ∷ ns) (_, f) e =
      ground (arith, IsForest-get_elem? (suc k) i ns f e)

  pub IsForest-map-shape :
      (k : ℕ) (ns ms : List Node) → map shape ns ≡ map shape ms → IsForest k ns → IsForest k ms
  IsForest-map-shape k [] [] e f = tt
  IsForest-map-shape k [] (m ∷ ms) e f = cc
  IsForest-map-shape k (n ∷ ns) [] e f = cc
  IsForest-map-shape k (n ∷ ns) (m ∷ ms) e (p, f) =
      (ground arith, IsForest-map-shape (suc k) ns ms (ground arith) f)

  map-shape-set :
      (ns : List Node) (i b : ℕ) {n : Node}
      → get_elem? ns i ≡ some n
      → map shape (set ns i (record n { budget = b })) ≡ map shape ns
  map-shape-set [] i b e = cc
  map-shape-set (m ∷ ns) zero b e = ground arith
  map-shape-set (m ∷ ns) (suc i) b e = ap (λ r. shape m ∷ r) (map-shape-set ns i b e)

  pub map-shape-fold_into_parent :
      (i : ℕ) (ns : List Node) → map shape (fold_into_parent root i ns) ≡ map shape ns
  unfolding fold_into_parent
  map-shape-fold_into_parent i ns = elim (Option-cases (get_elem? ns i)) [
    | inl e ↦ rw (e, fold_into_parent) refl
    | inr (n, e) ↦ elim (Option-cases (get_elem? ns n.parent_index)) [
      | inl e' ↦ ground arith
      | inr (q, e') ↦ ground (arith, map-shape-set ns n.parent_index (q.budget + n.budget) e')
    ]
  ]

  -- The two things that a round does in a forest.
  pub data Round (i : ℕ) (ns : List Node) (n : Node) : Type 0 where
    at_root : n.parent_index ≡ root → fold_into_parent root i ns ≡ ns → Round i ns n
    into :
        (q : Node)
        → n.parent_index == root ≡ false
        → n.parent_index < i
        → get_elem? ns n.parent_index ≡ some q
        → fold_into_parent root i ns
          ≡ set ns n.parent_index (record q { budget = q.budget + n.budget })
        → Round i ns n

  pub fold_into_parent-Round :
      (i : ℕ) (ns : List Node) (n : Node) → IsForest 0 ns → get_elem? ns i ≡ some n → Round i ns n
  unfolding fold_into_parent
  fold_into_parent-Round i ns n f e = elim (Bool-cases (n.parent_index == root)) [
    | inl r ↦ at_root ((nat_beq_iff _ _).0 r) (ground arith)
    | inr r ↦
        let below : n.parent_index < i = ground (arith, IsForest-get_elem? 0 i ns f e) in
        let (q, found) =
          get_elem?_of_lt ns n.parent_index (omega (arith, lt-length_of_get_elem? ns i e)) in
        into q r below found (ground arith)
  ]
