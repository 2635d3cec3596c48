-- ===== src/Fees/Tests.antt =====
-- Concrete trees of packages/protocol-sdk/src/feeAllocation.ts: tests, and the theorems at an input.
use reclose.Prelude.{
  ℕ, zero, suc, same_lower_case, keep, ◌+◌, String, none, some, List, [], ◌∷◌, ◌≡◌, refl, length,
  map, arith, Result, ok, throw,
}
use reclose.Fees.{
  bigint, RawNode, CallSpec, Estimate, TreeError, NestedAllocationTree, allocations_of, Node,
  no_allocation_node, build_nested_message_allocation_tree, roll_up_nested_budgets, sum_budgets,
  fold_into_parent, normalize_node,
}
use reclose.Fees.RollUp.{IsForest}
use reclose.Fees.Totals.{roots, roots-roll_up_nested_budgets}
use reclose.Fees.Consistency.{
  budget_at, is_child, budget_at-roll_up_nested_budgets, missing_parent_index,
}
use reclose.Fees.Tree.{sum_steps, build-total}

abbrev top : ℕ
top = 0xffffffffffffffff

abbrev raw : String → ℕ → ℕ → RawNode
raw recipient parent budget = record {
  message_type = "call";
  on_acceptance = none;
  parent_index = some (bigint parent);
  recipient = recipient;
  call_key = none;
  budget = some (bigint budget);
  fee_params = none;
}

abbrev call : String → CallSpec
call address = record {
  address = address;
  function_name = "f";
  args = [];
  value = 0;
  account = none;
}

-- The judge sends to the kernel (5), and the kernel to the target (7), which sends on (2).
abbrev estimate_at : ℕ → Estimate
estimate_at zero = record {
  message_allocations = some (raw "0xKernel" top 5 ∷ []);
  fee_value = bigint 1;
}
estimate_at (suc i) = record {
  message_allocations = some (raw "0xTarget" top 7 ∷ raw "0xOther" 0 2 ∷ []);
  fee_value = bigint 1;
}

abbrev estimate : ℕ → CallSpec → Result TreeError Estimate
estimate i spec = ok (estimate_at i)

estimate-IsForest :
    (i : ℕ) (spec : CallSpec) (e : Estimate)
    → estimate i spec ≡ ok e
    → IsForest top 0 (allocations_of e)
unfolding normalize_node
estimate-IsForest zero spec e h =
    let same : estimate_at zero ≡ e = cc h in rw (← same) (omega arith)
estimate-IsForest (suc i) spec e h =
    let same : estimate_at (suc i) ≡ e = cc h in rw (← same) (omega arith)

abbrev judge_chain : List CallSpec
judge_chain = call "0xkernel" ∷ []

judge_tree :
    (t : NestedAllocationTree) × (build_nested_message_allocation_tree top estimate
        (call "0xJudge")
        judge_chain
      ≡ ok t)
    × (t.total_message_fees ≡ 14)
    × (map (λ n. n.budget) t.message_allocations ≡ 14 ∷ 9 ∷ 2 ∷ [])
    × (map (λ n. n.parent_index) t.message_allocations ≡ top ∷ 0 ∷ 1 ∷ [])
unfolding build_nested_message_allocation_tree normalize_node fold_into_parent same_lower_case
judge_tree = (_, refl, refl, refl, refl)

build-total_example :
    (judge_tree.0.total_message_fees ≡ sum_steps judge_tree.0.steps)
    × (length judge_tree.0.steps ≡ 2)
    × IsForest top 0 judge_tree.0.message_allocations
build-total_example =
    build-total top estimate estimate-IsForest (call "0xJudge") judge_chain judge_tree.0
      judge_tree.1

-- A kernel that nothing is sent to: no subtree can be grafted.
no_message_to_kernel :
    build_nested_message_allocation_tree top estimate (call "0xJudge") (call "0xMissing" ∷ [])
    ≡ throw (no_allocation_node "0xMissing" "0xJudge")
unfolding build_nested_message_allocation_tree normalize_node same_lower_case
no_message_to_kernel = refl

abbrev nested : List Node
nested = map normalize_node (raw "a" top 5 ∷ raw "b" 0 7 ∷ raw "c" 0 2 ∷ [])

nested-IsForest : IsForest top 0 nested
unfolding normalize_node
nested-IsForest = omega arith

roots-roll_up_nested_budgets_example :
    roots top (roll_up_nested_budgets top nested) ≡ sum_budgets nested
roots-roll_up_nested_budgets_example = roots-roll_up_nested_budgets top nested nested-IsForest

budget_at-roll_up_nested_budgets_example :
    budget_at (roll_up_nested_budgets top nested) 0
    ≡ budget_at nested 0 + sum_budgets (keep (is_child top 0) (roll_up_nested_budgets top nested))
budget_at-roll_up_nested_budgets_example =
    budget_at-roll_up_nested_budgets top nested 0 nested-IsForest

abbrev no_parent : RawNode
no_parent = record (raw "a" 0 5) { parent_index = none }

missing_parent_index_example :
    let rolled = roll_up_nested_budgets top (normalize_node no_parent ∷ []) in
    (budget_at rolled 0 ≡ 10) × (roots top rolled ≡ 0)
unfolding normalize_node
missing_parent_index_example = missing_parent_index top no_parent refl (omega arith)
