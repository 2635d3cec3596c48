-- ===== src/Fees.antt =====
-- packages/protocol-sdk/src/feeAllocation.ts: the nested message-allocation tree.
-- A bigint is a natural number. `estimateTransactionFeesForWrite` is a call of genlayer-js over the
-- network: a parameter, given the number of the call, since two calls need not agree.
pub mod RollUp
pub mod Totals
pub mod Consistency
pub mod Tree
mod Tests
use reclose.Prelude.{
  or_else, ℕ, zero, suc, ◌+◌, String, Bool, true, false, ◌&&◌, Option, none, some, List, [], ◌∷◌,
  ◌++◌, map, Result, ok, throw, ◌==◌, length, get_elem?, set, keep, leb, if◌then◌else◌, ◌>>=◌,
  same_lower_case, nat_eq,
}

-- `KERNEL_DECISION_ENTRYPOINTS`, `kernelDecisionEntrypointForPhase`
abbrev pub kernel_decision_entrypoint_for_phase : Bool → String
kernel_decision_entrypoint_for_phase on_acceptance =
    if on_acceptance then "receive_provisional_decision" else "receive_final_decision"

-- The `unknown` that an estimate gives for a number. A number or a text stands for the integer that
-- `BigInt` reads from it; those that `BigInt` rejects are left out.
pub data Scalar : Type 0 where
  bigint : ℕ → Scalar
  number : ℕ → Scalar
  string : ℕ → Scalar
  other : Scalar

unfoldable pub to_big_int : Scalar → ℕ
to_big_int (bigint n) = n
to_big_int (number n) = n
to_big_int (string n) = n
to_big_int other = 0

pub record Node : Type 0 where
  pub message_type : String
  pub on_acceptance : Bool
  pub parent_index : ℕ
  pub recipient : String
  pub call_key : String
  pub budget : ℕ
  pub fee_params : String

pub record RawNode : Type 0 where
  pub message_type : String
  pub on_acceptance : Option Bool
  pub parent_index : Option Scalar
  pub recipient : String
  pub call_key : Option String
  pub budget : Option Scalar
  pub fee_params : Option String

unfoldable pub normalize_node : RawNode → Node
unfolding to_big_int
normalize_node raw = record {
  message_type = raw.message_type;
  on_acceptance = or_else raw.on_acceptance false;
  parent_index = to_big_int (or_else raw.parent_index (number 0));
  recipient = raw.recipient;
  call_key = or_else raw.call_key "0x";
  budget = to_big_int (or_else raw.budget (number 0));
  fee_params = or_else raw.fee_params "0x";
}

pub record CallSpec : Type 0 where
  pub address : String
  pub function_name : String
  pub args : List String
  pub value : ℕ
  pub account : Option String

pub record Estimate : Type 0 where
  pub message_allocations : Option (List RawNode)
  pub fee_value : Scalar

pub data TreeError : Type 0 where
  no_allocation_node : (step_address previous_address : String) → TreeError
  estimate_failed : String → TreeError

pub record StepResult : Type 0 where
  pub address : String
  pub function_name : String
  pub allocations : List Node
  pub fee_value : ℕ

pub record NestedAllocationTree : Type 0 where
  pub message_allocations : List Node
  pub total_message_fees : ℕ
  pub root_fee_value : ℕ
  pub steps : List StepResult

-- `merged.findIndex((n) => n.recipient.toLowerCase() === address.toLowerCase())`
unfoldable pub find_recipient : String → List Node → Option ℕ
find_recipient address [] = none
find_recipient address (n ∷ ns) =
    let rest = find_recipient address ns in
    if same_lower_case n.recipient address
    then some 0
    else elim rest [ none ↦ none | some i ↦ some (suc i) ]

-- `.reduce((sum, n) => sum + n.budget, 0n)`
unfoldable pub sum_budgets : List Node → ℕ
sum_budgets [] = 0
sum_budgets (n ∷ ns) = n.budget + sum_budgets ns

abbrev pub allocations_of : Estimate → List Node
allocations_of e = map normalize_node (or_else e.message_allocations [])

-- An entry of `steps`.
abbrev pub step_result : CallSpec → Estimate → StepResult
step_result call e = record {
  address = call.address;
  function_name = call.function_name;
  allocations = allocations_of e;
  fee_value = to_big_int e.fee_value;
}

module _ (root_parent_index : ℕ) where
  -- The body of the loop of `rollUpNestedBudgets` at index `i`.
  unfoldable pub fold_into_parent : ℕ → List Node → List Node
  fold_into_parent i rolled = elim (get_elem? rolled i) [
    | none ↦ rolled
    | some node ↦
        if node.parent_index == root_parent_index
        then rolled
        else elim (get_elem? rolled node.parent_index) [
          | none ↦ rolled
          | some parent ↦
              set rolled node.parent_index (record parent { budget = parent.budget + node.budget })
        ]
  ]

  -- The loop, from the index below the given one down to 0.
  unfoldable pub roll_below : ℕ → List Node → List Node
  roll_below zero rolled = rolled
  roll_below (suc i) rolled = roll_below i (fold_into_parent i rolled)

  unfoldable pub roll_up_nested_budgets : List Node → List Node
  unfolding roll_below
  roll_up_nested_budgets nodes = roll_below (length nodes) nodes

  -- `grafted`: a root of the step's own tree goes under the node that delivers the call.
  unfoldable pub graft : (offset parent_node_index : ℕ) → Node → Node
  graft offset parent_node_index node = record node {
    parent_index =
        if node.parent_index == root_parent_index
        then parent_node_index
        else offset + node.parent_index;
  }

  -- What `buildNestedMessageAllocationTree` returns once the chain is grafted.
  unfoldable pub finish_tree : Estimate → List Node × List StepResult → NestedAllocationTree
  unfolding roll_up_nested_budgets sum_budgets to_big_int
  finish_tree e (merged, steps) =
      let rolled_up = roll_up_nested_budgets merged in
      record {
        message_allocations = rolled_up;
        total_message_fees =
            sum_budgets (keep (λ n. n.parent_index == root_parent_index) rolled_up);
        root_fee_value = to_big_int e.fee_value;
        steps = steps;
      }

  module _ (estimate : ℕ → CallSpec → Result TreeError Estimate) where
    -- The loop over `chain`; `calls` counts the estimates made so far.
    unfoldable pub extend :
        ℕ
        → String
        → List CallSpec
        → List Node
        → List StepResult
        → Result TreeError (List Node × List StepResult)
    unfolding graft find_recipient
    extend calls previous [] merged steps = ok (merged, steps)
    extend calls previous (step ∷ chain) merged steps = elim (find_recipient step.address merged) [
      | none ↦ throw (no_allocation_node step.address previous)
      | some parent_node_index ↦ do
        e ← estimate calls step
        extend (suc calls) step.address chain
            (merged ++ map (graft (length merged) parent_node_index) (allocations_of e))
            (steps ++ step_result step e ∷ [])
    ]

    unfoldable pub build_nested_message_allocation_tree :
        CallSpec → List CallSpec → Result TreeError NestedAllocationTree
    unfolding extend finish_tree
    build_nested_message_allocation_tree root chain = do
      e ← estimate 0 root
      out ← extend 1 root.address chain (allocations_of e) (step_result root e ∷ [])
      ok (finish_tree e out)

    unfoldable pub build_judge_kernel_target_allocation_tree :
        (judge kernel : CallSpec) → Option CallSpec → Result TreeError NestedAllocationTree
    unfolding build_nested_message_allocation_tree
    build_judge_kernel_target_allocation_tree judge kernel target =
        build_nested_message_allocation_tree judge
          (kernel ∷ elim target [ none ↦ [] | some t ↦ t ∷ [] ])
