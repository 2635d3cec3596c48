-- ===== src/Policy/Receiver.antt =====
-- A receiver of the calls that packages/policy-compiler/src/compile.ts emits: it reads them in order
-- into a policy under construction.
use reclose.Prelude.{
  ℕ, String, Bool, true, false, Option, none, some, List, [], ◌∷◌, ◌++◌, ◌≡◌, refl, zero, suc,
  if◌then◌else◌, ◌==◌, string_eq,
}
use reclose.Policy.Manifest.{
  ActionType, no_action, alert, monitor, restrict, throttle, revoke_capability, reroute,
  enter_safe_mode, pause, enter_recovery, restore, RuleKind, incident, remediation,
  recovery_validation, ReleasePhase, remediation_confirmed, recovery_validated, PolicyRuleManifest,
  PolicyEffectManifest, PolicyManifest, KernelFunction, begin_policy, add_policy_resource,
  add_policy_rule, add_policy_effect, seal_policy, Arg, text, number, boolean, CompiledKernelCall,
}
use reclose.Policy.{action_type_ordinal, release_phase_ordinal, rule_kind_ordinal}

-- A policy under construction: its hash, what it has so far, and whether it is sealed.
pub record Draft : Type 0 where
  pub hash : String
  pub manifest : PolicyManifest
  pub is_sealed : Bool

abbrev pub nth : {A : Type 0} → List A → ℕ → Option A
nth [] n = none
nth (x ∷ xs) zero = some x
nth (x ∷ xs) (suc n) = nth xs n

-- The contracts' tables: the action, the phase (from 1) and the kind (from 1) with an ordinal.
abbrev pub action_of_ordinal : ℕ → Option ActionType
action_of_ordinal = nth (
    no_action ∷ alert ∷ monitor ∷ restrict ∷ throttle ∷ revoke_capability ∷ reroute
    ∷ enter_safe_mode ∷ pause ∷ enter_recovery ∷ restore ∷ [])

abbrev pub phase_of_ordinal : ℕ → Option ReleasePhase
phase_of_ordinal zero = none
phase_of_ordinal (suc n) = nth (remediation_confirmed ∷ recovery_validated ∷ []) n

abbrev pub kind_of_ordinal : ℕ → Option RuleKind
kind_of_ordinal zero = none
kind_of_ordinal (suc n) = nth (incident ∷ remediation ∷ recovery_validation ∷ []) n

pub action_of_ordinal-action_type_ordinal :
    (a : ActionType) → action_of_ordinal (action_type_ordinal a) ≡ some a
unfolding action_type_ordinal
action_of_ordinal-action_type_ordinal no_action = refl
action_of_ordinal-action_type_ordinal alert = refl
action_of_ordinal-action_type_ordinal monitor = refl
action_of_ordinal-action_type_ordinal restrict = refl
action_of_ordinal-action_type_ordinal throttle = refl
action_of_ordinal-action_type_ordinal revoke_capability = refl
action_of_ordinal-action_type_ordinal reroute = refl
action_of_ordinal-action_type_ordinal enter_safe_mode = refl
action_of_ordinal-action_type_ordinal pause = refl
action_of_ordinal-action_type_ordinal enter_recovery = refl
action_of_ordinal-action_type_ordinal restore = refl

pub phase_of_ordinal-release_phase_ordinal :
    (p : ReleasePhase) → phase_of_ordinal (release_phase_ordinal p) ≡ some p
unfolding release_phase_ordinal
phase_of_ordinal-release_phase_ordinal remediation_confirmed = refl
phase_of_ordinal-release_phase_ordinal recovery_validated = refl

pub kind_of_ordinal-rule_kind_ordinal :
    (k : RuleKind) → kind_of_ordinal (rule_kind_ordinal k) ≡ some k
unfolding rule_kind_ordinal
kind_of_ordinal-rule_kind_ordinal incident = refl
kind_of_ordinal-rule_kind_ordinal remediation = refl
kind_of_ordinal-rule_kind_ordinal recovery_validation = refl

abbrev pub and_then : {A B : Type 0} → Option A → (A → Option B) → Option B
and_then none f = none
and_then (some a) f = f a

-- A draft that is not sealed yet.
abbrev pub draft :
    (target key hash : String)
    → List String
    → List PolicyRuleManifest
    → List PolicyEffectManifest
    → Draft
draft target key hash resources rules effects = record {
  hash = hash;
  manifest = record {
    target_id = target;
    policy_key = key;
    resources = resources;
    rules = rules;
    effects = effects;
  };
  is_sealed = false;
}

abbrev pub start_with : KernelFunction → List Arg → Option Draft
start_with begin_policy (text target ∷ text key ∷ text hash ∷ []) =
    some (draft target key hash [] [] [])
start_with _ _ = none

abbrev pub add_resource : Draft → String → Draft
add_resource d id = record d {
  manifest = record (d.manifest) { resources = d.manifest.resources ++ id ∷ [] };
}

abbrev pub add_rule : Draft → String → String → ℕ → Bool → String → String → RuleKind → Option Draft
add_rule d id judge version provisional bond bounty kind =
    let r : PolicyRuleManifest = record {
      rule_id = id;
      judge = judge;
      judge_version = version;
      rule_kind = kind;
      provisional_allowed = provisional;
      report_bond = some bond;
      confirmed_bounty = some bounty;
    } in
    some (record d { manifest = record (d.manifest) { rules = d.manifest.rules ++ r ∷ [] } })

abbrev pub add_effect :
    Draft → String → String → String → String → ActionType → ReleasePhase → Option Draft
add_effect d rule_id resource_id param_u256 param_str action phase =
    let e : PolicyEffectManifest = record {
      rule_id = rule_id;
      action_type = action;
      resource_id = resource_id;
      param_u256 = some param_u256;
      param_str = some param_str;
      release_phase = phase;
    } in
    some (record d { manifest = record (d.manifest) { effects = d.manifest.effects ++ e ∷ [] } })

-- What a call other than the first adds to a draft that is open.
abbrev pub add_call : Draft → KernelFunction → List Arg → Option Draft
add_call d add_policy_resource (text key ∷ text id ∷ []) = some (add_resource d id)
add_call d add_policy_rule
      (text key
        ∷ text id
        ∷ text judge
        ∷ number version
        ∷ number kind
        ∷ boolean provisional
        ∷ text bond
        ∷ text bounty
        ∷ []) =
    and_then (kind_of_ordinal kind) (add_rule d id judge version provisional bond bounty)
add_call d add_policy_effect
      (text key
        ∷ text rule
        ∷ number action
        ∷ text resource
        ∷ text param
        ∷ text param_str
        ∷ number phase
        ∷ []) =
    and_then (action_of_ordinal action)
      λ a. and_then (phase_of_ordinal phase) (add_effect d rule resource param param_str a)
add_call d seal_policy (text key ∷ []) = some (record d { is_sealed = true })
add_call d _ _ = none

-- The policy that a call is for.
abbrev pub key_of : List Arg → String
key_of (text key ∷ _) = key
key_of _ = ""

-- A draft takes calls for its own key until it is sealed.
abbrev pub receive : Draft → CompiledKernelCall → Option Draft
receive d c =
    if d.is_sealed
    then none
    else if key_of (c.args) == d.manifest.policy_key
    then add_call d (c.function_name) (c.args)
    else none

abbrev pub receive_all : Draft → List CompiledKernelCall → Option Draft
receive_all d [] = some d
receive_all d (c ∷ cs) = and_then (receive d c) λ d'. receive_all d' cs

abbrev pub replay : List CompiledKernelCall → Option Draft
replay [] = none
replay (c ∷ cs) = and_then (start_with (c.function_name) (c.args)) λ d. receive_all d cs
