-- ===== src/Policy/Validity.antt =====
-- When a manifest is valid, apart from the order in which packages/policy-compiler/src/compile.ts
-- checks it, and that its loops decide just that.
use reclose.Prelude.{
  sym, ℕ, ◌+◌, ◌≤◌, String, Bool, true, false, not, ◌&&◌, ◌||◌, List, [], ◌∷◌, ◌≡◌, ◌↔◌, refl,
  Result, ok, throw, throw_if, or_else, bind-eq-ok, ◌==◌, string_eq, eq_iff, includes, Distinct,
  All, ltb, if◌then◌else◌, Dict, lookup, insert, lookup-insert, arith, ◌>>◌,
}
use reclose.Policy.Manifest.{
  ActionType, action_eq, PolicyRuleManifest, PolicyEffectManifest, no_action, alert, monitor,
  restrict, throttle, revoke_capability, reroute, enter_safe_mode, pause, enter_recovery, restore,
}
use reclose.Policy.{
  PolicyCompileError, is_valid_identifier, is_valid_address, is_judge_version,
  resource_scoped_actions, target_wide_actions, validate_rule, validate_rules, validate_resources,
  check_scope, validate_effect, validate_effects,
}

-- None of the texts was seen.
abbrev pub Fresh : List String → List String → Type 0
Fresh seen = All (λ x. includes x seen ≡ false)

-- `seen` after a loop that adds every text.
abbrev pub seen_after : List String → List String → List String
seen_after [] seen = seen
seen_after (x ∷ xs) seen = seen_after xs (x ∷ seen)

pub includes-seen_after :
    (y : String) (xs seen : List String)
    → includes y (seen_after xs seen) ≡ (includes y xs || includes y seen)
includes-seen_after y [] seen = refl
includes-seen_after y (x ∷ xs) seen = ground (arith, includes-seen_after y xs (x ∷ seen))

Fresh-cons :
    (x : String) (seen xs : List String)
    → Fresh (x ∷ seen) xs ↔ ((includes x xs ≡ false) × Fresh seen xs)
Fresh-cons x seen [] = ground arith
Fresh-cons x seen (y ∷ ys) = ground (arith, eq_iff x y, eq_iff y x, Fresh-cons x seen ys)

pub Fresh-nil : (xs : List String) → Fresh [] xs
Fresh-nil [] = tt
Fresh-nil (x ∷ xs) = (refl, Fresh-nil xs)

abbrev pub ValidResources : List String → Type 0
ValidResources = All (λ id. is_valid_identifier id 64 ≡ true)

pub validate_resources_iff :
    (ids seen out : List String)
    → (validate_resources ids seen ≡ ok out)
      ↔ (ValidResources ids × Distinct ids × Fresh seen ids × (seen_after ids seen ≡ out))
unfolding validate_resources
validate_resources_iff [] seen out = ground arith
validate_resources_iff (id ∷ ids) seen out =
    ground (arith, Fresh-cons id seen ids, validate_resources_iff ids (id ∷ seen) out)

-- What the compiler asks of a rule alone.
abbrev pub IsValidRule : PolicyRuleManifest → Type 0
IsValidRule r =
    (is_valid_identifier r.rule_id 64 ≡ true)
    × (is_valid_address r.judge ≡ true)
    × (is_judge_version r.judge_version ≡ true)

abbrev pub rule_ids_of : List PolicyRuleManifest → List String
rule_ids_of [] = []
rule_ids_of (r ∷ rs) = r.rule_id ∷ rule_ids_of rs

pub validate_rules_iff :
    (rules : List PolicyRuleManifest) (seen out : List String)
    → (validate_rules rules seen ≡ ok out) ↔ (
        All IsValidRule rules
        × Distinct (rule_ids_of rules)
        × Fresh seen (rule_ids_of rules)
        × (seen_after (rule_ids_of rules) seen ≡ out))
unfolding validate_rules validate_rule
validate_rules_iff [] seen out = ground arith
validate_rules_iff (r ∷ rules) seen out = ground (
  arith,
  Fresh-cons r.rule_id seen (rule_ids_of rules),
  validate_rules_iff rules (r.rule_id ∷ seen) out,
)

-- The resource that an effect names is one that its action allows.
abbrev pub IsScoped : PolicyEffectManifest → List String → Type 0
IsScoped e resource_ids =
    (includes e.action_type resource_scoped_actions ≡ true
      → ((e.resource_id == "") ≡ false) × (includes e.resource_id resource_ids ≡ true))
    × (includes e.action_type target_wide_actions ≡ true → (e.resource_id == "") ≡ true)

disjoint :
    (a : ActionType)
    → includes a resource_scoped_actions ≡ true
    → includes a target_wide_actions ≡ false
disjoint restrict h = refl
disjoint throttle h = refl
disjoint revoke_capability h = refl
disjoint reroute h = refl
disjoint no_action h = refl
disjoint alert h = refl
disjoint monitor h = cc
disjoint enter_safe_mode h = cc
disjoint pause h = cc
disjoint enter_recovery h = cc
disjoint restore h = cc

scope_tests :
    (scoped wide empty declared : Bool) (x y z : PolicyCompileError)
    → (scoped ≡ true → wide ≡ false)
    → ((if scoped
          then (throw_if empty x >> throw_if (not declared) y)
          else throw_if (wide && not empty) z)
        ≡ ok tt)
      ↔ ((scoped ≡ true → (empty ≡ false) × (declared ≡ true)) × (wide ≡ true → empty ≡ true))
scope_tests scoped wide empty declared x y z h = ground arith

check_scope_iff :
    (e : PolicyEffectManifest) (resource_ids : List String)
    → (check_scope e resource_ids ≡ ok tt) ↔ IsScoped e resource_ids
unfolding check_scope
check_scope_iff e resource_ids =
    scope_tests (includes e.action_type resource_scoped_actions)
      (includes e.action_type target_wide_actions) (e.resource_id == "")
      (includes e.resource_id resource_ids) _ _ _ (disjoint e.action_type)

-- How many effects a rule has.
abbrev pub effect_count : String → List PolicyEffectManifest → ℕ
effect_count id [] = 0
effect_count id (e ∷ es) = (if e.rule_id == id then 1 else 0) + effect_count id es

abbrev pub counted : String → Dict ℕ → ℕ
counted id counts = or_else (lookup id counts) 0

counted-insert :
    (id k : String) (n : ℕ) (counts : Dict ℕ)
    → counted id (insert k n counts) ≡ (if k == id then n else counted id counts)
counted-insert id k n counts = ground (arith, lookup-insert id k n counts)

abbrev pub IsValidEffect : (rule_ids resource_ids : List String) → PolicyEffectManifest → Type 0
IsValidEffect rule_ids resource_ids e =
    (includes e.rule_id rule_ids ≡ true) × IsScoped e resource_ids

-- An effect passes exactly when it names a known rule and a fitting resource and its rule has room.
effect_tests :
    (known : Bool) (scope : Result PolicyCompileError (Unit {0})) (n : ℕ) {A : Type 0} {a out : A}
    (x y : PolicyCompileError)
    → ((throw_if (not known) x >> (scope >> (throw_if (ltb 4 n) y >> ok a))) ≡ ok out)
      ↔ ((known ≡ true) × (scope ≡ ok tt) × (n ≤ 4) × (a ≡ out))
effect_tests known (ok u) n x y = ground arith
effect_tests known (throw e) n x y = ground arith

validate_effect_iff :
    (e : PolicyEffectManifest) (rule_ids resource_ids : List String) (counts out : Dict ℕ)
    → (validate_effect e rule_ids resource_ids counts ≡ ok out) ↔ (
        (includes e.rule_id rule_ids ≡ true)
        × (check_scope e resource_ids ≡ ok tt)
        × (counted e.rule_id counts + 1 ≤ 4)
        × (insert e.rule_id (counted e.rule_id counts + 1) counts ≡ out))
unfolding validate_effect
validate_effect_iff e rule_ids resource_ids counts out =
    effect_tests (includes e.rule_id rule_ids) (check_scope e resource_ids)
      (counted e.rule_id counts + 1) _ _

-- Every rule has room for its effects.
abbrev pub HasRoom : Dict ℕ → List PolicyEffectManifest → Type 0
HasRoom counts es = (id : String) → counted id counts + effect_count id es ≤ 4

-- The counts after all effects.
abbrev pub counts_after : List PolicyEffectManifest → Dict ℕ → Dict ℕ
unfolding insert
counts_after [] counts = counts
counts_after (e ∷ es) counts =
    counts_after es (insert e.rule_id (counted e.rule_id counts + 1) counts)

counted_one :
    (e : PolicyEffectManifest) (es : List PolicyEffectManifest) (counts : Dict ℕ) (id : String)
    → counted id (insert e.rule_id (counted e.rule_id counts + 1) counts) + effect_count id es
      ≡ counted id counts + effect_count id (e ∷ es)
counted_one e es counts id =
    ground (
      arith,
      eq_iff e.rule_id id,
      counted-insert id e.rule_id (counted e.rule_id counts + 1) counts,
    )

HasRoom-cons :
    (e : PolicyEffectManifest) (es : List PolicyEffectManifest) (counts : Dict ℕ)
    → HasRoom counts (e ∷ es) ↔ HasRoom (insert e.rule_id (counted e.rule_id counts + 1) counts) es
HasRoom-cons e es counts = (
  (λ room id. rw (counted_one e es counts id) (room id)),
  (λ room id. rw (sym (counted_one e es counts id)) (room id)),
)

HasRoom-head :
    (e : PolicyEffectManifest) (es : List PolicyEffectManifest) (counts : Dict ℕ)
    → HasRoom counts (e ∷ es)
    → counted e.rule_id counts + 1 ≤ 4
HasRoom-head e es counts room = ground (arith, room e.rule_id, eq_iff e.rule_id e.rule_id)

counted_bounded :
    (e : PolicyEffectManifest) (counts : Dict ℕ)
    → ((id : String) → counted id counts ≤ 4)
    → counted e.rule_id counts + 1 ≤ 4
    → (id : String) → counted id (insert e.rule_id (counted e.rule_id counts + 1) counts) ≤ 4
counted_bounded e counts bounded fits id =
    ground (arith, bounded id, counted-insert id e.rule_id (counted e.rule_id counts + 1) counts)

pub validate_effects_sound :
    (es : List PolicyEffectManifest) (rule_ids resource_ids : List String) (counts out : Dict ℕ)
    → ((id : String) → counted id counts ≤ 4)
    → validate_effects es rule_ids resource_ids counts ≡ ok out
    → All (IsValidEffect rule_ids resource_ids) es × HasRoom counts es
unfolding validate_effects
validate_effects_sound [] rule_ids resource_ids counts out bounded h =
    (tt, λ id. ground (arith, bounded id))
validate_effects_sound (e ∷ es) rule_ids resource_ids counts out bounded h =
    let (counts', first, rest) = bind-eq-ok (validate_effect e rule_ids resource_ids counts) _ h in
    let (ruled, scope, fits, after) =
      (validate_effect_iff e rule_ids resource_ids counts counts').0 first in
    let (valid, room) =
      validate_effects_sound es rule_ids resource_ids _ out (counted_bounded e counts bounded fits)
        (rw after rest) in
    (((ruled, (check_scope_iff e resource_ids).0 scope), valid), (HasRoom-cons e es counts).1 room)

pub validate_effects_complete :
    (es : List PolicyEffectManifest) (rule_ids resource_ids : List String) (counts : Dict ℕ)
    → All (IsValidEffect rule_ids resource_ids) es
    → HasRoom counts es
    → validate_effects es rule_ids resource_ids counts ≡ ok (counts_after es counts)
unfolding validate_effects
validate_effects_complete [] rule_ids resource_ids counts valid room = refl
validate_effects_complete (e ∷ es) rule_ids resource_ids counts ((ruled, scoped), valid) room =
    rw
      ((validate_effect_iff e rule_ids resource_ids counts _).1
        (ruled, (check_scope_iff e resource_ids).1 scoped, HasRoom-head e es counts room, refl))
      (validate_effects_complete es rule_ids resource_ids _ valid
        ((HasRoom-cons e es counts).0 room))
