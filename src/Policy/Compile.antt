-- ===== src/Policy/Compile.antt =====
-- Which manifests `compilePolicyManifest` of packages/policy-compiler/src/compile.ts accepts.
use reclose.Prelude.{
  is_empty, ◌≤◌, String, Bool, true, false, not, Option, none, some, List, [], ◌∷◌, ◌≡◌, ◌↔◌, refl,
  Result, ok, throw, throw_if, map_result, ◌==◌, string_eq, includes, Distinct, All, every_char,
  is_digit, arith, ◌>>=◌, ◌>>◌,
}
use reclose.Policy.Manifest.{PolicyRuleManifest, PolicyEffectManifest, PolicyManifest}
use reclose.Policy.{
  PolicyCompileError, is_valid_identifier, to_u256_string, validate_rules, validate_resources,
  validate_effects, rule_call, effect_call, emit_calls, compile_policy_manifest,
}
use reclose.Policy.Validity.{
  Fresh-nil, seen_after, includes-seen_after, ValidResources, validate_resources_iff, IsValidRule,
  rule_ids_of, validate_rules_iff, effect_count, IsValidEffect, validate_effects_sound,
  validate_effects_complete,
}

-- The call returned.
abbrev pub returns : {E A : Type 0} → Result E A → Bool
returns (ok a) = true
returns (throw e) = false

-- An amount that is left out or decimal.
abbrev pub IsAmount : Option String → Type 0
IsAmount none = Unit
IsAmount (some s) = ((s == "") ≡ false) × (every_char is_digit s ≡ true)

abbrev pub HasAmounts : PolicyRuleManifest → Type 0
HasAmounts r = IsAmount r.report_bond × IsAmount r.confirmed_bounty

-- A manifest that can be compiled, without the order of the checks.
pub record IsCompilable (m : PolicyManifest) : Type 0 where
  pub target : is_valid_identifier m.target_id 96 ≡ true
  pub key : is_valid_identifier m.policy_key 96 ≡ true
  pub some_rule : is_empty m.rules ≡ false
  pub resources : ValidResources m.resources
  pub resources_distinct : Distinct m.resources
  pub rules : All IsValidRule m.rules
  pub rules_distinct : Distinct (rule_ids_of m.rules)
  pub effects : All (IsValidEffect (rule_ids_of m.rules) m.resources) m.effects
  pub room : (id : String) → effect_count id m.effects ≤ 4
  pub rule_amounts : All HasAmounts m.rules
  pub effect_amounts : All (λ e. IsAmount e.param_u256) m.effects

to_u256_string-returns : (o : Option String) → (returns (to_u256_string o) ≡ true) ↔ IsAmount o
unfolding to_u256_string
to_u256_string-returns none = ground arith
to_u256_string-returns (some s) = ground arith

pair_returns :
    {E A B C : Type 0} (a : Result E A) (b : Result E B) (f : A → B → C)
    → (returns (a >>= λ x. b >>= λ y. ok (f x y)) ≡ true)
      ↔ ((returns a ≡ true) × (returns b ≡ true))
pair_returns (ok a) (ok b) f = ground arith
pair_returns (ok a) (throw e) f = ground arith
pair_returns (throw e) b f = ground arith

map_result-returns :
    {A B : Type 0} (f : A → Result PolicyCompileError B) (P : A → Type 0)
    → ((a : A) → (returns (f a) ≡ true) ↔ P a)
    → (xs : List A) → (returns (map_result f xs) ≡ true) ↔ All P xs
map_result-returns f P h [] = ground arith
map_result-returns f P h (x ∷ xs) =
    let pair = pair_returns (f x) (map_result f xs) (λ y ys. y ∷ ys) in
    let rest = map_result-returns f P h xs in ground (arith, h x)

rule_call-returns :
    (key : String) (r : PolicyRuleManifest) → (returns (rule_call key r) ≡ true) ↔ HasAmounts r
unfolding rule_call
rule_call-returns key r =
    let pair = pair_returns (to_u256_string r.report_bond) (to_u256_string r.confirmed_bounty) _ in
    let bond = to_u256_string-returns r.report_bond in
    let bounty = to_u256_string-returns r.confirmed_bounty in
    (
      λ h. (bond.0 ((pair.0 h).0), bounty.0 ((pair.0 h).1)),
      λ h. pair.1 (bond.1 (h.0), bounty.1 (h.1)),
    )

one_returns :
    {E A B : Type 0} (a : Result E A) (f : A → B)
    → (returns (a >>= λ x. ok (f x)) ≡ true) ↔ (returns a ≡ true)
one_returns (ok a) f = ground arith
one_returns (throw e) f = ground arith

effect_call-returns :
    (key : String) (e : PolicyEffectManifest)
    → (returns (effect_call key e) ≡ true) ↔ IsAmount e.param_u256
unfolding effect_call
effect_call-returns key e =
    let one = one_returns (to_u256_string e.param_u256) _ in
    let amount = to_u256_string-returns e.param_u256 in
    (λ h. amount.0 (one.0 h), λ h. one.1 (amount.1 h))

seen_all : (y : String) (xs : List String) → includes y (seen_after xs []) ≡ includes y xs
seen_all y xs = ground (arith, includes-seen_after y xs [])

-- A valid effect only asks which rules and resources there are.
effects_seen :
    (es : List PolicyEffectManifest) (rule_ids resource_ids : List String)
    → All (IsValidEffect (seen_after rule_ids []) (seen_after resource_ids [])) es
      ↔ All (IsValidEffect rule_ids resource_ids) es
effects_seen [] rule_ids resource_ids = ground arith
effects_seen (e ∷ es) rule_ids resource_ids = ground (
  arith,
  seen_all e.rule_id rule_ids,
  seen_all e.resource_id resource_ids,
  effects_seen es rule_ids resource_ids,
)

guard_returns :
    {E A : Type 0} (test : Bool) (x : E) (k : Result E A)
    → (returns (throw_if test x >> k) ≡ true) ↔ ((test ≡ false) × (returns k ≡ true))
guard_returns true x k = ground arith
guard_returns false x k = ground arith

bind_returns :
    {E A B : Type 0} (m : Result E A) (f : A → Result E B)
    → returns (m >>= f) ≡ true
    → (a : A) × (m ≡ ok a) × (returns (f a) ≡ true)
bind_returns (ok a) f h = (a, refl, h)
bind_returns (throw e) f h = cc

not-false : (b : Bool) → (not b ≡ false) ↔ (b ≡ true)
not-false b = ground arith

module _ (hash_policy_manifest : PolicyManifest → String) where
  emit_calls-returns :
      (m : PolicyManifest)
      → (returns (emit_calls hash_policy_manifest m) ≡ true)
        ↔ (All HasAmounts m.rules × All (λ e. IsAmount e.param_u256) m.effects)
  unfolding emit_calls
  emit_calls-returns m =
      let pair =
        pair_returns (map_result (rule_call m.policy_key) m.rules)
          (map_result (effect_call m.policy_key) m.effects) _ in
      let rules =
        map_result-returns (rule_call m.policy_key) HasAmounts (rule_call-returns m.policy_key)
          m.rules in
      let effects =
        map_result-returns (effect_call m.policy_key) _ (effect_call-returns m.policy_key)
          m.effects in
      (
        λ h. (rules.0 ((pair.0 h).0), effects.0 ((pair.0 h).1)),
        λ h. pair.1 (rules.1 (h.0), effects.1 (h.1)),
      )

  accepted :
      (m : PolicyManifest)
      → returns (compile_policy_manifest hash_policy_manifest m) ≡ true
      → IsCompilable m
  unfolding compile_policy_manifest
  accepted m h =
      let (target, h) = (guard_returns (not (is_valid_identifier m.target_id 96)) _ _).0 h in
      let (key, h) = (guard_returns (not (is_valid_identifier m.policy_key 96)) _ _).0 h in
      let (some_rule, h) = (guard_returns (is_empty m.rules) _ _).0 h in
      let (rs, got_rs, h) = bind_returns (validate_resources m.resources []) _ h in
      let (rus, got_rus, h) = bind_returns (validate_rules m.rules []) _ h in
      let (cs, got_cs, h) = bind_returns (validate_effects m.effects rus rs []) _ h in
      let (valid_rs, distinct_rs, _, rs_are) =
        (validate_resources_iff m.resources [] rs).0 got_rs in
      let (valid_rus, distinct_rus, _, rus_are) = (validate_rules_iff m.rules [] rus).0 got_rus in
      let (valid_es, room) =
        validate_effects_sound m.effects (seen_after (rule_ids_of m.rules) [])
          (seen_after m.resources []) [] cs (λ id. ground arith) (rw (rus_are, rs_are) got_cs) in
      let amounts = (emit_calls-returns m).0 h in
      record {
        target = (not-false _).0 target;
        key = (not-false _).0 key;
        some_rule = some_rule;
        resources = valid_rs;
        resources_distinct = distinct_rs;
        rules = valid_rus;
        rules_distinct = distinct_rus;
        effects = (effects_seen m.effects _ _).0 valid_es;
        room = λ id. ground (arith, room id);
        rule_amounts = amounts.0;
        effect_amounts = amounts.1;
      }

  compiles :
      (m : PolicyManifest)
      → IsCompilable m
      → returns (compile_policy_manifest hash_policy_manifest m) ≡ true
  unfolding compile_policy_manifest
  compiles m c =
      let rs =
        (validate_resources_iff m.resources [] _).1
          (c.resources, c.resources_distinct, Fresh-nil m.resources, refl) in
      let rus =
        (validate_rules_iff m.rules [] _).1
          (c.rules, c.rules_distinct, Fresh-nil (rule_ids_of m.rules), refl) in
      let es =
        validate_effects_complete m.effects _ _ [] ((effects_seen m.effects _ _).1 c.effects)
          (λ id. ground (arith, c.room id)) in
      rw (c.target, c.key, c.some_rule, rs, rus, es)
        ((emit_calls-returns m).1 (c.rule_amounts, c.effect_amounts))

  -- The manifests that compile are those that meet the conditions, in whatever order these are
  -- checked: identifiers well formed and distinct, at least one rule, every effect of a known rule
  -- and of a fitting resource, at most four effects for a rule, and amounts left out or decimal.
  pub compile_policy_manifest_iff :
      (m : PolicyManifest)
      → (returns (compile_policy_manifest hash_policy_manifest m) ≡ true) ↔ IsCompilable m
  compile_policy_manifest_iff m = (accepted m, compiles m)
