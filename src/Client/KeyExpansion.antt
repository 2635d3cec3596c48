-- ===== src/Client/KeyExpansion.antt =====
-- `authorityExpands` of `diffCanonicalApm` (packages/protocol-sdk/src/client.ts) by the keys of the
-- rules and effects.
use reclose.Prelude.{
  String, Bool, true, false, not, ◌&&◌, ◌||◌, Option, none, some, List, [], ◌∷◌, ◌++◌, map, ◌≡◌,
  refl, ap, ◌∙◌, first_some, if◌then◌else◌, ◌==◌, string_eq, any, includes, arith, Dict, lookup,
  insert, lookup-insert, ℤ, is_empty,
}
use reclose.Client.Diff.{
  KernelRuleIdentity, KernelEffectTuple, RuleEffectModel, rule_identity_key, effect_tuple_key,
  PolicySecurityDiffChange, rule_map, bounty_change, rule_change, rule_changes, removed_rules,
  added_effects, removed_effects, override_changes, enabled_rules, enabled_effects, diff_changes,
  authority_expands,
}
use reclose.Client.Kernel.{exceeds}

-- The bounty of the last rule with an identity.
abbrev pub last_bounty : String → List KernelRuleIdentity → Option ℤ
last_bounty key [] = none
last_bounty key (r ∷ rs) =
    first_some (last_bounty key rs)
      (if rule_identity_key r == key then some r.confirmed_bounty else none)

-- An expansion by the keys: a rule of an unseen key or with an increased bounty, an unseen effect, or
-- a human override that is switched on.
abbrev pub classify_by_keys : RuleEffectModel → RuleEffectModel → Bool
classify_by_keys old new =
    any (λ r. exceeds (last_bounty (rule_identity_key r) (enabled_rules old)) r.confirmed_bounty)
      (enabled_rules new)
    || (any (λ e. not (includes (effect_tuple_key e) (map effect_tuple_key (enabled_effects old))))
          (enabled_effects new)
        || (new.human_override && not old.human_override))

abbrev expands : PolicySecurityDiffChange → Bool
expands c = c.is_expansion

pub first_some_if :
    (o p : Option ℤ) (b : Bool) (v : ℤ)
    → first_some o (if b then some v else p)
      ≡ first_some (first_some o (if b then some v else none)) p
first_some_if none p true v = refl
first_some_if none p false v = refl
first_some_if (some a) p b v = refl

lookup-rule_map :
    (key : String) (rs : List KernelRuleIdentity) (m : Dict ℤ)
    → lookup key (rule_map (λ r. r.confirmed_bounty) rs m)
      ≡ first_some (last_bounty key rs) (lookup key m)
unfolding rule_map
lookup-rule_map key [] m = refl
lookup-rule_map key (r ∷ rs) m =
    lookup-rule_map key rs (insert (rule_identity_key r) r.confirmed_bounty m)
    ∙ (ap (first_some (last_bounty key rs))
          (lookup-insert key (rule_identity_key r) r.confirmed_bounty m)
        ∙ first_some_if (last_bounty key rs) (lookup key m) (rule_identity_key r == key)
            r.confirmed_bounty)

pub first_some-none : (o : Option ℤ) → first_some o none ≡ o
first_some-none none = refl
first_some-none (some a) = refl

any-append :
    (xs ys : List PolicySecurityDiffChange)
    → any expands (xs ++ ys) ≡ (any expands xs || any expands ys)
any-append [] ys = refl
any-append (x ∷ xs) ys = ground (arith, any-append xs ys)

any-bounty_change :
    (r : KernelRuleIdentity) (o : Option ℤ)
    → any expands (bounty_change r o) ≡ exceeds o r.confirmed_bounty
unfolding bounty_change
any-bounty_change r none = refl
any-bounty_change r (some b) = ground arith

any-rule_change :
    (m : Dict ℤ) (r : KernelRuleIdentity)
    → any expands (rule_change m r) ≡ exceeds (lookup (rule_identity_key r) m) r.confirmed_bounty
unfolding rule_change
any-rule_change m r = any-bounty_change r (lookup (rule_identity_key r) m)

any-rule_changes :
    (old rs : List KernelRuleIdentity)
    → any expands (rule_changes (rule_map (λ r. r.confirmed_bounty) old []) rs)
      ≡ any (λ r. exceeds (last_bounty (rule_identity_key r) old) r.confirmed_bounty) rs
unfolding rule_changes lookup
any-rule_changes old [] = refl
any-rule_changes old (r ∷ rs) =
    let m = rule_map (λ r. r.confirmed_bounty) old [] in
    let found : lookup (rule_identity_key r) m ≡ last_bounty (rule_identity_key r) old =
      lookup-rule_map (rule_identity_key r) old [] ∙ first_some-none _ in
    any-append (rule_change m r) (rule_changes m rs)
    ∙ rw (any-rule_change m r, found, any-rule_changes old rs) refl

any-removed_rules :
    (ks : List String) (m : Dict KernelRuleIdentity) → any expands (removed_rules ks m) ≡ false
unfolding removed_rules
any-removed_rules ks [] = refl
any-removed_rules ks ((key, r) ∷ m) = ground (arith, any-removed_rules ks m)

any-removed_effects :
    (ks : List String) (es : List KernelEffectTuple) → any expands (removed_effects ks es) ≡ false
unfolding removed_effects
any-removed_effects ks [] = refl
any-removed_effects ks (e ∷ es) = ground (arith, any-removed_effects ks es)

any-added_effects :
    (ks : List String) (es : List KernelEffectTuple)
    → any expands (added_effects ks es) ≡ any (λ e. not (includes (effect_tuple_key e) ks)) es
unfolding added_effects
any-added_effects ks [] = refl
any-added_effects ks (e ∷ es) = ground (arith, any-added_effects ks es)

any-override_changes : (old new : Bool) → any expands (override_changes old new) ≡ (new && not old)
unfolding override_changes
any-override_changes false false = refl
any-override_changes false true = refl
any-override_changes true false = refl
any-override_changes true true = refl

any-diff_changes :
    (old new : RuleEffectModel) → any expands (diff_changes old new) ≡ classify_by_keys old new
unfolding diff_changes
any-diff_changes old new =
    let ks = map rule_identity_key (enabled_rules new) in
    let removed = rule_map (λ r. r) (enabled_rules old) [] in
    let old_keys = map effect_tuple_key (enabled_effects old) in
    let new_keys = map effect_tuple_key (enabled_effects new) in
    rw
      (
        any-append
            (rule_changes (rule_map (λ r. r.confirmed_bounty) (enabled_rules old) [])
              (enabled_rules new))
            _,
        any-rule_changes (enabled_rules old) (enabled_rules new),
        any-append (removed_rules ks removed) _,
        any-removed_rules ks removed,
        any-append (added_effects old_keys (enabled_effects new)) _,
        any-added_effects old_keys (enabled_effects new),
        any-append (removed_effects new_keys (enabled_effects old)) _,
        any-removed_effects new_keys (enabled_effects old),
        any-override_changes old.human_override new.human_override,
      )
      refl

-- Over an empty baseline, whatever is new is unseen.
empty_baseline :
    (old_rules new_rules : List KernelRuleIdentity)
    (old_effects new_effects : List KernelEffectTuple) (h : Bool)
    → (let classified =
          any
            (λ r. exceeds (last_bounty (rule_identity_key r) old_rules) r.confirmed_bounty)
            new_rules
          || (any
                (λ e. not (includes (effect_tuple_key e) (map effect_tuple_key old_effects)))
                new_effects
              || h) in
        ((is_empty old_rules
            && is_empty old_effects
            && not (is_empty new_rules && is_empty new_effects))
          || classified)
        ≡ classified)
empty_baseline [] [] [] [] h = refl
empty_baseline [] [] [] (e ∷ es) h = refl
empty_baseline [] (r ∷ rs) [] es h = refl
empty_baseline [] rs (x ∷ xs) es h = refl
empty_baseline (x ∷ xs) rs xs' es h = refl

-- A policy diff reports an expansion of authority by the keys.
pub authority_expands-classify_by_keys :
    (old new : RuleEffectModel) → authority_expands old new ≡ classify_by_keys old new
unfolding authority_expands
authority_expands-classify_by_keys old new = rw (any-diff_changes old new) (
    empty_baseline (enabled_rules old) (enabled_rules new) (enabled_effects old)
      (enabled_effects new) _)
