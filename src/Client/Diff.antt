-- ===== src/Client/Diff.antt =====
-- `extractKernelRuleEffectModel` and `diffCanonicalApm` of packages/protocol-sdk/src/client.ts.
use reclose.Prelude.{
  ℕ, ℤ, String, Bool, true, false, not, ◌&&◌, ◌||◌, Option, none, some, List, [], ◌∷◌, ◌++◌, map,
  if◌then◌else◌, nat_eq, string_eq, keep, any, includes, decimal, lower_case, Dict, lookup, insert,
  gtb, is_empty,
}
use reclose.Json.{join}

-- A judge's version and a bounty are `Number` and `BigInt` of what the policy holds; a version is
-- given by its text.
pub record KernelRuleIdentity : Type 0 where
  pub rule_id : String
  pub judge : String
  pub judge_version : String
  pub rule_kind : ℕ
  pub provisional_allowed : Bool
  pub report_bond : String
  pub confirmed_bounty : ℤ
  pub enabled : Bool

-- The ordinal of an unknown action is -1: it is given by its text.
pub record KernelEffectTuple : Type 0 where
  pub rule_id : String
  pub action_type : String
  pub resource_id : String
  pub param_u256 : String
  pub param_str : String
  pub release_phase : ℕ
  pub enabled : Bool

pub record RuleEffectModel : Type 0 where
  pub rules : List KernelRuleIdentity
  pub effects : List KernelEffectTuple
  pub human_override : Bool

abbrev pub bool_text : Bool → String
bool_text true = "true"
bool_text false = "false"

unfoldable pub rule_identity_key : KernelRuleIdentity → String
unfolding join lower_case
rule_identity_key r = join "|" (
    r.rule_id
    ∷ lower_case r.judge
    ∷ r.judge_version
    ∷ decimal r.rule_kind
    ∷ bool_text r.provisional_allowed
    ∷ r.report_bond
    ∷ [])

unfoldable pub effect_tuple_key : KernelEffectTuple → String
unfolding join
effect_tuple_key e = join "|" (
    e.rule_id
    ∷ e.action_type
    ∷ e.resource_id
    ∷ e.param_u256
    ∷ e.param_str
    ∷ decimal e.release_phase
    ∷ [])

pub data ChangeKind : Type 0 where
  action_added bound_widened action_removed human_override_changed : ChangeKind

-- A change, with the rule or effect that its description is about.
pub record PolicySecurityDiffChange : Type 0 where
  pub kind : ChangeKind
  pub about : String
  pub is_expansion : Bool

abbrev pub change : ChangeKind → String → Bool → PolicySecurityDiffChange
change kind about is_expansion = record { kind = kind; about = about; is_expansion = is_expansion }

-- `new Map(rules.map((r) => [ruleIdentityKey(r), value(r)]))`, from a map on
unfoldable pub rule_map :
    {V : Type 0} → (KernelRuleIdentity → V) → List KernelRuleIdentity → Dict V → Dict V
unfolding rule_identity_key insert
rule_map value [] m = m
rule_map value (r ∷ rs) m = rule_map value rs (insert (rule_identity_key r) (value r) m)

-- The change of one rule of the new policy, by the bounty that its identity has in the old one.
unfoldable pub bounty_change : KernelRuleIdentity → Option ℤ → List PolicySecurityDiffChange
bounty_change rule none = change action_added rule.rule_id true ∷ []
bounty_change rule (some bounty) =
    if gtb rule.confirmed_bounty bounty then change bound_widened rule.rule_id true ∷ [] else []

unfoldable pub rule_change : Dict ℤ → KernelRuleIdentity → List PolicySecurityDiffChange
unfolding lookup rule_identity_key bounty_change
rule_change old_rules rule = bounty_change rule (lookup (rule_identity_key rule) old_rules)

unfoldable pub rule_changes : Dict ℤ → List KernelRuleIdentity → List PolicySecurityDiffChange
unfolding rule_change
rule_changes old_rules [] = []
rule_changes old_rules (rule ∷ rules) = rule_change old_rules rule ++ rule_changes old_rules rules

-- The rules of the old policy whose identity is gone.
unfoldable pub removed_rules : List String → Dict KernelRuleIdentity → List PolicySecurityDiffChange
removed_rules new_keys [] = []
removed_rules new_keys ((key, rule) ∷ rules) =
    let rest = removed_rules new_keys rules in
    if includes key new_keys then rest else change action_removed rule.rule_id false ∷ rest

unfoldable pub added_effects : List String → List KernelEffectTuple → List PolicySecurityDiffChange
unfolding effect_tuple_key
added_effects old_keys [] = []
added_effects old_keys (e ∷ es) =
    let rest = added_effects old_keys es in
    if includes (effect_tuple_key e) old_keys
    then rest
    else change action_added e.rule_id true ∷ rest

unfoldable pub removed_effects :
    List String → List KernelEffectTuple → List PolicySecurityDiffChange
unfolding effect_tuple_key
removed_effects new_keys [] = []
removed_effects new_keys (e ∷ es) =
    let rest = removed_effects new_keys es in
    if includes (effect_tuple_key e) new_keys
    then rest
    else change action_removed e.rule_id false ∷ rest

unfoldable pub override_changes : Bool → Bool → List PolicySecurityDiffChange
override_changes false true = change human_override_changed "human override" true ∷ []
override_changes true false = change human_override_changed "human override" false ∷ []
override_changes _ _ = []

abbrev pub enabled_rules : RuleEffectModel → List KernelRuleIdentity
enabled_rules m = keep (λ r. r.enabled) m.rules

abbrev pub enabled_effects : RuleEffectModel → List KernelEffectTuple
enabled_effects m = keep (λ e. e.enabled) m.effects

unfoldable pub diff_changes : RuleEffectModel → RuleEffectModel → List PolicySecurityDiffChange
unfolding rule_map rule_changes removed_rules added_effects removed_effects override_changes
    rule_identity_key effect_tuple_key
diff_changes from to =
    rule_changes (rule_map (λ r. r.confirmed_bounty) (enabled_rules from) []) (enabled_rules to)
    ++ (removed_rules (map rule_identity_key (enabled_rules to))
          (rule_map (λ r. r) (enabled_rules from) [])
        ++ (added_effects (map effect_tuple_key (enabled_effects from)) (enabled_effects to)
            ++ (removed_effects (map effect_tuple_key (enabled_effects to)) (enabled_effects from)
                ++ override_changes from.human_override to.human_override)))

-- `authorityExpands`
unfoldable pub authority_expands : RuleEffectModel → RuleEffectModel → Bool
unfolding diff_changes
authority_expands from to =
    (is_empty (enabled_rules from)
      && is_empty (enabled_effects from)
      && not (is_empty (enabled_rules to) && is_empty (enabled_effects to)))
    || any (λ c. c.is_expansion) (diff_changes from to)
