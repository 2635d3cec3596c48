-- ===== src/Client/Extract.antt =====
-- `extractKernelRuleEffectModel` of packages/protocol-sdk/src/client.ts: the rules and effects of a
-- policy that was read, or of a manifest. `number_of_text` is `String(Number(text))` of the runtime.
use reclose.Prelude.{
  ℕ, ℤ, String, Bool, true, false, not, ◌&&◌, ◌||◌, Option, none, some, List, [], ◌∷◌, ◌++◌, Result,
  ok, ◌>>=◌, ok_or, or_else, if◌then◌else◌, ◌==◌, nat_eq, string_eq, decimal, big_int, Dict, lookup,
  insert,
}
use reclose.Json.{
  Value, undefined, null, nan, infinity, opaque, boolean, number, bigint, real, text, array, object,
  Items, item, no_items, join,
}
use reclose.Client.Apm.{get_field}
use reclose.Client.Diff.{KernelRuleIdentity, KernelEffectTuple, RuleEffectModel}

abbrev pub is_undefined : Value → Bool
is_undefined undefined = true
is_undefined null = true
is_undefined _ = false

-- `a ?? b`
abbrev pub coalesce : Value → Value → Value
coalesce a b = if is_undefined a then b else a

-- `v.key`, and `v?.key`
unfoldable pub get : String → Value → Value
unfolding get_field
get key (object fs) = or_else (get_field key fs) undefined
get key _ = undefined

-- `Boolean(v)`
unfoldable pub is_true : Value → Bool
is_true undefined = false
is_true null = false
is_true nan = false
is_true (boolean b) = b
is_true (number n) = not (n == 0)
is_true (bigint n) = not (n == 0)
is_true (text s) = not (s == "")
is_true _ = true

-- `String(v)`
unfoldable mutual
  unfolding join

  pub text_of : Value → String
  text_of undefined = "undefined"
  text_of null = "null"
  text_of nan = "NaN"
  text_of (infinity negative) = if negative then "-Infinity" else "Infinity"
  text_of (boolean b) = if b then "true" else "false"
  text_of (number n) = decimal n
  text_of (bigint n) = decimal n
  text_of (real s) = s
  text_of (text s) = s
  text_of (opaque s) = s
  text_of (array vs) = join "," (item_strings vs)
  text_of (object fs) = "[object Object]"

  pub item_strings : Items → List String
  item_strings no_items = []
  item_strings (item v vs) = (if is_undefined v then "" else text_of v) ∷ item_strings vs

-- `Array.isArray(v) ? v : []`
abbrev pub elements : Value → List Value
elements (array vs) = values_of vs
  where
    values_of : Items → List Value
    values_of no_items = []
    values_of (item v vs) = v ∷ values_of vs
elements _ = []

abbrev pub is_array : Value → Bool
is_array (array vs) = true
is_array _ = false

abbrev pub text_value : Value → Option String
text_value (text s) = some s
text_value _ = none

abbrev both : {A B : Type 0} → Option A → Option B → Option (A × B)
both (some a) (some b) = some (a, b)
both _ _ = none

-- `RULE_KIND_ORDINALS[kind] ?? 0` and `RELEASE_PHASE_ORDINALS[phase] ?? 0`
abbrev pub rule_kind_ordinals : Dict ℕ
rule_kind_ordinals = ("INCIDENT", 1) ∷ ("REMEDIATION", 2) ∷ ("RECOVERY_VALIDATION", 3) ∷ []

abbrev pub release_phase_ordinals : Dict ℕ
release_phase_ordinals =
    ("REMEDIATION_CONFIRMED", 1) ∷ ("RECOVERY_VALIDATED", 2) ∷ ("PROVISIONAL", 3) ∷ []

-- `ACTION_TYPE_ORDINALS[action] ?? -1`, as a text
abbrev pub action_type_ordinals : Dict String
action_type_ordinals =
    ("NO_ACTION", "0")
    ∷ ("ALERT", "1")
    ∷ ("MONITOR", "2")
    ∷ ("RESTRICT", "3")
    ∷ ("THROTTLE", "4")
    ∷ ("REVOKE_CAPABILITY", "5")
    ∷ ("REROUTE", "6")
    ∷ ("ENTER_SAFE_MODE", "7")
    ∷ ("PAUSE", "8")
    ∷ ("ENTER_RECOVERY", "9")
    ∷ ("RESTORE", "10")
    ∷ []

-- `BigInt(String(value ?? "0") || "0")`; an error is the text that is no integer.
unfoldable pub bounty_of : Value → Result String ℤ
unfolding text_of big_int
bounty_of v =
    let s = text_of (coalesce v (text "0")) in ok_or s (big_int (if s == "" then "0" else s))

module _ (number_of_text : String → String) where
  -- `Number(value ?? 0)`, as a text
  unfoldable pub number_text : Value → String
  unfolding text_of
  number_text undefined = "0"
  number_text null = "0"
  number_text nan = "NaN"
  number_text (boolean b) = if b then "1" else "0"
  number_text v = number_of_text (text_of v)

  -- The rule with that id, whose judge is given.
  unfoldable pub rule_of :
      (rule_id judge : String) → Value → Value → (enabled : Bool) → Result String KernelRuleIdentity
  unfolding number_text text_of get is_true lookup bounty_of
  rule_of rule_id judge version r enabled = do
    bounty ← bounty_of (get "confirmedBounty" r)
    ok (record {
      rule_id = rule_id;
      judge = judge;
      judge_version = number_text version;
      rule_kind = or_else (lookup (text_of (get "ruleKind" r)) rule_kind_ordinals) 0;
      provisional_allowed = is_true (get "provisionalAllowed" r);
      report_bond = text_of (coalesce (get "reportBond" r) (text "0"));
      confirmed_bounty = bounty;
      enabled = enabled;
    })

  unfoldable pub effect_of :
      (rule_id action_type : String) → Value → (enabled : Bool) → KernelEffectTuple
  unfolding text_of get lookup
  effect_of rule_id action_type e enabled = record {
    rule_id = rule_id;
    action_type = or_else (lookup action_type action_type_ordinals) "-1";
    resource_id = text_of (coalesce (get "resourceId" e) (text ""));
    param_u256 = text_of (coalesce (get "paramU256" e) (text "0"));
    param_str = text_of (coalesce (get "paramStr" e) (text ""));
    release_phase = or_else (lookup (text_of (get "releasePhase" e)) release_phase_ordinals) 0;
    enabled = enabled;
  }

  -- `enabled !== false`
  abbrev is_enabled : Value → Bool
  is_enabled (boolean b) = b
  is_enabled _ = true

  -- The rules and the effects of a policy that was read.
  unfoldable pub read_rules : List Value → Result String (List KernelRuleIdentity)
  unfolding rule_of get
  read_rules [] = ok []
  read_rules (r ∷ rs) = elim (both (text_value (get "ruleId" r)) (text_value (get "judge" r))) [
    | some names ↦ do
      let (rule_id, judge) = names
      rule ← rule_of rule_id judge (get "judgeVersion" r) r (is_enabled (get "enabled" r))
      rules ← read_rules rs
      ok (rule ∷ rules)
    | none ↦ read_rules rs
  ]

  unfoldable pub read_effects : List Value → List KernelEffectTuple
  unfolding effect_of get
  read_effects [] = []
  read_effects (e ∷ es) =
      elim (both (text_value (get "ruleId" e)) (text_value (get "actionType" e))) [
        | some names ↦ effect_of names.0 names.1 e (is_enabled (get "enabled" e)) ∷ read_effects es
        | none ↦ read_effects es
      ]

  -- The judges of a manifest by their ids.
  unfoldable pub judges_by_id : List Value → Dict Value → Dict Value
  unfolding get insert
  judges_by_id [] m = m
  judges_by_id (j ∷ js) m = elim (text_value (coalesce (get "moduleId" j) (get "id" j))) [
    | some id ↦ judges_by_id js (insert id j m)
    | none ↦ judges_by_id js m
  ]

  unfoldable pub judge_of : Dict Value → Value → Value
  unfolding get lookup
  judge_of judges rule =
      elim (text_value (coalesce (get "judgeModuleId" rule) (get "judgeId" rule))) [
        | some id ↦ or_else (lookup id judges) undefined
        | none ↦ undefined
      ]

  unfoldable pub semantic_effects : String → List Value → List KernelEffectTuple
  unfolding effect_of get
  semantic_effects rule_id [] = []
  semantic_effects rule_id (e ∷ es) = elim (text_value (get "actionType" e)) [
    | some action_type ↦ effect_of rule_id action_type e true ∷ semantic_effects rule_id es
    | none ↦ semantic_effects rule_id es
  ]

  -- The rules of a manifest, and the effects in them.
  unfoldable pub semantic_rules :
      Dict Value → List Value → Result String (List KernelRuleIdentity × List KernelEffectTuple)
  unfolding judge_of rule_of semantic_effects text_of get
  semantic_rules judges [] = ok ([], [])
  semantic_rules judges (r ∷ rs) = elim (text_value (get "ruleId" r)) [
    | some rule_id ↦ do
      let judge = judge_of judges r
      rule ←
          rule_of rule_id (text_of (coalesce (get "address" judge) (text ""))) (get "version" judge)
            r true
      (rules, effects) ← semantic_rules judges rs
      ok (rule ∷ rules, semantic_effects rule_id (elements (get "effects" r)) ++ effects)
    | none ↦ semantic_rules judges rs
  ]

  abbrev is_exactly_true : Value → Bool
  is_exactly_true (boolean b) = b
  is_exactly_true _ = false

  -- A candidate that is no object has no field: all its lists are empty.
  unfoldable pub extract_kernel_rule_effect_model : Value → Result String RuleEffectModel
  unfolding read_rules read_effects judges_by_id semantic_rules get
  extract_kernel_rule_effect_model obj =
      let rules = get "rules" obj in
      let effects = get "effects" obj in
      let semantic = get "semanticRules" obj in
      if is_array rules && is_array effects && not (is_array semantic)
      then (do
        found ← read_rules (elements rules)
        ok (record {
          rules = found;
          effects = read_effects (elements effects);
          human_override = is_exactly_true (get "humanOverrideEnabled" (get "summary" obj));
        }))
      else (do
        (found, found_effects) ←
            semantic_rules (judges_by_id (elements (get "judgeModules" obj)) []) (elements semantic)
        ok (record {
          rules = found;
          effects = found_effects;
          human_override =
              is_exactly_true (get "humanOverride" obj)
              || is_exactly_true (get "enabled" (get "humanOverride" obj));
        }))
