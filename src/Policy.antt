-- ===== src/Policy.antt =====
-- packages/policy-compiler/src/compile.ts: a policy manifest becomes the ordered write calls of the
-- AssuranceKernel. The manifest's hash is a parameter: any function of the manifest.
pub mod Manifest
pub mod Validity
pub mod Compile
pub mod Receiver
pub mod Replay
mod Tests
use reclose.Prelude.{
  ℕ, ◌+◌, ◌^◌, String, Bool, true, false, not, ◌&&◌, ◌||◌, Option, none, some, List, [], ◌∷◌, ◌++◌,
  map, Result, ok, throw, throw_if, ◌>>=◌, ◌>>◌, or_else, map_result, ◌==◌, string_eq, nat_eq,
  index_eq, includes, ltb, leb, if◌then◌else◌, Dict, lookup, insert, every_char, is_alphanumeric,
  is_empty, is_digit, is_hex_digit, utf16_length, code, Eq,
}
use Prim.Native.String
use reclose.Policy.Manifest.{
  ActionType, action_eq, no_action, alert, monitor, restrict, throttle, revoke_capability, reroute,
  enter_safe_mode, pause, enter_recovery, restore, RuleKind, incident, remediation,
  recovery_validation, ReleasePhase, remediation_confirmed, recovery_validated, PolicyRuleManifest,
  PolicyEffectManifest, PolicyManifest, KernelFunction, begin_policy, add_policy_resource,
  add_policy_rule, add_policy_effect, seal_policy, Arg, text, number, boolean, CompiledKernelCall,
  CompiledPolicy,
}

pub data PolicyCompileError : Type 0 where
  invalid_target_id invalid_policy_key invalid_resource_id duplicate_resource_id :
      String → PolicyCompileError
  invalid_rule_id duplicate_rule_id invalid_judge invalid_judge_version :
      String → PolicyCompileError
  unknown_rule_id missing_resource undeclared_resource unexpected_resource too_many_effects :
      String → PolicyCompileError
  no_rules : PolicyCompileError
  invalid_u256 : String → PolicyCompileError

unfoldable pub action_type_ordinal : ActionType → ℕ
action_type_ordinal no_action = 0
action_type_ordinal alert = 1
action_type_ordinal monitor = 2
action_type_ordinal restrict = 3
action_type_ordinal throttle = 4
action_type_ordinal revoke_capability = 5
action_type_ordinal reroute = 6
action_type_ordinal enter_safe_mode = 7
action_type_ordinal pause = 8
action_type_ordinal enter_recovery = 9
action_type_ordinal restore = 10

abbrev pub resource_scoped_actions : List ActionType
resource_scoped_actions = restrict ∷ throttle ∷ revoke_capability ∷ reroute ∷ []

abbrev pub target_wide_actions : List ActionType
target_wide_actions = monitor ∷ enter_safe_mode ∷ pause ∷ enter_recovery ∷ restore ∷ []

unfoldable pub release_phase_ordinal : ReleasePhase → ℕ
release_phase_ordinal remediation_confirmed = 1
release_phase_ordinal recovery_validated = 2

abbrev pub max_effects_per_decision : ℕ
max_effects_per_decision = 4

-- `VALID_IDENTIFIER_EXTRA`
abbrev pub is_identifier_extra : ℕ → Bool
is_identifier_extra c = c == b'_' || c == b'.' || c == b':' || c == b'-'

-- `isValidIdentifier` with `allowEmpty` left at false, as every call leaves it.
unfoldable pub is_valid_identifier : String → ℕ → Bool
unfolding every_char utf16_length
is_valid_identifier value max_len =
    if value == ""
    then false
    else if ltb max_len (utf16_length value)
    then false
    else every_char (λ c. is_alphanumeric c || is_identifier_extra c) value

-- `/^0x[0-9a-fA-F]{40}$/`
unfoldable pub is_valid_address : String → Bool
unfolding every_char utf16_length
is_valid_address (String.◌∷◌ a (String.◌∷◌ b s)) =
    code a == b'0' && code b == b'x' && every_char is_hex_digit s && utf16_length s == 40
is_valid_address _ = false

-- `String(value)` is the text given; `/^[0-9]+$/`
unfoldable pub to_u256_string : Option String → Result PolicyCompileError String
unfolding every_char
to_u256_string none = ok "0"
to_u256_string (some s) =
    if not (s == "") && every_char is_digit s then ok s else throw (invalid_u256 s)

-- `Number.isSafeInteger(v) && v > 0`
abbrev pub is_judge_version : ℕ → Bool
is_judge_version v = ltb 0 v && ltb v (2 ^ 53)

-- `validateRule`; `seenRuleIds` comes back with the rule added.
unfoldable pub validate_rule :
    PolicyRuleManifest → List String → Result PolicyCompileError (List String)
unfolding is_valid_identifier is_valid_address
validate_rule rule seen = do
  throw_if (not (is_valid_identifier rule.rule_id 64)) (invalid_rule_id rule.rule_id)
  throw_if (includes rule.rule_id seen) (duplicate_rule_id rule.rule_id)
  throw_if (not (is_valid_address rule.judge)) (invalid_judge rule.rule_id)
  throw_if (not (is_judge_version rule.judge_version)) (invalid_judge_version rule.rule_id)
  ok (rule.rule_id ∷ seen)

unfoldable pub validate_rules :
    List PolicyRuleManifest → List String → Result PolicyCompileError (List String)
unfolding validate_rule
validate_rules [] seen = ok seen
validate_rules (rule ∷ rules) seen = do seen' ← validate_rule rule seen; validate_rules rules seen'

unfoldable pub validate_resources :
    List String → List String → Result PolicyCompileError (List String)
unfolding is_valid_identifier
validate_resources [] seen = ok seen
validate_resources (id ∷ ids) seen = do
  throw_if (not (is_valid_identifier id 64)) (invalid_resource_id id)
  throw_if (includes id seen) (duplicate_resource_id id)
  validate_resources ids (id ∷ seen)

-- The part of `validateEffect` about `resourceId`.
unfoldable pub check_scope :
    PolicyEffectManifest → List String → Result PolicyCompileError (Unit {0})
check_scope effect resource_ids =
    if includes effect.action_type resource_scoped_actions
    then (do
      throw_if (effect.resource_id == "") (missing_resource effect.rule_id)
      throw_if (not (includes effect.resource_id resource_ids))
          (undeclared_resource effect.rule_id))
    else throw_if
        (includes effect.action_type target_wide_actions && not (effect.resource_id == ""))
        (unexpected_resource effect.rule_id)

-- `validateEffect`; `effectCountByRule` comes back with the effect counted.
unfoldable pub validate_effect :
    PolicyEffectManifest
    → (rule_ids resource_ids : List String) → Dict ℕ
    → Result PolicyCompileError (Dict ℕ)
unfolding check_scope lookup insert
validate_effect effect rule_ids resource_ids counts = do
  throw_if (not (includes effect.rule_id rule_ids)) (unknown_rule_id effect.rule_id)
  check_scope effect resource_ids
  let count = or_else (lookup effect.rule_id counts) 0 + 1
  throw_if (ltb max_effects_per_decision count) (too_many_effects effect.rule_id)
  ok (insert effect.rule_id count counts)

unfoldable pub validate_effects :
    List PolicyEffectManifest
    → (rule_ids resource_ids : List String) → Dict ℕ
    → Result PolicyCompileError (Dict ℕ)
unfolding validate_effect
validate_effects [] rule_ids resource_ids counts = ok counts
validate_effects (effect ∷ effects) rule_ids resource_ids counts = do
  counts' ← validate_effect effect rule_ids resource_ids counts
  validate_effects effects rule_ids resource_ids counts'

unfoldable pub rule_kind_ordinal : RuleKind → ℕ
rule_kind_ordinal incident = 1
rule_kind_ordinal remediation = 2
rule_kind_ordinal recovery_validation = 3

abbrev pub resource_call : String → String → CompiledKernelCall
resource_call policy_key resource_id = record {
  function_name = add_policy_resource;
  args = text policy_key ∷ text resource_id ∷ [];
}

unfoldable pub rule_call :
    String → PolicyRuleManifest → Result PolicyCompileError CompiledKernelCall
unfolding to_u256_string rule_kind_ordinal
rule_call policy_key rule = do
  bond ← to_u256_string rule.report_bond
  bounty ← to_u256_string rule.confirmed_bounty
  ok (record {
    function_name = add_policy_rule;
    args =
        text policy_key
        ∷ text rule.rule_id
        ∷ text rule.judge
        ∷ number rule.judge_version
        ∷ number (rule_kind_ordinal rule.rule_kind)
        ∷ boolean rule.provisional_allowed
        ∷ text bond
        ∷ text bounty
        ∷ [];
  })

unfoldable pub effect_call :
    String → PolicyEffectManifest → Result PolicyCompileError CompiledKernelCall
unfolding to_u256_string action_type_ordinal release_phase_ordinal
effect_call policy_key effect = do
  param ← to_u256_string effect.param_u256
  ok (record {
    function_name = add_policy_effect;
    args =
        text policy_key
        ∷ text effect.rule_id
        ∷ number (action_type_ordinal effect.action_type)
        ∷ text effect.resource_id
        ∷ text param
        ∷ text (or_else effect.param_str "")
        ∷ number (release_phase_ordinal effect.release_phase)
        ∷ [];
  })

module _ (hash_policy_manifest : PolicyManifest → String) where
  abbrev pub begin_call : PolicyManifest → CompiledKernelCall
  begin_call m = record {
    function_name = begin_policy;
    args = text m.target_id ∷ text m.policy_key ∷ text (hash_policy_manifest m) ∷ [];
  }

  abbrev pub seal_call : PolicyManifest → CompiledKernelCall
  seal_call m = record { function_name = seal_policy; args = text m.policy_key ∷ [] }

  -- The calls, once the manifest is valid.
  unfoldable pub emit_calls : PolicyManifest → Result PolicyCompileError CompiledPolicy
  unfolding rule_call effect_call
  emit_calls m = do
    rule_calls ← map_result (rule_call m.policy_key) m.rules
    effect_calls ← map_result (effect_call m.policy_key) m.effects
    ok (record {
      manifest_hash = hash_policy_manifest m;
      calls =
          begin_call m
          ∷ (map (resource_call m.policy_key) m.resources
              ++ (rule_calls ++ (effect_calls ++ seal_call m ∷ [])));
    })

  unfoldable pub compile_policy_manifest : PolicyManifest → Result PolicyCompileError CompiledPolicy
  unfolding is_valid_identifier validate_resources validate_rules validate_effects emit_calls
  compile_policy_manifest m = do
    throw_if (not (is_valid_identifier m.target_id 96)) (invalid_target_id m.target_id)
    throw_if (not (is_valid_identifier m.policy_key 96)) (invalid_policy_key m.policy_key)
    throw_if (is_empty m.rules) no_rules
    resource_ids ← validate_resources m.resources []
    rule_ids ← validate_rules m.rules []
    counts ← validate_effects m.effects rule_ids resource_ids []
    emit_calls m
