-- ===== src/Client/Reads.antt =====
-- The reads of `DirectRecloseClient` (packages/protocol-sdk/src/client.ts): targets, policies,
-- incidents and decisions.
use reclose.Prelude.{
  ℕ, zero, suc, ◌+◌, String, not, ◌&&◌, Option, none, some, List, [], ◌∷◌, ◌++◌, or_else,
  if◌then◌else◌, ◌==◌, nat_eq, string_eq,
}
use reclose.Async.{pure, reject, lift, or_reject}
use reclose.Json.{Value, text, number}
use reclose.Policy.Manifest.{
  ActionType, action_eq, monitor, restrict, throttle, revoke_capability, reroute, enter_safe_mode,
  pause,
}
use reclose.Client.{◌>>=◌, Client, RecloseTransport, RecloseAddresses, kernel}
use reclose.Client.Values.{
  Cell, tuple, num, str, view_num, view_str, iso, by_ordinal, truthy, string_of, at,
  no_active_policy, unknown_rule_kind,
}
use reclose.Client.Records.{
  provisional, Target, PolicyRule, PolicyEffect, PolicyDetail, PolicyLifecycle, rule_kinds,
  assurance_states, action_types, release_phases,
}

-- `for (let i = first; i < first + count; i++) out.push(await f(i))`
abbrev pub each_index : {A : Type 0} → (count first : ℕ) → (ℕ → Client A) → Client (List A)
each_index zero i f = pure []
each_index (suc n) i f = do x ← f i; xs ← each_index n (i + 1) f; pure (x ∷ xs)

-- The results that were pushed.
abbrev pub pushed : {A : Type 0} → List (Option A) → List A
pushed [] = []
pushed (none ∷ xs) = pushed xs
pushed (some x ∷ xs) = x ∷ pushed xs

abbrev pub flatten : {A : Type 0} → List (List A) → List A
flatten [] = []
flatten (xs ∷ xss) = xs ++ flatten xss

abbrev pub restriction_action_types : List ActionType
restriction_action_types =
    monitor ∷ restrict ∷ throttle ∷ revoke_capability ∷ reroute ∷ enter_safe_mode ∷ pause ∷ []

module _ (t : RecloseTransport) (addresses : RecloseAddresses) where
  -- `tuple(await this.kernel(...))`, `num(...)` and `str(...)`
  abbrev pub kernel_tuple : String → List Value → Client (List Cell)
  kernel_tuple function_name args = do
    view ← kernel t addresses function_name args
    lift (tuple view)

  abbrev pub kernel_num : String → List Value → Client ℕ
  kernel_num function_name args = do
    view ← kernel t addresses function_name args
    lift (view_num view)

  abbrev pub kernel_str : String → List Value → Client String
  kernel_str function_name args = do
    view ← kernel t addresses function_name args
    lift (view_str view)

  unfoldable pub get_target : String → Client Target
  unfolding kernel tuple str by_ordinal iso num truthy
  get_target target_id = do
    cells ← kernel_tuple "get_target_details" (text target_id ∷ [])
    target_address ← lift (str (at cells 0))
    cached_owner ← lift (str (at cells 1))
    assurance_state ← lift (by_ordinal assurance_states (at cells 2) "assurance state")
    active_policy_key ← lift (str (at cells 3))
    registered_at ← lift (iso (at cells 4))
    policy_generation ← lift (num (at cells 5))
    pure (record {
      target_id = target_id;
      target_address = target_address;
      cached_owner = cached_owner;
      assurance_state = assurance_state;
      active_policy_key = active_policy_key;
      registered_at = registered_at;
      policy_generation = policy_generation;
      authority_revoked = truthy (at cells 6);
      human_override_enabled = truthy (at cells 7);
    })

  unfoldable pub get_policy_lifecycle : String → Client PolicyLifecycle
  unfolding kernel tuple str num truthy
  get_policy_lifecycle policy_key = do
    cells ← kernel_tuple "get_policy_lifecycle" (text policy_key ∷ [])
    target_id ← lift (str (at cells 0))
    version ← lift (num (at cells 1))
    manifest_hash ← lift (str (at cells 2))
    created_at ← lift (num (at cells 3))
    sealed_at ← lift (num (at cells 4))
    activation_not_before ← lift (num (at cells 5))
    activated_at ← lift (num (at cells 6))
    pure (record {
      target_id = target_id;
      version = version;
      manifest_hash = manifest_hash;
      created_at = created_at;
      sealed_at = sealed_at;
      activation_not_before = activation_not_before;
      activated_at = activated_at;
      sealed = truthy (at cells 7);
      active = truthy (at cells 8);
      superseded = truthy (at cells 9);
    })

  -- An iteration of the loop over the rules of a policy.
  unfoldable pub read_rule : String → ℕ → Client PolicyRule
  unfolding kernel tuple str view_str num truthy rule_kinds string_of
  read_rule policy_key i = do
    rule_id ← kernel_str "get_policy_rule_id_at" (text policy_key ∷ number i ∷ [])
    cells ← kernel_tuple "get_policy_rule" (text policy_key ∷ text rule_id ∷ [])
    economics ← kernel_tuple "get_policy_rule_economics" (text policy_key ∷ text rule_id ∷ [])
    ordinal ← lift (num (at cells 2))
    rule_kind ← or_reject (unknown_rule_kind rule_id) (rule_kinds ordinal)
    judge ← lift (str (at cells 0))
    judge_version ← lift (num (at cells 1))
    pure (record {
      rule_id = rule_id;
      judge = judge;
      judge_version = judge_version;
      rule_kind = rule_kind;
      provisional_allowed = truthy (at cells 3);
      report_bond = string_of (at economics 0);
      confirmed_bounty = string_of (at economics 1);
      enabled = truthy (at cells 4);
    })

  -- An iteration of the loop over the effects.
  unfoldable pub read_effect : String → ℕ → Client PolicyEffect
  unfolding kernel tuple str num by_ordinal truthy release_phases string_of
  read_effect policy_key i = do
    cells ← kernel_tuple "get_policy_effect_at" (text policy_key ∷ number i ∷ [])
    rule_id ← lift (str (at cells 0))
    action_type ← lift (by_ordinal action_types (at cells 1) "action type")
    resource_id ← lift (str (at cells 2))
    param_str ← lift (str (at cells 4))
    phase ← lift (num (at cells 5))
    pure (record {
      rule_id = rule_id;
      action_type = action_type;
      resource_id = resource_id;
      param_u256 = string_of (at cells 3);
      param_str = param_str;
      release_phase = or_else (release_phases phase) provisional;
      enabled = truthy (at cells 6);
    })

  unfoldable pub get_policy_by_key : String → String → Client PolicyDetail
  unfolding kernel tuple num str truthy read_rule read_effect
  get_policy_by_key policy_key target_id = do
    header ← kernel_tuple "get_policy_header" (text policy_key ∷ [])
    counts ← kernel_tuple "get_policy_counts" (text policy_key ∷ [])
    rule_count ← lift (num (at counts 0))
    resource_count ← lift (num (at counts 1))
    effect_count ← lift (num (at counts 2))
    rules ← each_index rule_count 0 (read_rule policy_key)
    effects ← each_index effect_count 0 (read_effect policy_key)
    version ← lift (num (at header 0))
    manifest_hash ← lift (str (at header 1))
    pure (record {
      summary = record {
        policy_key = policy_key;
        target_id = target_id;
        version = version;
        manifest_hash = manifest_hash;
        sealed = truthy (at header 2);
        active = truthy (at header 3);
        superseded = truthy (at header 2) && not (truthy (at header 3));
        rule_count = rule_count;
        resource_count = resource_count;
        effect_count = effect_count;
        human_override_enabled = truthy (at header 4);
      };
      rules = rules;
      effects = effects;
    })

  unfoldable pub get_active_policy : String → Client PolicyDetail
  unfolding get_target get_policy_by_key
  get_active_policy target_id = do
    target ← get_target target_id
    if target.active_policy_key == ""
        then reject (no_active_policy target_id)
        else get_policy_by_key target.active_policy_key target_id
