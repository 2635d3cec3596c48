-- ===== src/Policy/Replay.antt =====
-- What the calls that packages/policy-compiler/src/compile.ts emits convey: reading them in order,
-- as their receiver does, gives back the policy.
use reclose.Prelude.{
  is_empty, String, true, Option, none, some, List, [], ◌∷◌, ◌++◌, map, ◌≡◌, refl, sym, ap, ◌∙◌,
  Result, ok, map_result, bind-eq-ok, ok_injective, or_else, arith, throw_if, string_eq, eq_iff,
  not,
}
use mathlib.Core.List.{append_assoc, append-nil}
use reclose.Policy.Manifest.{
  PolicyRuleManifest, PolicyEffectManifest, PolicyManifest, add_policy_rule, add_policy_effect,
  text, number, boolean, CompiledKernelCall, CompiledPolicy,
}
use reclose.Policy.{
  action_type_ordinal, release_phase_ordinal, rule_kind_ordinal, to_u256_string, resource_call,
  rule_call, effect_call, begin_call, seal_call, emit_calls, compile_policy_manifest,
  is_valid_identifier, validate_resources, validate_rules, validate_effects,
}
use reclose.Policy.Receiver.{
  Draft, action_of_ordinal-action_type_ordinal, phase_of_ordinal-release_phase_ordinal,
  kind_of_ordinal-rule_kind_ordinal, draft, receive_all, replay,
}

-- An amount or a parameter that is left out is sent as 0, or as the empty text.
abbrev pub fill_rule : PolicyRuleManifest → PolicyRuleManifest
fill_rule r = record r {
  report_bond = some (or_else (r.report_bond) "0");
  confirmed_bounty = some (or_else (r.confirmed_bounty) "0");
}

abbrev pub fill_effect : PolicyEffectManifest → PolicyEffectManifest
fill_effect e = record e {
  param_u256 = some (or_else (e.param_u256) "0");
  param_str = some (or_else (e.param_str) "");
}

-- The call that adds a rule, or an effect.
abbrev rule_message : String → PolicyRuleManifest → CompiledKernelCall
rule_message key r = record {
  function_name = add_policy_rule;
  args =
      text key
      ∷ text (r.rule_id)
      ∷ text (r.judge)
      ∷ number (r.judge_version)
      ∷ number (rule_kind_ordinal (r.rule_kind))
      ∷ boolean (r.provisional_allowed)
      ∷ text (or_else (r.report_bond) "0")
      ∷ text (or_else (r.confirmed_bounty) "0")
      ∷ [];
}

abbrev effect_message : String → PolicyEffectManifest → CompiledKernelCall
effect_message key e = record {
  function_name = add_policy_effect;
  args =
      text key
      ∷ text (e.rule_id)
      ∷ number (action_type_ordinal (e.action_type))
      ∷ text (e.resource_id)
      ∷ text (or_else (e.param_u256) "0")
      ∷ text (or_else (e.param_str) "")
      ∷ number (release_phase_ordinal (e.release_phase))
      ∷ [];
}

to_u256_string_ok : (o : Option String) (s : String) → to_u256_string o ≡ ok s → s ≡ or_else o "0"
unfolding to_u256_string
to_u256_string_ok none s h = ground arith
to_u256_string_ok (some t) s h = ground arith

rule_call_ok :
    (key : String) (r : PolicyRuleManifest) (c : CompiledKernelCall)
    → rule_call key r ≡ ok c
    → rule_message key r ≡ c
unfolding rule_call
rule_call_ok key r c h =
    let (bond, got_bond, h) = bind-eq-ok (to_u256_string (r.report_bond)) _ h in
    let (bounty, got_bounty, h) = bind-eq-ok (to_u256_string (r.confirmed_bounty)) _ h in
    rw
      (
        sym (to_u256_string_ok (r.report_bond) bond got_bond),
        sym (to_u256_string_ok (r.confirmed_bounty) bounty got_bounty),
      )
      (ok_injective h)

effect_call_ok :
    (key : String) (e : PolicyEffectManifest) (c : CompiledKernelCall)
    → effect_call key e ≡ ok c
    → effect_message key e ≡ c
unfolding effect_call
effect_call_ok key e c h =
    let (param, got, h) = bind-eq-ok (to_u256_string (e.param_u256)) _ h in
    rw (sym (to_u256_string_ok (e.param_u256) param got)) (ok_injective h)

map_result_ok :
    {E A B : Type 0} (f : A → Result E B) (g : A → B)
    → ((a : A) (b : B) → f a ≡ ok b → g a ≡ b)
    → (xs : List A) (ys : List B) → map_result f xs ≡ ok ys
    → map g xs ≡ ys
map_result_ok f g h [] ys got = ok_injective got
map_result_ok f g h (x ∷ xs) ys got =
    let (y, first, got) = bind-eq-ok (f x) _ got in
    let (rest, others, got) = bind-eq-ok (map_result f xs) _ got in
    rw (h x y first, map_result_ok f g h xs rest others) (ok_injective got)

module _ (target key hash : String) where
  receive_resources :
      (ids rs : List String) (rest : List CompiledKernelCall)
      → receive_all (draft target key hash rs [] []) (map (resource_call key) ids ++ rest)
        ≡ receive_all (draft target key hash (rs ++ ids) [] []) rest
  receive_resources [] rs rest = rw (append-nil rs) refl
  receive_resources (id ∷ ids) rs rest = rw ((eq_iff key key).1 refl) (
      receive_resources ids (rs ++ id ∷ []) rest
      ∙ ap (λ l. receive_all (draft target key hash l [] []) rest) (append_assoc rs (id ∷ []) ids))

  receive_rules :
      (rules : List PolicyRuleManifest) (rs : List String) (rus : List PolicyRuleManifest)
      (rest : List CompiledKernelCall)
      → receive_all (draft target key hash rs rus []) (map (rule_message key) rules ++ rest)
        ≡ receive_all (draft target key hash rs (rus ++ map fill_rule rules) []) rest
  receive_rules [] rs rus rest = rw (append-nil rus) refl
  receive_rules (r ∷ rules) rs rus rest =
      rw ((eq_iff key key).1 refl, kind_of_ordinal-rule_kind_ordinal (r.rule_kind))
        (receive_rules rules rs (rus ++ fill_rule r ∷ []) rest
          ∙ ap (λ l. receive_all (draft target key hash rs l []) rest)
              (append_assoc rus (fill_rule r ∷ []) (map fill_rule rules)))

  receive_effects :
      (effects : List PolicyEffectManifest) (rs : List String) (rus : List PolicyRuleManifest)
      (es : List PolicyEffectManifest) (rest : List CompiledKernelCall)
      → receive_all (draft target key hash rs rus es) (map (effect_message key) effects ++ rest)
        ≡ receive_all (draft target key hash rs rus (es ++ map fill_effect effects)) rest
  receive_effects [] rs rus es rest = rw (append-nil es) refl
  receive_effects (e ∷ effects) rs rus es rest =
      rw
        (
          (eq_iff key key).1 refl,
          action_of_ordinal-action_type_ordinal (e.action_type),
          phase_of_ordinal-release_phase_ordinal (e.release_phase),
        )
        (receive_effects effects rs rus (es ++ fill_effect e ∷ []) rest
          ∙ ap (λ l. receive_all (draft target key hash rs rus l) rest)
              (append_assoc es (fill_effect e ∷ []) (map fill_effect effects)))

module _ (hash_policy_manifest : PolicyManifest → String) where
  -- The calls of a policy, in order.
  messages : PolicyManifest → List CompiledKernelCall
  messages m =
      begin_call hash_policy_manifest m
      ∷ (map (resource_call (m.policy_key)) (m.resources)
          ++ (map (rule_message (m.policy_key)) (m.rules)
              ++ (map (effect_message (m.policy_key)) (m.effects)
                  ++ seal_call hash_policy_manifest m ∷ [])))

  emit_calls_ok :
      (m : PolicyManifest) (c : CompiledPolicy)
      → emit_calls hash_policy_manifest m ≡ ok c
      → record { manifest_hash = hash_policy_manifest m; calls = messages m } ≡ c
  unfolding emit_calls messages
  emit_calls_ok m c h =
      let (rule_calls, got_rules, h) =
        bind-eq-ok (map_result (rule_call (m.policy_key)) (m.rules)) _ h in
      let (effect_calls, got_effects, h) =
        bind-eq-ok (map_result (effect_call (m.policy_key)) (m.effects)) _ h in
      rw
        (
          map_result_ok _ _ (rule_call_ok (m.policy_key)) (m.rules) rule_calls got_rules,
          map_result_ok _ _ (effect_call_ok (m.policy_key)) (m.effects) effect_calls got_effects,
        )
        (ok_injective h)

  abbrev pub conveyed : PolicyManifest → Draft
  conveyed m = record {
    hash = hash_policy_manifest m;
    manifest = record m { rules = map fill_rule (m.rules); effects = map fill_effect (m.effects) };
    is_sealed = true;
  }

  replay-messages : (m : PolicyManifest) → replay (messages m) ≡ some (conveyed m)
  unfolding messages
  replay-messages m =
      receive_resources _ _ _ (m.resources) [] _
      ∙ (receive_rules _ _ _ (m.rules) (m.resources) [] _
          ∙ (receive_effects _ _ _ (m.effects) (m.resources) _ [] _
              ∙ rw ((eq_iff (m.policy_key) (m.policy_key)).1 refl) refl))

  emitted :
      (m : PolicyManifest) (c : CompiledPolicy)
      → compile_policy_manifest hash_policy_manifest m ≡ ok c
      → emit_calls hash_policy_manifest m ≡ ok c
  unfolding compile_policy_manifest
  emitted m c h =
      let (_, _, h) = bind-eq-ok (throw_if (not (is_valid_identifier (m.target_id) 96)) _) _ h in
      let (_, _, h) = bind-eq-ok (throw_if (not (is_valid_identifier (m.policy_key) 96)) _) _ h in
      let (_, _, h) = bind-eq-ok (throw_if (is_empty (m.rules)) _) _ h in
      let (rs, _, h) = bind-eq-ok (validate_resources (m.resources) []) _ h in
      let (rus, _, h) = bind-eq-ok (validate_rules (m.rules) []) _ h in
      (bind-eq-ok (validate_effects (m.effects) rus rs []) _ h).2

  -- A receiver that takes the emitted calls in order, each for the policy it has begun and with
  -- the ordinals read back, ends with a sealed policy: the manifest's hash, its resources, rules
  -- and effects in their order, amounts that were left out read as 0 and texts as empty.
  pub compile_policy_manifest-replay :
      (m : PolicyManifest) (c : CompiledPolicy)
      → compile_policy_manifest hash_policy_manifest m ≡ ok c
      → replay (c.calls) ≡ some (conveyed m)
  compile_policy_manifest-replay m c h =
      rw (sym (emit_calls_ok m c (emitted m c h))) (replay-messages m)
