-- ===== src/Policy/Tests.antt =====
-- A concrete policy of packages/policy-compiler/src/compile.ts: tests, and the theorems at it.
use reclose.Prelude.{String, true, none, some, [], ◌∷◌, ◌≡◌, refl, throw}
use reclose.Policy.Manifest.{
  restrict, incident, remediation_confirmed, PolicyRuleManifest, PolicyEffectManifest,
  PolicyManifest, CompiledPolicy, begin_policy, add_policy_resource, add_policy_rule,
  add_policy_effect, seal_policy, text, number, boolean,
}
use reclose.Policy.{
  compile_policy_manifest, undeclared_resource, too_many_effects, duplicate_rule_id,
}
use reclose.Policy.Compile.{returns, IsCompilable, compile_policy_manifest_iff}
use reclose.Policy.Receiver.{replay}
use reclose.Policy.Replay.{conveyed, compile_policy_manifest-replay}

abbrev judge : String
judge = "0x00112233445566778899aabbccddeeff00112233"

abbrev rule : String → PolicyRuleManifest
rule id = record {
  rule_id = id;
  judge = judge;
  judge_version = 1;
  rule_kind = incident;
  provisional_allowed = true;
  report_bond = some "10";
  confirmed_bounty = none;
}

abbrev effect : String → String → PolicyEffectManifest
effect id resource = record {
  rule_id = id;
  action_type = restrict;
  resource_id = resource;
  param_u256 = none;
  param_str = none;
  release_phase = remediation_confirmed;
}

abbrev policy : PolicyManifest
policy = record {
  target_id = "vault.1";
  policy_key = "vault:main";
  resources = "payouts" ∷ "mint" ∷ [];
  rules = rule "drain" ∷ rule "fix" ∷ [];
  effects = effect "drain" "payouts" ∷ effect "drain" "mint" ∷ effect "fix" "mint" ∷ [];
}

abbrev hash : PolicyManifest → String
hash m = m.policy_key

compiles : returns (compile_policy_manifest hash policy) ≡ true
unfolding compile_policy_manifest
compiles = refl

five_effects :
    compile_policy_manifest hash (record policy {
      effects =
          effect "fix" "mint"
          ∷ effect "fix" "mint"
          ∷ effect "fix" "mint"
          ∷ effect "fix" "mint"
          ∷ effect "fix" "mint"
          ∷ [];
    })
    ≡ throw (too_many_effects "fix")
unfolding compile_policy_manifest
five_effects = refl

undeclared :
    compile_policy_manifest hash (record policy { resources = [] })
    ≡ throw (undeclared_resource "drain")
unfolding compile_policy_manifest
undeclared = refl

twice :
    compile_policy_manifest hash (record policy { rules = rule "a" ∷ rule "a" ∷ [] })
    ≡ throw (duplicate_rule_id "a")
unfolding compile_policy_manifest
twice = refl

compile_policy_manifest_iff_example : IsCompilable policy
unfolding compile_policy_manifest
compile_policy_manifest_iff_example = (compile_policy_manifest_iff hash policy).0 refl

abbrev small : PolicyManifest
small = record policy {
  resources = "mint" ∷ [];
  rules = rule "fix" ∷ [];
  effects = effect "fix" "mint" ∷ [];
}

abbrev sent : CompiledPolicy
sent = record {
  manifest_hash = "vault:main";
  calls =
      record {
        function_name = begin_policy;
        args = text "vault.1" ∷ text "vault:main" ∷ text "vault:main" ∷ [];
      }
      ∷ record { function_name = add_policy_resource; args = text "vault:main" ∷ text "mint" ∷ [] }
      ∷ record {
        function_name = add_policy_rule;
        args =
            text "vault:main"
            ∷ text "fix"
            ∷ text judge
            ∷ number 1
            ∷ number 1
            ∷ boolean true
            ∷ text "10"
            ∷ text "0"
            ∷ [];
      }
      ∷ record {
        function_name = add_policy_effect;
        args =
            text "vault:main"
            ∷ text "fix"
            ∷ number 3
            ∷ text "mint"
            ∷ text "0"
            ∷ text ""
            ∷ number 1
            ∷ [];
      }
      ∷ record { function_name = seal_policy; args = text "vault:main" ∷ [] }
      ∷ [];
}

compile_policy_manifest-replay_example : replay sent.calls ≡ some (conveyed hash small)
unfolding compile_policy_manifest
compile_policy_manifest-replay_example = compile_policy_manifest-replay hash small sent refl
