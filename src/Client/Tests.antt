-- ===== src/Client/Tests.antt =====
-- Concrete inputs of the client of packages/protocol-sdk/src/client.ts.
use reclose.Client.DecisionIds.{decision_identity_lem}
use reclose.Client.Incidents.{decision_identity}
use reclose.Client.Records.{provisional_stage, final_stage}
use reclose.Prelude.{
  ℕ, pos, String, true, false, Option, none, some, [], ◌∷◌, ◌≡◌, ◌↔◌, refl, ok, throw,
  if◌then◌else◌, ◌==◌, string_eq, utf16_length, decimal,
}
use reclose.Policy.Manifest.{incident}
use reclose.Client.{◌>>=◌, RecloseTransport, RecloseAddresses, ask_chain_id}
use reclose.Client.Values.{View, cell, tuple_of, integer, text, boolean}
use reclose.Client.Records.{PolicyRule}
use reclose.Client.Reports.{Runtime, require_verified_bond}
use reclose.Client.Identity.{BondInput, compute_action_id, derive_bond_id}
use reclose.Client.Drafts.{wei}
use reclose.Client.Status.{
  get_effective_provider_status, get_provider_availability_tri_state, unavailable, restricted_by,
}
use reclose.Client.Diff.{RuleEffectModel, KernelRuleIdentity, authority_expands}
use reclose.Client.Bonds.{derive_bond_id_bounds, require_verified_bond_iff}
use reclose.Client.ActionIds.{compute_action_id_injective}
use reclose.Client.Provider.{tri_state_of, get_provider_availability_tri_state_lem}
use reclose.Client.Network.{IsSound}
use reclose.Client.Network.Calls.{target, tracked, run_all, new_session, run_all-IsSound}

abbrev addresses : RecloseAddresses
addresses = record { kernel = "0xk"; judge = "0xj"; vault = none }

abbrev target_details : View
target_details = tuple_of (
    text "0xt"
    ∷ text "0xo"
    ∷ integer 2
    ∷ text "p1"
    ∷ integer 100
    ∷ integer 1
    ∷ boolean false
    ∷ boolean false
    ∷ [])

-- One restriction is active on each resource.
abbrev transport : RecloseTransport
transport = record {
  get_chain_id = λ n. ok 61997;
  get_block_number = λ n. ok 7;
  read_contract = λ n address name args.
      if name == "get_target_details" then ok target_details else ok (cell (integer 1));
  get_transaction = λ n id. throw "unavailable";
  get_triggered_transaction_ids = λ n id. ok [];
  estimate_transaction_fees_for_write = none;
  resolve_action_transaction = none;
}

abbrev other_chain : RecloseTransport
other_chain = record transport { get_chain_id = λ n. ok 61999 }

abbrev runtime : Runtime
runtime = record {
  parse_url = λ s. none;
  encodes = λ s. true;
  is_date = λ s. true;
  now = λ n. "2026-01-01T00:00:00.000Z";
}

abbrev Same : String → String → Type 0
Same a b = a ≡ b

compute_action_id_injective_example :
    Same "i" "i" × Same "p" "p" × ◌≡◌ {A = ℕ} 3 3 × Same "r" "r" × Same "0" "0" × Same "" ""
compute_action_id_injective_example =
    compute_action_id_injective "i" "p" 3 "r" "0" "" "i" "p" 3 "r" "0" "" refl

-- The parts of these keys are `1` and `:` against `1:`: their concatenations would be the same.
keys_apart : compute_action_id "1" ":" 0 "" "" "" ≡ "1:11::1:00:0:0:"
unfolding compute_action_id
keys_apart = refl

get_provider_availability_tri_state_lem_example :
    get_provider_availability_tri_state transport addresses "t" "res" new_session ≡ (
      tri_state_of "res"
          (get_effective_provider_status transport addresses "t" "res" new_session).0,
      (get_effective_provider_status transport addresses "t" "res" new_session).1,
    )
get_provider_availability_tri_state_lem_example =
    get_provider_availability_tri_state_lem transport addresses "t" "res" new_session

restricted_provider :
    (get_provider_availability_tri_state transport addresses "t" "res" new_session).0
    ≡ ok (record {
      resource_id = "res";
      status = unavailable;
      reason = some (restricted_by 1 "res");
    })
unfolding get_provider_availability_tri_state ◌>>=◌
restricted_provider = refl

wrong_chain :
    (run_all other_chain addresses runtime
      (λ s. s)
      (target "t" ∷ tracked "x" ∷ [])
      new_session).requests
    ≡ ask_chain_id ∷ ask_chain_id ∷ []
unfolding run_all ◌>>=◌
wrong_chain = refl

run_all-IsSound_example :
    IsSound transport
      (run_all transport addresses runtime (λ s. s) (target "t" ∷ tracked "x" ∷ []) new_session)
run_all-IsSound_example =
    run_all-IsSound transport addresses runtime (λ s. s) (target "t" ∷ tracked "x" ∷ [])

abbrev bond : BondInput
bond = record {
  target_id = "t";
  policy_key = "p";
  rule_id = "R";
  reporter_address = "0xAB";
  reporter_nonce = 4;
  predicted_incident_id = "t:0xab:4";
}

derive_bond_id_bounds_example :
    (id : String) × (derive_bond_id bond ≡ ok id) × (utf16_length id ≡ 71)
derive_bond_id_bounds_example = derive_bond_id_bounds bond

abbrev rule : PolicyRule
rule = record {
  rule_id = "R";
  judge = "0xj";
  judge_version = 1;
  rule_kind = incident;
  provisional_allowed = false;
  report_bond = "5";
  confirmed_bounty = "9";
  enabled = true;
}

price : wei rule.report_bond ≡ ok (pos 5)
unfolding wei
price = refl

require_verified_bond_iff_example :
    (require_verified_bond (some rule) bond (some "bond:0x0") ≡ ok "bond:0x0") ↔ (
      ◌≡◌ {A = Option String} (some "bond:0x0") (some "bond:0x0")
      × (derive_bond_id bond ≡ ok "bond:0x0"))
require_verified_bond_iff_example =
    require_verified_bond_iff rule bond (some "bond:0x0") (pos 5) "bond:0x0" price refl

abbrev identity : ℕ → KernelRuleIdentity
identity bounty = record {
  rule_id = "R";
  judge = "0xJ";
  judge_version = "1";
  rule_kind = 1;
  provisional_allowed = false;
  report_bond = "5";
  confirmed_bounty = pos bounty;
  enabled = true;
}

abbrev old_model : RuleEffectModel
old_model = record { rules = identity 9 ∷ []; effects = []; human_override = false }

abbrev new_model : RuleEffectModel
new_model = record { rules = identity 10 ∷ []; effects = []; human_override = false }

widened : authority_expands old_model new_model ≡ true
unfolding authority_expands decimal
widened = refl

same_policy : authority_expands new_model new_model ≡ false
unfolding authority_expands decimal
same_policy = refl

-- A first policy without rules and effects that switches the human override on is called an
-- expansion.
override_only :
    authority_expands
      (record { rules = []; effects = []; human_override = false })
      (record { rules = []; effects = []; human_override = true })
    ≡ true
unfolding authority_expands
override_only = refl

decision_identity_lem_example :
    (decision_identity "t:0xabc:0:PROVISIONAL" ≡ ("t:0xabc:0", provisional_stage))
    × (decision_identity "t:0xabc:0:FINAL" ≡ ("t:0xabc:0", final_stage))
decision_identity_lem_example = decision_identity_lem "t:0xabc:0"
