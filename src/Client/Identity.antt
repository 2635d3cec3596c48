-- ===== src/Client/Identity.antt =====
-- The identities that packages/protocol-sdk/src/client.ts derives: action ids, incident ids and bond
-- ids.
use reclose.Prelude.{
  ℕ, String, List, [], ◌∷◌, Result, ok, ◌>>=◌, ◌>>◌, throw_if, ltb, decimal, utf16_length,
  lower_case,
}
use reclose.Json.{Value, text, number, object, field, no_fields, canonical_keccak256, ◌++◌}
use reclose.Client.Values.{ClientError, not_canonical, bond_id_too_long, with_error}

-- `ck`
unfoldable pub ck : List String → String
unfolding utf16_length decimal
ck [] = ""
ck (p ∷ ps) = decimal (utf16_length p) ++ String.◌∷◌ ":" (p ++ ck ps)

-- `computeActionId`, with `String(paramU256)` given.
unfoldable pub compute_action_id :
    (incident_id policy_key : String)
    → (action_type_ordinal : ℕ) → (resource_id param_u256 param_str : String) → String
unfolding ck
compute_action_id incident_id policy_key action_type_ordinal resource_id param_u256 param_str = ck (
    incident_id
    ∷ policy_key
    ∷ decimal action_type_ordinal
    ∷ resource_id
    ∷ param_u256
    ∷ param_str
    ∷ [])

unfoldable pub derive_incident_id : (target_id reporter_address : String) → ℕ → String
unfolding lower_case
derive_incident_id target_id reporter_address reporter_nonce =
    target_id ++ ":" ++ lower_case reporter_address ++ ":" ++ decimal reporter_nonce

-- What a bond is derived from.
pub record BondInput : Type 0 where
  pub target_id : String
  pub policy_key : String
  pub rule_id : String
  pub reporter_address : String
  pub reporter_nonce : ℕ
  pub predicted_incident_id : String

abbrev pub bond_preimage : BondInput → Value
bond_preimage input = object (
    field "targetId" (text input.target_id) (
      field "policyKey" (text input.policy_key) (
        field "ruleId" (text input.rule_id) (
          field "reporterAddress" (text (lower_case input.reporter_address)) (
            field "reporterNonce" (number input.reporter_nonce)
              (field "predictedIncidentId" (text input.predicted_incident_id) no_fields))))))

unfoldable pub derive_bond_id : BondInput → Result ClientError String
derive_bond_id input = do
  digest ← with_error not_canonical (canonical_keccak256 (bond_preimage input))
  throw_if (ltb 96 (utf16_length ("bond:" ++ digest))) bond_id_too_long
  ok ("bond:" ++ digest)
