-- ===== src/Client/Drafts.antt =====
-- The signable drafts of packages/protocol-sdk/src/client.ts: the fee preview and the review hash.
use reclose.Prelude.{
  ℕ, ℤ, String, Option, none, some, List, map, Result, or_else, decimal, if◌then◌else◌, ◌==◌,
  string_eq, ok_or, big_int,
}
use reclose.Async.{pure, lift, or_reject}
use reclose.Json.{
  Value, null, number, bigint, text, array, object, Items, item, no_items, Fields, field, no_fields,
  to_items, canonical_keccak256,
}
use reclose.Client.{
  ◌>>=◌, ◌>>◌, Client, RecloseTransport, RecloseAddresses, FeeEstimate, canonical_chain_id,
  ensure_network, send, ask_estimate,
}
use reclose.Client.Values.{
  ClientError, no_fee_estimation, not_canonical, not_an_integer, with_error,
}

-- `toJsonSafe`
unfoldable mutual
  pub to_json_safe : Value → Value
  to_json_safe (bigint n) = text (decimal n)
  to_json_safe (array vs) = array (safe_items vs)
  to_json_safe (object fs) = object (safe_fields fs)
  to_json_safe v = v

  pub safe_items : Items → Items
  safe_items no_items = no_items
  safe_items (item v vs) = item (to_json_safe v) (safe_items vs)

  pub safe_fields : Fields → Fields
  safe_fields no_fields = no_fields
  safe_fields (field key v fs) = field key (to_json_safe v) (safe_fields fs)

-- Without the fields that are constant.
pub record FeeTransactionPreview : Type 0 where
  pub estimated_fee_value_wei : String
  pub full_fee_detail : Value
  pub fee_config_hash : String
  pub bond_wei : Option String

pub data PreparedWriteSemanticKind : Type 0 where
  incident_report remediation_report recovery_validation_report : PreparedWriteSemanticKind
  target_registration policy_activation authority_revocation : PreparedWriteSemanticKind
  disable_action_write disable_resource_write : PreparedWriteSemanticKind

unfoldable pub kind_text : PreparedWriteSemanticKind → String
kind_text incident_report = "INCIDENT_REPORT"
kind_text remediation_report = "REMEDIATION_REPORT"
kind_text recovery_validation_report = "RECOVERY_VALIDATION_REPORT"
kind_text target_registration = "TARGET_REGISTRATION"
kind_text policy_activation = "POLICY_ACTIVATION"
kind_text authority_revocation = "AUTHORITY_REVOCATION"
kind_text disable_action_write = "DISABLE_ACTION"
kind_text disable_resource_write = "DISABLE_RESOURCE"

-- What is hashed of a draft, without the schema version and the chain id, which are constant.
pub record Draft : Type 0 where
  pub contract_address : String
  pub function_name : String
  pub args : List Value
  pub value_wei : String
  pub semantic_kind : PreparedWriteSemanticKind
  pub expected_signer : Option String

pub record PredictedIncidentIdentity : Type 0 where
  pub incident_id : String
  pub target_id : String
  pub reporter_address : String
  pub reporter_nonce : ℕ

pub record PreparedRecloseWrite : Type 0 where
  pub draft : Draft
  pub fee_estimate : FeeTransactionPreview
  pub review_hash : String
  pub predicted_incident_id : Option PredictedIncidentIdentity

abbrev pub text_or_null : Option String → Value
text_or_null none = null
text_or_null (some s) = text s

abbrev pub draft_value : Draft → Value
draft_value d = object (
    field "schemaVersion" (text "1.0.0") (
      field "chainId" (number canonical_chain_id) (
        field "contractAddress" (text d.contract_address) (
          field "functionName" (text d.function_name) (
            field "args" (array (to_items d.args)) (
              field "valueWei" (text d.value_wei) (
                field "semanticKind" (text (kind_text d.semantic_kind))
                  (field "expectedSigner" (text_or_null d.expected_signer) no_fields))))))))

unfoldable pub compute_review_hash : Draft → Result ClientError String
unfolding canonical_keccak256 kind_text
compute_review_hash d = with_error not_canonical (canonical_keccak256 (draft_value d))

-- The report that is returned: the draft with its hash.
unfoldable pub prepare :
    Draft → FeeTransactionPreview → Option PredictedIncidentIdentity → Client PreparedRecloseWrite
unfolding compute_review_hash
prepare draft fee_estimate predicted = do
  review_hash ← lift (compute_review_hash draft)
  pure (record {
    draft = draft;
    fee_estimate = fee_estimate;
    review_hash = review_hash;
    predicted_incident_id = predicted;
  })

abbrev pub allocations_value : Option (List Value) → Value
allocations_value none = null
allocations_value (some nodes) = array (to_items (map to_json_safe nodes))

unfoldable pub fee_detail : FeeEstimate → Value
unfolding to_json_safe
fee_detail estimate = object (
    field "distribution" (to_json_safe (or_else estimate.distribution null)) (
      field "messageAllocations" (allocations_value estimate.message_allocations)
        (field "feeValue" (text (decimal (or_else estimate.fee_value 0))) no_fields)))

-- `BigInt(s || "0")`
unfoldable pub wei : String → Result ClientError ℤ
unfolding big_int
wei s = ok_or (not_an_integer s) (big_int (if s == "" then "0" else s))

module _ (t : RecloseTransport) (addresses : RecloseAddresses) where
  unfoldable pub fee_preview : String → List Value → String → ℤ → Client FeeTransactionPreview
  unfolding ensure_network send fee_detail canonical_keccak256
  fee_preview function_name args contract_address value = do
    ensure_network t addresses
    estimator ← or_reject no_fee_estimation t.estimate_transaction_fees_for_write
    estimate ←
        send (ask_estimate contract_address function_name args value)
          λ n. estimator n contract_address function_name args value
    hash ← lift (with_error not_canonical (canonical_keccak256 (fee_detail estimate)))
    pure (record {
      estimated_fee_value_wei = decimal (or_else estimate.fee_value 0);
      full_fee_detail = fee_detail estimate;
      fee_config_hash = hash;
      bond_wei = none;
    })
