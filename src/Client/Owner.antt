-- ===== src/Client/Owner.antt =====
-- The owner's and the author's writes of packages/protocol-sdk/src/client.ts: registration, authority
-- reduction and the prepared writes of a compiled policy.
use reclose.Prelude.{
  ℕ, pos, String, Bool, true, not, Option, none, some, List, [], ◌∷◌, or_else, Result, ok, throw,
  if◌then◌else◌, ◌==◌, string_eq, lower_case,
}
use reclose.Async.{pure, reject, lift, catch}
use reclose.Json.{Value, text, number, boolean}
use reclose.Policy.{is_valid_address, is_valid_identifier}
use reclose.Client.{
  ◌>>=◌, ◌>>◌, Client, RecloseTransport, RecloseAddresses, ensure_network, read_at,
}
use reclose.Client.Values.{
  ClientError, view_str, truthy, View, cell, tuple_of, invalid_address, invalid_target_id,
  handshake_controller, handshake_target_id, handshake_owner, handshake_revoked,
}
use reclose.Client.Reads.{get_target}
use reclose.Client.Drafts.{
  PreparedRecloseWrite, PreparedWriteSemanticKind, target_registration, authority_revocation,
  disable_action_write, disable_resource_write, prepare, fee_preview, wei,
}

-- `Boolean(view)`: a tuple is an object.
abbrev view_truthy : View → Bool
view_truthy (cell c) = truthy c
view_truthy (tuple_of cells) = true

pub record Registration : Type 0 where
  pub target_id : String
  pub target_address : String
  pub human_override_enabled : Bool
  pub expected_owner : Option String

-- What the target answers in the handshake.
pub record Handshake : Type 0 where
  pub owner : String
  pub controller : String
  pub target_id : String
  pub revoked : Bool

-- The owner agrees, or none is expected.
abbrev owner_agrees : Option String → String → Bool
owner_agrees none owner = true
owner_agrees (some expected) owner =
    if expected == "" then true else lower_case owner == lower_case expected

unfoldable pub check_handshake : String → Registration → Handshake → Result ClientError (Unit {0})
unfolding lower_case
check_handshake kernel_address input h =
    if not (lower_case h.controller == lower_case kernel_address)
    then throw (handshake_controller h.controller)
    else if not (h.target_id == input.target_id)
    then throw (handshake_target_id h.target_id)
    else if h.revoked
    then throw handshake_revoked
    else if not (owner_agrees input.expected_owner h.owner)
    then throw (handshake_owner h.owner)
    else ok tt

module _ (t : RecloseTransport) (addresses : RecloseAddresses) where
  unfoldable pub read_handshake : String → Client Handshake
  unfolding read_at view_str truthy
  read_handshake target_address = do
    owner_view ← read_at t addresses target_address "get_assurance_owner" []
    owner ← lift (view_str owner_view)
    controller_view ← read_at t addresses target_address "get_assurance_controller" []
    controller ← lift (view_str controller_view)
    id_view ← read_at t addresses target_address "get_assurance_target_id" []
    target_id ← lift (view_str id_view)
    revoked ← read_at t addresses target_address "is_assurance_authority_revoked" []
    pure (record {
      owner = owner;
      controller = controller;
      target_id = target_id;
      revoked = view_truthy revoked;
    })

  unfoldable pub build_target_registration : Registration → Client PreparedRecloseWrite
  unfolding is_valid_address is_valid_identifier ensure_network read_handshake check_handshake
      fee_preview prepare
  build_target_registration input = do
    (if is_valid_address input.target_address then pure tt else reject invalid_address)
    (if is_valid_identifier input.target_id 96 then pure tt else reject invalid_target_id)
    ensure_network t addresses
    handshake ← read_handshake input.target_address
    lift (check_handshake addresses.kernel input handshake)
    let args =
        text input.target_id ∷ text input.target_address ∷ boolean input.human_override_enabled ∷ []
    fee ← fee_preview t addresses "register_target" args addresses.kernel (pos 0)
    prepare
        (record {
          contract_address = addresses.kernel;
          function_name = "register_target";
          args = args;
          value_wei = "0";
          semantic_kind = target_registration;
          expected_signer = some (or_else input.expected_owner handshake.owner);
        })
        fee none

  -- A write of the Kernel that the target's owner signs.
  unfoldable pub build_owner_write :
      (function_name : String)
      → PreparedWriteSemanticKind
      → String
      → List Value
      → Client PreparedRecloseWrite
  unfolding fee_preview get_target prepare
  build_owner_write function_name kind target_id args = do
    fee ← fee_preview t addresses function_name args addresses.kernel (pos 0)
    target ← get_target t addresses target_id
    prepare
        (record {
          contract_address = addresses.kernel;
          function_name = function_name;
          args = args;
          value_wei = "0";
          semantic_kind = kind;
          expected_signer = some target.cached_owner;
        })
        fee none

  unfoldable pub build_revoke_authority : String → Client PreparedRecloseWrite
  unfolding build_owner_write
  build_revoke_authority target_id =
      build_owner_write "revoke_authority" authority_revocation target_id (text target_id ∷ [])

  unfoldable pub build_disable_action : String → ℕ → Client PreparedRecloseWrite
  unfolding build_owner_write
  build_disable_action target_id action_type =
      build_owner_write "disable_action" disable_action_write target_id
        (text target_id ∷ number action_type ∷ [])

  unfoldable pub build_disable_resource :
      (target_id resource_id : String) → Client PreparedRecloseWrite
  unfolding build_owner_write
  build_disable_resource target_id resource_id =
      build_owner_write "disable_resource" disable_resource_write target_id
        (text target_id ∷ text resource_id ∷ [])

  -- The target's owner as it is now, `none` where it cannot be read.
  unfoldable pub live_owner : Option String → Client (Option String)
  unfolding get_target
  live_owner none = pure none
  live_owner (some target_id) =
      if target_id == ""
      then pure none
      else catch (do target ← get_target t addresses target_id; pure (some target.cached_owner))
          (λ e. pure none)

  unfoldable pub build_prepared_write_for_call :
      (function_name : String)
      → List Value
      → (contract_address : Option String) → PreparedWriteSemanticKind
      → (value_wei target_id : Option String) → Client PreparedRecloseWrite
  unfolding wei fee_preview live_owner prepare
  build_prepared_write_for_call function_name args contract_address kind value_wei target_id = do
    value ← lift (wei (or_else value_wei "0"))
    fee ←
        fee_preview t addresses function_name args (or_else contract_address addresses.kernel) value
    expected_signer ← live_owner target_id
    prepare
        (record {
          contract_address = or_else contract_address addresses.kernel;
          function_name = function_name;
          args = args;
          value_wei = or_else value_wei "0";
          semantic_kind = kind;
          expected_signer = expected_signer;
        })
        fee none
