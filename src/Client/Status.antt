-- ===== src/Client/Status.antt =====
-- What packages/protocol-sdk/src/client.ts makes of the restrictions on a target: its assurance state
-- (`getAssuranceState`) and the availability of its providers.
use reclose.Prelude.{
  ℕ, String, Bool, false, not, ◌&&◌, Option, none, some, List, [], ◌∷◌, map, map_result,
  if◌then◌else◌, ltb, ◌==◌, nat_eq, string_eq, get_elem?, keep, includes,
}
use reclose.Async.{pure, lift, catch}
use reclose.Json.{text, number}
use reclose.Policy.Manifest.{ActionType, action_eq}
use reclose.Client.{
  ◌>>=◌, Client, RecloseTransport, RecloseAddresses, send, ask_block_number, kernel,
}
use reclose.Client.Values.{
  Cell, ClientError, num, str, view_num, view_str, truthy, at, tuple, to_number,
}
use reclose.Client.Records.{Target, Restriction, AssuranceStateSummary, action_types}
use reclose.Client.Reads.{
  each_index, pushed, flatten, restriction_action_types, kernel_tuple, kernel_num, kernel_str,
  get_target, get_active_policy,
}

-- The action type of an active restriction, if it is one that restricts.
unfoldable pub restricting : ℕ → Option ActionType
restricting ordinal = elim (get_elem? action_types ordinal) [
  | none ↦ none
  | some a ↦ if includes a restriction_action_types then some a else none
]

unfoldable pub push_restriction :
    String → Option ActionType → List Cell → Client (Option Restriction)
unfolding str
push_restriction incident_id none cells = pure none
push_restriction incident_id (some a) cells = do
  resource_id ← lift (str (at cells 3))
  pure (some (record { incident_id = incident_id; action_type = a; resource_id = resource_id }))

-- What a restriction's tuple adds to the active restrictions.
unfoldable pub restriction_of : String → List Cell → Client (Option Restriction)
unfolding truthy num restricting push_restriction
restriction_of incident_id cells =
    if truthy (at cells 5)
    then (do
      ordinal ← lift (num (at cells 2))
      push_restriction incident_id (restricting ordinal) cells)
    else pure none

-- Why a provider is not available, or not known to be.
pub data Reason : Type 0 where
  authority_revoked : (target_id : String) → Reason
  restricted_by : (count : ℕ) → (resource_id : String) → Reason
  unreadable : ClientError → Reason

pub record ProviderStatus : Type 0 where
  pub resource_id : String
  pub available : Bool
  pub reason : Option Reason

pub data Availability : Type 0 where
  available unavailable unknown : Availability

pub record ProviderAvailability : Type 0 where
  pub resource_id : String
  pub status : Availability
  pub reason : Option Reason

module _ (t : RecloseTransport) (addresses : RecloseAddresses) where
  -- The restrictions of one incident of a target.
  unfoldable pub incident_restrictions : String → ℕ → Client (List Restriction)
  unfolding kernel tuple view_num view_str restriction_of
  incident_restrictions target_id i = do
    incident_id ← kernel_str t addresses "get_target_incident_at" (text target_id ∷ number i ∷ [])
    if incident_id == "" then pure [] else (do
      count ← kernel_num t addresses "get_incident_restriction_count" (text incident_id ∷ [])
      found ← each_index count 0 λ j. do
        cells ←
            kernel_tuple t addresses "get_incident_restriction_at"
              (text incident_id ∷ number j ∷ [])
        restriction_of incident_id cells
      pure (pushed found))

  -- The resources of the active policy that no active restriction names.
  unfoldable pub effective_capabilities_of : Target → List Restriction → Client (List String)
  unfolding get_active_policy kernel view_str
  effective_capabilities_of target restrictions =
      if target.active_policy_key == "" then pure [] else (do
        policy ← get_active_policy t addresses target.target_id
        resources ← each_index policy.summary.resource_count 0 λ i.
            kernel t addresses "get_policy_resource_at"
              (text target.active_policy_key ∷ number i ∷ [])
        named ← lift (map_result view_str resources)
        pure (
            keep (λ r. not (r == "") && not (includes r (map (λ x. x.resource_id) restrictions)))
              named))

  unfoldable pub get_assurance_state : String → Client AssuranceStateSummary
  unfolding get_target kernel view_num incident_restrictions effective_capabilities_of send
  get_assurance_state target_id = do
    target ← get_target t addresses target_id
    count ← kernel_num t addresses "get_target_incident_count" (text target_id ∷ [])
    restrictions ← each_index count 0 (incident_restrictions target_id)
    capabilities ← effective_capabilities_of target (flatten restrictions)
    block ← send ask_block_number t.get_block_number
    pure (record {
      target_id = target_id;
      state = target.assurance_state;
      active_restrictions = flatten restrictions;
      effective_capabilities = capabilities;
      as_of_block = to_number block;
    })

  -- The count of the active restrictions on a resource of a target.
  unfoldable pub restriction_count : Target → String → Client ℕ
  unfolding kernel view_num
  restriction_count target resource_id =
      kernel_num t addresses "get_resource_restriction_count"
        (text target.target_address ∷ text resource_id ∷ [])

  unfoldable pub get_effective_provider_status : String → String → Client ProviderStatus
  unfolding get_target restriction_count
  get_effective_provider_status target_id resource_id = do
    target ← get_target t addresses target_id
    if target.authority_revoked
        then pure (record {
          resource_id = resource_id;
          available = false;
          reason = some (authority_revoked target_id);
        })
        else (do
          count ← restriction_count target resource_id
          pure (record {
            resource_id = resource_id;
            available = count == 0;
            reason = if count == 0 then none else some (restricted_by count resource_id);
          }))

  -- The body of the `try`.
  unfoldable pub read_provider_availability : String → String → Client ProviderAvailability
  unfolding get_target restriction_count
  read_provider_availability target_id resource_id = do
    target ← get_target t addresses target_id
    if target.authority_revoked
        then pure (record {
          resource_id = resource_id;
          status = unknown;
          reason = some (authority_revoked target_id);
        })
        else (do
          count ← restriction_count target resource_id
          pure (
              if ltb 0 count
              then record {
                resource_id = resource_id;
                status = unavailable;
                reason = some (restricted_by count resource_id);
              }
              else record { resource_id = resource_id; status = available; reason = none }))

  unfoldable pub get_provider_availability_tri_state : String → String → Client ProviderAvailability
  unfolding read_provider_availability
  get_provider_availability_tri_state target_id resource_id =
      catch (read_provider_availability target_id resource_id) λ e.
        pure (record { resource_id = resource_id; status = unknown; reason = some (unreadable e) })
