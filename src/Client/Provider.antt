-- ===== src/Client/Provider.antt =====
-- `getProviderAvailabilityTriState` against `getEffectiveProviderStatus`
-- (packages/protocol-sdk/src/client.ts).
use reclose.Prelude.{
  ℕ, String, not, Option, none, some, ◌≡◌, refl, inl, inr, Result, ok, throw, ltb, nat_beq, nat_eq,
  arith, Bool-cases,
}
use reclose.Async.{run-cases}
use reclose.Client.{◌>>=◌, Session, RecloseTransport, RecloseAddresses}
use reclose.Client.Values.{ClientError}
use reclose.Client.Reads.{get_target}
use reclose.Client.Status.{
  ProviderStatus, ProviderAvailability, Availability, available, unavailable, unknown, Reason,
  authority_revoked, restricted_by, unreadable, restriction_count, get_effective_provider_status,
  get_provider_availability_tri_state, read_provider_availability,
}

abbrev pub tri_state_of :
    String → Result ClientError ProviderStatus → Result ClientError ProviderAvailability
tri_state_of resource_id (throw e) =
    ok (record { resource_id = resource_id; status = unknown; reason = some (unreadable e) })
tri_state_of resource_id (ok s) =
    ok (record { resource_id = resource_id; status = status_of s.reason; reason = s.reason })
  where
    status_of : Option Reason → Availability
    status_of none = available
    status_of (some (authority_revoked target_id)) = unknown
    status_of (some (restricted_by count resource)) = unavailable
    status_of (some (unreadable e)) = unknown

positive_test : (count : ℕ) → ltb 0 count ≡ not (nat_beq count 0)
positive_test count = ground arith

-- From the same session the three-valued availability sends the same requests as the two-valued
-- status and answers by its outcome: AVAILABLE where there is no reason against, UNAVAILABLE where
-- active restrictions are counted, UNKNOWN where the authority is revoked and where the read
-- rejects; it never rejects itself.
pub get_provider_availability_tri_state_lem :
    (t : RecloseTransport) (addresses : RecloseAddresses) (target_id resource_id : String)
    (s : Session)
    → get_provider_availability_tri_state t addresses target_id resource_id s ≡ (
      tri_state_of resource_id
          (get_effective_provider_status t addresses target_id resource_id s).0,
      (get_effective_provider_status t addresses target_id resource_id s).1,
    )
unfolding get_provider_availability_tri_state get_effective_provider_status
    read_provider_availability ◌>>=◌
get_provider_availability_tri_state_lem t addresses target_id resource_id s =
    elim (run-cases (get_target t addresses target_id s)) [
      | inr (e, s', p) ↦ rw p refl
      | inl (target, s', p) ↦ elim (Bool-cases target.authority_revoked) [
        | inl revoked ↦ rw (p, revoked) refl
        | inr live ↦ elim (run-cases (restriction_count t addresses target resource_id s')) [
          | inr (e, s'', q) ↦ rw (p, live, q) refl
          | inl (count, s'', q) ↦ elim (Bool-cases (nat_beq count 0)) [
            | inl none_active ↦ rw (p, live, q, positive_test count, none_active) refl
            | inr some_active ↦ rw (p, live, q, positive_test count, some_active) refl
          ]
        ]
      ]
    ]
