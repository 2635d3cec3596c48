-- ===== src/Client/Activation.antt =====
-- The review and the write of a policy activation in packages/protocol-sdk/src/client.ts.
use reclose.Prelude.{
  is_empty, String, Bool, true, false, Option, none, some, List, [], ◌∷◌, if◌then◌else◌,
}
use reclose.Async.{pure, lift, catch}
use reclose.Json.{Value, text, object, no_fields}
use reclose.Client.{◌>>=◌, Client, RecloseTransport, RecloseAddresses}
use reclose.Client.Reads.{get_active_policy}
use reclose.Client.Apm.{ApmError, validate_canonical_apm_structure}
use reclose.Client.Manifests.{PolicySecurityDiff, detail_value, diff_canonical_apm, hash_apm}
use reclose.Client.Drafts.{PreparedRecloseWrite, policy_activation}
use reclose.Client.Owner.{build_prepared_write_for_call}

pub record ActivationReview : Type 0 where
  pub valid : Bool
  pub errors : List ApmError
  pub manifest_hash : Option String
  pub diff : Option PolicySecurityDiff

module _ (number_of_text : String → String) (t : RecloseTransport)
    (addresses : RecloseAddresses) where
  -- The active policy, an empty baseline where there is none or it cannot be read.
  unfoldable pub baseline : String → Client Value
  unfolding get_active_policy
  baseline target_id =
      catch (do policy ← get_active_policy t addresses target_id; pure (detail_value policy))
        (λ e. pure (object no_fields))

  unfoldable pub build_policy_activation_review : String → Value → Client ActivationReview
  unfolding validate_canonical_apm_structure hash_apm baseline diff_canonical_apm
  build_policy_activation_review target_id apm =
      let errors = validate_canonical_apm_structure apm in
      if is_empty errors
      then (do
        manifest_hash ← lift (hash_apm apm)
        from_apm ← baseline target_id
        diff ← lift (diff_canonical_apm number_of_text from_apm apm)
        pure (record {
          valid = true;
          errors = [];
          manifest_hash = some manifest_hash;
          diff = some diff;
        }))
      else pure (record { valid = false; errors = errors; manifest_hash = none; diff = none })

  unfoldable pub build_policy_activation_write :
      (target_id policy_key : String) → Value → Client (PreparedRecloseWrite × PolicySecurityDiff)
  unfolding baseline diff_canonical_apm build_prepared_write_for_call
  build_policy_activation_write target_id policy_key apm = do
    from_apm ← baseline target_id
    diff ← lift (diff_canonical_apm number_of_text from_apm apm)
    built ←
        build_prepared_write_for_call t addresses "activate_policy" (text policy_key ∷ []) none
          policy_activation none (some target_id)
    pure (built, diff)
