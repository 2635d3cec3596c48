-- ===== src/Client/Network/Writes.antt =====
-- The builders and the tracking of packages/protocol-sdk/src/client.ts check the network first.
use reclose.Prelude.{ℕ, ℤ, String, Option, none, some, List, [], ◌∷◌, Result, Bool, inl, inr}
use reclose.Async.{or_reject}
use reclose.Json.{Value, text, join}
use reclose.Client.{
  Session, RecloseTransport, RecloseAddresses, FeeEstimate, ResolvedActionTransaction, send,
  ask_mapping,
}
use reclose.Client.Values.{ClientError}
use reclose.Client.Records.{PolicyRule, PolicyDetail}
use reclose.Client.Drafts.{
  FeeTransactionPreview, PredictedIncidentIdentity, PreparedWriteSemanticKind, policy_activation,
  incident_report, remediation_report, recovery_validation_report, Draft, prepare, fee_preview,
}
use reclose.Client.Reports.{Runtime, find_rule}
use reclose.Client.Submissions.{
  ReportInput, or_if_empty, with_bond, require_reporter, reporter_nonce, build_open_bond,
  build_submission, build_incident_report, build_recovery_report, build_remediation_report,
}
use reclose.Client.Owner.{
  Registration, read_handshake, build_target_registration, build_owner_write, live_owner,
  build_prepared_write_for_call,
}
use reclose.Client.Activation.{
  baseline, build_policy_activation_review, build_policy_activation_write,
}
use reclose.Client.Tracking.{
  fetch_transaction, track_transaction, resolve_mapping, get_decision_view, track_action_trace,
}
use reclose.Client.Network.{
  Stays, ◌then◌, done, refused, lifted, send-Stays, catch-Stays, Opens, Guards, ◌opens◌, ◌guards◌,
  IsSound, Opens-Guards, branch, Guards-pure, Guards-reject, Guards-lift, Guards-catch,
  ensure_network-Opens, judge_read-Opens, read_at-Stays,
}
use reclose.Async.Leads.{Leads}
use reclose.Client.Network.Reads.{
  found, choice, get_target-Opens, get_active_policy-Opens, get_incident-Opens, get_decision-Opens,
}

abbrev Estimator : Type 0
Estimator = ℕ → (address function_name : String) → List Value → ℤ → Result String FeeEstimate

prepare-Stays :
    (d : Draft) (f : FeeTransactionPreview) (p : Option PredictedIncidentIdentity)
    → Leads Stays (prepare d f p)
unfolding prepare
prepare-Stays d f p = lifted then λ h. done

reporter-Stays : (r : Option String) → Leads Stays (require_reporter r)
unfolding require_reporter
reporter-Stays r = choice _ refused done

module _ (t : RecloseTransport) (addresses : RecloseAddresses) where
  pub fee_preview-Opens :
      (f : String) (args : List Value) (a : String) (v : ℤ)
      → Opens t addresses (fee_preview t addresses f args a v)
  unfolding fee_preview
  fee_preview-Opens f args a v = ensure_network-Opens t addresses opens λ _.
      found _ _ then λ (e : Estimator).
      send-Stays _ (λ n. e n a f args v) then λ x. lifted then λ h. done

  handshake-Stays : (a : String) → Leads Stays (read_handshake t addresses a)
  unfolding read_handshake
  handshake-Stays a = read_at-Stays t addresses a _ _ then λ o. lifted then λ owner.
      read_at-Stays t addresses a _ _ then λ c. lifted then λ controller.
      read_at-Stays t addresses a _ _ then λ i.
      lifted then λ id. read_at-Stays t addresses a _ _ then λ r. done

  pub build_target_registration-Guards :
      (r : Registration) → Guards t addresses (build_target_registration t addresses r)
  unfolding build_target_registration
  build_target_registration-Guards r = branch _ Guards-pure Guards-reject guards λ _.
      branch _ Guards-pure Guards-reject guards λ _. Opens-Guards t addresses (
        ensure_network-Opens t addresses opens λ _. handshake-Stays r.target_address then λ h.
        lifted then λ _. (fee_preview-Opens _ _ _ _).leads then λ fee. prepare-Stays _ fee none)

  pub build_owner_write-Opens :
      (f : String) (k : PreparedWriteSemanticKind) (id : String) (args : List Value)
      → Opens t addresses (build_owner_write t addresses f k id args)
  unfolding build_owner_write
  build_owner_write-Opens f k id args = fee_preview-Opens f args _ _ opens λ fee.
      (get_target-Opens t addresses id).leads then λ target. prepare-Stays _ fee none

  live_owner-Stays : (id : Option String) → Leads Stays (live_owner t addresses id)
  unfolding live_owner
  live_owner-Stays none = done
  live_owner-Stays (some id) =
      choice _ done
        (catch-Stays _ _ ((get_target-Opens t addresses id).leads then λ target. done) λ e. done)

  pub build_prepared_write_for_call-Guards :
      (f : String) (args : List Value) (a : Option String) (k : PreparedWriteSemanticKind)
      (v id : Option String)
      → Guards t addresses (build_prepared_write_for_call t addresses f args a k v id)
  unfolding build_prepared_write_for_call
  build_prepared_write_for_call-Guards f args a k v id = Guards-lift guards λ value.
      Opens-Guards t addresses (
        fee_preview-Opens f args _ value opens λ fee.
        live_owner-Stays id then λ s. prepare-Stays _ fee none)

  baseline-Guards :
      (number_of_text : String → String) (id : String)
      → Guards t addresses (baseline number_of_text t addresses id)
  unfolding baseline
  baseline-Guards n id =
      Guards-catch t addresses
        (Opens-Guards t addresses (get_active_policy-Opens t addresses id opens λ p. done))
        λ e. Guards-pure

  pub build_policy_activation_review-Guards :
      (n : String → String) (id : String) (apm : Value)
      → Guards t addresses (build_policy_activation_review n t addresses id apm)
  unfolding build_policy_activation_review
  build_policy_activation_review-Guards n id apm =
      branch _
        (Guards-lift guards λ h.
          baseline-Guards n id guards λ b. Guards-lift guards λ d. Guards-pure)
        Guards-pure

  pub build_policy_activation_write-Guards :
      (n : String → String) (id key : String) (apm : Value)
      → Guards t addresses (build_policy_activation_write n t addresses id key apm)
  unfolding build_policy_activation_write
  build_policy_activation_write-Guards n id key apm = baseline-Guards n id guards λ b.
      Guards-lift guards λ d.
      build_prepared_write_for_call-Guards "activate_policy" (text key ∷ []) none policy_activation
        none (some id)
      guards λ w. Guards-pure

  fetch_transaction-Stays : (id : String) → Leads Stays (fetch_transaction t addresses id)
  unfolding fetch_transaction
  fetch_transaction-Stays id =
      send-Stays _ (λ n. t.get_transaction n id) then λ r. lifted then λ l. done

  pub track_transaction-Opens : (id : String) → Opens t addresses (track_transaction t addresses id)
  unfolding track_transaction
  track_transaction-Opens id =
      ensure_network-Opens t addresses opens λ _. fetch_transaction-Stays id

  ask_mapping-Guards :
      (f : ℕ → Result String (Option ResolvedActionTransaction)) (id : String)
      → Guards t addresses (send (ask_mapping id) f)
  unfolding send
  ask_mapping-Guards f id = record { guarded = λ s h. grown s h }
    where
      grown :
          (s : Session)
          → IsSound t s
          → IsSound t (record s { requests = ask_mapping id ∷ s.requests })
      grown s (inl checked) = inl checked
      grown s (inr (unchecked, preliminary)) = inr (unchecked, (tt, preliminary))

  found-Guards :
      {A : Type 0} (e : ClientError) (o : Option A)
      → Guards t addresses (or_reject {S = Session} e o)
  found-Guards e none = Guards-reject
  found-Guards e (some a) = Guards-pure

  abbrev Resolver : Type 0
  Resolver = ℕ → String → Result String (Option ResolvedActionTransaction)

  resolve_mapping-Guards : (id : String) → Guards t addresses (resolve_mapping t addresses id)
  unfolding resolve_mapping
  resolve_mapping-Guards id = found-Guards _ _ guards λ (r : Resolver).
      ask_mapping-Guards (λ n. r n id) id guards λ m. found-Guards _ m

  resolve_mapping-Stays : (id : String) → Leads Stays (resolve_mapping t addresses id)
  unfolding resolve_mapping
  resolve_mapping-Stays id =
      found _ _ then λ (r : Resolver). send-Stays _ (λ n. r n id) then λ m. found _ m

  pub get_decision_view-Opens : (id : String) → Opens t addresses (get_decision_view t addresses id)
  unfolding get_decision_view
  get_decision_view-Opens id = get_decision-Opens t addresses id opens λ d.
      resolve_mapping-Stays id then λ m. (track_transaction-Opens _).leads then λ x. done

  pub track_action_trace-Guards :
      (is_date : String → Bool) (id : String)
      → Guards t addresses (track_action_trace t addresses is_date id)
  unfolding track_action_trace
  track_action_trace-Guards is_date id = resolve_mapping-Guards id guards λ m.
      branch _ Guards-reject Guards-pure guards λ _. branch _ Guards-reject Guards-pure guards λ _.
      Opens-Guards t addresses
        (track_transaction-Opens _ opens λ p. fetch_transaction-Stays _ then λ c. done)

  module _ (runtime : Runtime) where
    nonce-Stays : (r : String) → Leads Stays (reporter_nonce t addresses runtime r)
    unfolding reporter_nonce
    nonce-Stays r = (judge_read-Opens t addresses _ _).leads then λ v. lifted

    pub build_open_bond-Guards :
        (id rule r : String) (given : Option String)
        → Guards t addresses (build_open_bond t addresses runtime id rule r given)
    unfolding build_open_bond
    build_open_bond-Guards id rule r given = found-Guards _ _ guards λ (v : String).
        branch _ Guards-reject Guards-pure guards λ _. Opens-Guards t addresses (
          get_active_policy-Opens t addresses id opens λ p. found _ _ then λ (k : PolicyRule).
          lifted then λ b. choice _ refused done then λ _. nonce-Stays r then λ n.
          lifted then λ bond.
          (fee_preview-Opens _ _ _ _).leads then λ fee. prepare-Stays _ fee none then λ w. done)

    submission-Stays :
        (f : String) (k : PreparedWriteSemanticKind) (p : PolicyDetail) (o : Option PolicyRule)
        (id rule r subject : String) (input : ReportInput) (args : List Value)
        (adjust : FeeTransactionPreview → FeeTransactionPreview)
        → Leads Stays
            (build_submission t addresses runtime f k p o id rule r subject input args adjust)
    unfolding build_submission
    submission-Stays f k p o id rule r subject input args adjust =
        record { from = λ s c. c } then λ calls. lifted then λ e. nonce-Stays r then λ n.
        lifted then λ b. (fee_preview-Opens _ _ _ _).leads then λ fee. prepare-Stays _ _ _

    pub build_incident_report-Opens :
        (id rule resource : String) (input : ReportInput)
        → Opens t addresses (build_incident_report t addresses runtime id rule resource input)
    unfolding build_incident_report
    build_incident_report-Opens id rule resource input =
        get_active_policy-Opens t addresses id opens λ p. found _ _ then λ (k : PolicyRule).
        choice _ done refused then λ _. reporter-Stays input.reporter_address then λ r.
        submission-Stays "submit_incident" incident_report p (some k) id rule r
          (join "" (rule ∷ " report against " ∷ or_if_empty resource id ∷ [])) input
          (text id ∷ text p.summary.policy_key ∷ text rule ∷ text resource ∷ []) (with_bond k)

    pub build_recovery_report-Opens :
        (id : String) (input : ReportInput)
        → Opens t addresses (build_recovery_report t addresses runtime id input)
    unfolding build_recovery_report
    build_recovery_report-Opens id input = get_incident-Opens t addresses id opens λ i.
        (get_active_policy-Opens t addresses _).leads then λ p.
        reporter-Stays input.reporter_address then λ r.
        submission-Stays "submit_recovery_validation" recovery_validation_report p
          (find_rule "RECOVERY_VALIDATED_V1" p.rules) i.target_id "RECOVERY_VALIDATED_V1" r
          (join "" ("Recovery validation for " ∷ id ∷ [])) input
          (text id ∷ text p.summary.policy_key ∷ []) (λ fee. fee)

    pub build_remediation_report-Opens :
        (id : String) (input : ReportInput)
        → Opens t addresses (build_remediation_report t addresses runtime id input)
    unfolding build_remediation_report
    build_remediation_report-Opens id input = get_incident-Opens t addresses id opens λ i.
        (get_active_policy-Opens t addresses _).leads then λ p.
        reporter-Stays input.reporter_address then λ r.
        submission-Stays "submit_remediation" remediation_report p
          (find_rule "REMEDIATION_CONFIRMED_V1" p.rules) i.target_id "REMEDIATION_CONFIRMED_V1" r
          (join "" ("Remediation for " ∷ id ∷ [])) input (text id ∷ text p.summary.policy_key ∷ [])
          (λ fee. fee)
