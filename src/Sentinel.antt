-- ===== src/Sentinel.antt =====
-- packages/sentinel/src/runner.ts: the Sentinel submits an incident when a monitored source shows a
-- candidate. The store holds the last state saved; a load or a save may fail, and a save that fails
-- leaves the state as it was (`FileSentinelStateStore` renames a complete file over the old one).
-- Each call of the outside world advances `tick`, by which the world's answers are numbered.
pub mod State
pub mod Monitor
pub mod Keeping
pub mod Once
pub mod Candidate
mod Tests
use reclose.Prelude.{
  map_result, and_then, ℕ, ◌+◌, ◌-◌, ◌*◌, String, Bool, true, false, not, ◌&&◌, ◌||◌, Option, none,
  some, List, [], ◌∷◌, map, Result, ok, throw, ◌==◌, string_eq, if◌then◌else◌, keep, ltb, or_else,
  Dict, lookup, insert, remove, keys, length, nat_eq,
}
use Prim.Native.String
use reclose.Async.{Async, pure, reject, lift, resume, ◌>>=◌, ◌>>◌, modify, gets}
use reclose.Sentinel.State.{
  MonitoredSource, SourceCheckResult, SentinelSubmissionContext, PendingTransaction, SentinelState,
  Submission, CandidateReport, Polled, World, Session, SubmitCall, is_truthy,
}
use reclose.Sentinel.Monitor.{
  ask, ask_result, monitor_run_once, record_report_submitted, record_duplicate_suppressed,
}

abbrev pub empty_state : SentinelState
empty_state = record {
  seen_candidate_keys = [];
  pending_transactions = [];
  last_submission_at_by_rule = [];
}

-- `result.candidateDetected && !result.error`
abbrev pub is_triggered : SourceCheckResult → Bool
is_triggered r = r.candidate_detected && not (is_truthy r.error)

-- `parts.join(separator)`
abbrev pub join : String → List String → String
join separator [] = ""
join separator (x ∷ []) = x
join separator (x ∷ y ∷ ys) = String.◌++◌ x (String.◌++◌ separator (join separator (y ∷ ys)))

-- `tracked.lifecycle?.derived?.isFinal === true || tracked.lifecycle?.rawStatus === "CANCELED"`
abbrev pub is_settled : Result String Polled → Bool
is_settled (throw e) = false
is_settled (ok p) = or_else p.is_final false || (or_else p.raw_status "" == "CANCELED")

pub record RunResult : Type 0 where
  pub submitted_tx_id : Option String
  pub duplicate_suppressed : Bool
  pub results : List SourceCheckResult

abbrev pub run_result : Option String → Bool → List SourceCheckResult → RunResult
run_result tx_id duplicate results = record {
  submitted_tx_id = tx_id;
  duplicate_suppressed = duplicate;
  results = results;
}

abbrev pub called : String → Submission → Result String String → SubmitCall
called key submission answer = record { key = key; submission = submission; answer = answer }

module _ (w : World) where
  -- `store.load()` and `store.save(state)`
  unfoldable pub load : Async Session String (Option SentinelState)
  load s = elim (w.load_failure s.tick) [
    | none ↦ (ok s.stored, record s { tick = s.tick + 1 })
    | some e ↦ (throw e, record s { tick = s.tick + 1 })
  ]

  unfoldable pub save : SentinelState → Async Session String (Unit {0})
  save state s = elim (w.save_failure s.tick) [
    | none ↦ (ok tt, record s { tick = s.tick + 1; stored = some state })
    | some e ↦ (throw e, record s { tick = s.tick + 1 })
  ]

  unfoldable pub state : Async Session String SentinelState
  unfolding load
  state = do loaded ← load; pure (or_else loaded empty_state)

  -- The loop of `resumePending`, over the pending ids, with the state in hand and `changed`.
  unfoldable pub resume_each :
      List String → SentinelState → Bool → Async Session String (SentinelState × Bool)
  unfolding remove
  resume_each [] st changed = pure (st, changed)
  resume_each (tx_id ∷ tx_ids) st changed = do
    reply ← ask w (λ t. w.poll t tx_id)
    let settled = is_settled reply
    resume_each tx_ids
        (if settled
          then record st { pending_transactions = remove tx_id st.pending_transactions }
          else st)
        (changed || settled)

  unfoldable pub resume_pending : Async Session String (Unit {0})
  unfolding state save resume_each keys
  resume_pending = do
    st ← state
    (st', changed) ← resume_each (keys st.pending_transactions) st false
    if changed then save st' else pure tt

  -- The call of `submitIncident`, which is logged whether it is answered or rejects.
  unfoldable pub submit : String → Submission → Async Session String String
  submit key submission s =
      let answer = w.submit_incident s.tick submission in
      (answer, record s { tick = s.tick + 1; calls = called key submission answer ∷ s.calls })

module _ (w : World) (context : SentinelSubmissionContext) where
  abbrev pub candidate_part : SourceCheckResult → Result String String
  candidate_part r =
      and_then (w.keccak256_hex r.extracted_text)
        λ digest. ok (join "|" (r.source_id ∷ r.url ∷ digest ∷ []))

  unfoldable pub candidate_key : List SourceCheckResult → Result String String
  candidate_key results = and_then (map_result candidate_part (keep is_triggered results)) λ parts.
      w.keccak256_hex (
        join "|" (
          context.target_id
          ∷ context.rule_id
          ∷ context.resource_id
          ∷ join "||" (w.sort parts)
          ∷ []))

  abbrev pub submission_of : String → ℕ → CandidateReport → Submission
  submission_of key nonce report = record {
    target_id = context.target_id;
    policy_key = context.policy_key;
    rule_id = context.rule_id;
    resource_id = context.resource_id;
    evidence_hash = report.artifact_hash;
    evidence_json = report.eap_json;
    reporter_nonce = nonce;
    bond_id = elim w.bond_id_factory [ none ↦ "" | some make ↦ make key nonce ];
  }

  -- What is saved once a transaction id exists.
  unfoldable pub with_submission :
      String → String → (pending_at rule_at : ℕ) → SentinelState → SentinelState
  unfolding insert
  with_submission key tx_id pending_at rule_at st = record {
    seen_candidate_keys = insert key tx_id st.seen_candidate_keys;
    pending_transactions =
        insert tx_id (record { submitted_at = pending_at; candidate_key = key })
          st.pending_transactions;
    last_submission_at_by_rule = insert context.rule_id rule_at st.last_submission_at_by_rule;
  }

  -- The submission, which is saved before anything else is done with its transaction.
  unfoldable pub submit_and_persist :
      String → SentinelState → List SourceCheckResult → Submission → Async Session String RunResult
  unfolding submit save with_submission record_report_submitted
  submit_and_persist key st results submission = do
    tx_id ← submit w key submission
    pending_at ← ask w w.now
    rule_at ← ask w w.now
    save w (with_submission key tx_id pending_at rule_at st)
    ask_result w (λ t. w.track t tx_id)
    record_report_submitted w
    pure (run_result (some tx_id) false results)

  unfoldable pub submit_report :
      String
      → SentinelState
      → (results triggered : List SourceCheckResult) → Async Session String RunResult
  unfolding submit_and_persist
  submit_report key st results triggered = do
    reporter ← ask_result w w.get_reporter_address
    nonce ← ask_result w w.get_next_reporter_nonce
    report ← ask_result w (λ _. w.build_candidate_report context reporter triggered)
    submit_and_persist key st results (submission_of key nonce report)

module _ (w : World) (context : SentinelSubmissionContext) (cooldown_seconds : ℕ) where
  -- `last && Date.now() - Date.parse(last) < this.cooldownSeconds * 1000`
  unfoldable pub is_cooling : SentinelState → Async Session String Bool
  unfolding lookup
  is_cooling st = elim (lookup context.rule_id st.last_submission_at_by_rule) [
    | none ↦ pure false
    | some last ↦ (do now ← ask w w.now; pure (ltb now (last + cooldown_seconds * 1000)))
  ]

  unfoldable pub submit_triggered :
      (results triggered : List SourceCheckResult) → Async Session String RunResult
  unfolding state candidate_key lookup record_duplicate_suppressed is_cooling submit_report
  submit_triggered results triggered = do
    st ← state w
    key ← lift (candidate_key w context triggered)
    if is_truthy (lookup key st.seen_candidate_keys)
        then (do record_duplicate_suppressed w; pure (run_result none true results))
        else (do
          cooling ← is_cooling st
          if cooling
              then pure (run_result none false results)
              else submit_report w context key st results triggered)

module _ (w : World) (context : SentinelSubmissionContext) (cooldown_seconds : ℕ)
    (sources : List MonitoredSource) where
  unfoldable pub run_once : Async Session String RunResult
  unfolding resume_pending monitor_run_once submit_triggered
  run_once = do
    resume_pending w
    results ← monitor_run_once w sources
    let triggered = keep is_triggered results
    if length triggered == 0
        then pure (run_result none false results)
        else submit_triggered w context cooldown_seconds results triggered
