-- ===== src/Sentinel/Once.antt =====
-- What one run of `SentinelRunner.runOnce` (packages/sentinel/src/runner.ts) does on every path, and
-- what follows for many runs.
use reclose.Prelude.{
  ℕ, ◌+◌, ◌*◌, ltb, zero, suc, String, Bool, true, false, none, some, List, [], ◌∷◌, ◌≡◌, refl, sym,
  ◌∙◌, ◌⊎◌, inl, inr, Result, ok, throw, ◌==◌, string_eq, eq_iff, lookup, lookup-insert, arith,
  Bool-cases, Option-cases, length, nat_eq, keep, includes,
}
use reclose.Async.{Async, resume}
use reclose.Sentinel.State.{
  MonitoredSource, SourceCheckResult, SentinelSubmissionContext, PendingTransaction, SentinelState,
  Submission, SubmitCall, World, Session, is_truthy,
}
use reclose.Sentinel.Monitor.{
  monitor_run_once, record_report_submitted, record_duplicate_suppressed,
}
use reclose.Sentinel.{
  is_triggered, called, candidate_key, resume_pending, with_submission, submit_and_persist,
  submit_report, is_cooling, submit_triggered, run_once,
}
use reclose.Sentinel.Keeping.{
  state_of, ticked, Same-monitor_run_once, Keeps, Keeps-refl, Keeps-Same, Outcome, quiet, submits,
  rejected, quiet-Same, after_quiet, state_cases, save_cases, Resumes, resume_pending-Resumes,
}

Result-cases :
    {A : Type 0} (r : Result String A) → ((e : String) × (r ≡ throw e)) ⊎ ((a : A) × (r ≡ ok a))
Result-cases (throw e) = inl (e, refl)
Result-cases (ok a) = inr (a, refl)

module _ (w : World) where
  resume-Outcome :
      {A B : Type 0} (f : A → Async Session String B) (r : Result String A) (s t : Session)
      → Resumes w s t
      → ((a : A) (t : Session) → Outcome w t (f a t).1)
      → Outcome w s (resume f r t).1
  resume-Outcome f (ok a) s t (kept, same) h = after_quiet w s t _ kept same (h a t)
  resume-Outcome f (throw e) s t (kept, same) h = quiet kept same

module _ (w : World) (context : SentinelSubmissionContext) where
  -- The state that is saved knows the candidate and the transaction, and forgets none.
  Keeps-with_submission :
      (key tx_id : String) (pending_at rule_at : ℕ) (st : SentinelState)
      → is_truthy (lookup key st.seen_candidate_keys) ≡ false
      → Keeps w st (with_submission w context key tx_id pending_at rule_at st)
  unfolding with_submission
  Keeps-with_submission key tx_id pending_at rule_at st fresh = record {
    seen = λ other h.
        ground (arith, eq_iff key other, lookup-insert other key tx_id st.seen_candidate_keys);
    pending = λ other p found.
        let after =
          lookup-insert other tx_id (record { submitted_at = pending_at; candidate_key = key })
            st.pending_transactions in
        elim (Bool-cases (tx_id == other)) [
          | inl same ↦
              inl (record { submitted_at = pending_at; candidate_key = key }, after ∙ rw same refl)
          | inr differs ↦ inl (p, after ∙ rw differs found)
        ];
  }

  -- What stands of the submission in the state that is saved.
  saved_submission :
      (key tx_id : String) (pending_at rule_at : ℕ) (st : SentinelState)
      → (lookup key (with_submission w context key tx_id pending_at rule_at st).seen_candidate_keys
          ≡ some tx_id)
        × ((p : PendingTransaction) × (lookup tx_id
                (with_submission w context key tx_id pending_at rule_at st).pending_transactions
              ≡ some p)
            × (p.candidate_key ≡ key))
  unfolding with_submission
  saved_submission key tx_id pending_at rule_at st = (
    ground (arith, eq_iff key key, lookup-insert key key tx_id st.seen_candidate_keys),
    (
      record { submitted_at = pending_at; candidate_key = key },
      ground (
        arith,
        eq_iff tx_id tx_id,
        lookup-insert tx_id tx_id (record { submitted_at = pending_at; candidate_key = key })
            st.pending_transactions,
      ),
      refl,
    ),
  )

  submit_and_persist-Outcome :
      (key : String) (s : Session) (n : ℕ) (results : List SourceCheckResult)
      (submission : Submission)
      → is_truthy (lookup key (state_of s).seen_candidate_keys) ≡ false
      → Outcome w s
          (submit_and_persist w context key
            (state_of s)
            results
            submission
            (record s { tick = n })).1
  unfolding submit_and_persist record_report_submitted
  submit_and_persist-Outcome key s n results submission fresh =
      elim (Result-cases (w.submit_incident n submission)) [
        | inl (e, answered) ↦
            rw answered
              (rejected key e submission fresh (n, answered) refl (Keeps-refl w (state_of s)))
        | inr (tx_id, answered) ↦
            let st =
              with_submission w context key tx_id (w.now (n + 1)) (w.now (n + 1 + 1))
                (state_of s) in
            let kept =
              Keeps-with_submission key tx_id (w.now (n + 1)) (w.now (n + 1 + 1)) (state_of s)
                fresh in
            let saved =
              saved_submission key tx_id (w.now (n + 1)) (w.now (n + 1 + 1)) (state_of s) in
            elim (save_cases w st (record s {
              tick = n + 1 + 1 + 1;
              calls = called key submission (ok tx_id) ∷ s.calls;
            })) [
              | inl (m, e, fails, ran) ↦
                  rw (answered, ran)
                    (submits key tx_id submission fresh (n, answered) refl
                      (Keeps-refl w (state_of s)) (inl (m, e, fails)))
              | inr ran ↦ elim (Result-cases (w.track (n + 1 + 1 + 1 + 1) tx_id)) [
                | inl (e, h₂) ↦
                    rw (answered, ran, h₂)
                      (submits key tx_id submission fresh (n, answered) refl kept (inr saved))
                | inr (u, h₂) ↦
                    rw (answered, ran, h₂)
                      (submits key tx_id submission fresh (n, answered) refl kept (inr saved))
              ]
            ]
      ]

  -- An incident for a candidate not seen before.
  submit_report-Outcome :
      (key : String) (s : Session) (n : ℕ) (results triggered : List SourceCheckResult)
      → is_truthy (lookup key (state_of s).seen_candidate_keys) ≡ false
      → Outcome w s
          (submit_report w context key (state_of s) results triggered (record s { tick = n })).1
  unfolding submit_report
  submit_report-Outcome key s n results triggered fresh =
      elim (Result-cases (w.get_reporter_address n)) [
        | inl (e, h) ↦ rw h (quiet-Same w s _ (ticked s _))
        | inr (reporter, h) ↦ elim (Result-cases (w.get_next_reporter_nonce (n + 1))) [
          | inl (e, h₂) ↦ rw (h, h₂) (quiet-Same w s _ (ticked s _))
          | inr (nonce, h₂) ↦
              elim (Result-cases (w.build_candidate_report context reporter triggered)) [
                | inl (e, h₃) ↦ rw (h, h₂, h₃) (quiet-Same w s _ (ticked s _))
                | inr (report, h₃) ↦
                    rw (h, h₂, h₃) (submit_and_persist-Outcome key s _ results _ fresh)
              ]
        ]
      ]

  module _ (cooldown_seconds : ℕ) where
    is_cooling_lem :
        (st : SentinelState) (s : Session)
        → (cooling : Bool) × (n : ℕ) × (is_cooling w context cooldown_seconds st s
            ≡ (ok cooling, record s { tick = n }))
    unfolding is_cooling
    is_cooling_lem st s =
        elim (Option-cases (lookup context.rule_id st.last_submission_at_by_rule)) [
          | inl never ↦ (false, s.tick, rw (is_cooling, never) refl)
          | inr (last, found) ↦ (
            ltb (w.now s.tick) (last + cooldown_seconds * 1000),
            s.tick + 1,
            rw (is_cooling, found) refl,
          )
        ]

    submit_triggered-Outcome :
        (s : Session) (results triggered : List SourceCheckResult)
        → Outcome w s (submit_triggered w context cooldown_seconds results triggered s).1
    unfolding submit_triggered record_duplicate_suppressed
    submit_triggered-Outcome s results triggered = elim (state_cases w s) [
      | inl (e, h) ↦ rw h (quiet-Same w s _ (ticked s _))
      | inr h ↦ elim (Result-cases (candidate_key w context triggered)) [
        | inl (e, thrown) ↦ rw (h, thrown) (quiet-Same w s _ (ticked s _))
        | inr (key, hashed) ↦
            elim (Bool-cases (is_truthy (lookup key (state_of s).seen_candidate_keys))) [
              | inl dup ↦
                  rw (h, hashed, dup)
                    (quiet-Same w s _ (record { stored_same = refl; calls_same = refl }))
              | inr fresh ↦
                  let (cooling, n, asked) =
                    is_cooling_lem (state_of s) (record s { tick = s.tick + 1 }) in
                  elim (Bool-cases cooling) [
                    | inl waits ↦
                        rw (h, hashed, fresh, asked, waits) (quiet-Same w s _ (ticked s _))
                    | inr cool ↦
                        rw (h, hashed, fresh, asked, cool)
                          (submit_report-Outcome key s n results triggered fresh)
                  ]
            ]
      ]
    ]

    module _ (sources : List MonitoredSource) where
      -- Whatever the world answers, and whether the run returns or rejects: candidates that were
      -- seen stay seen, a pending transaction stays pending unless a poll answered that it is final
      -- or canceled, and `submitIncident` is called at most once, for a candidate not seen before;
      -- if the call is answered, the candidate is then stored as seen and its transaction as pending,
      -- unless a save has failed.
      pub run_once-Outcome :
          (s : Session) → Outcome w s (run_once w context cooldown_seconds sources s).1
      unfolding run_once
      run_once-Outcome s =
          resume-Outcome w _ (resume_pending w s).0 s (resume_pending w s).1
            (resume_pending-Resumes w s)
            λ _ t.
              let same = (Same-monitor_run_once w sources).from t in
              resume-Outcome w _ (monitor_run_once w sources t).0 t (monitor_run_once w sources t).1
                (Keeps-Same w t _ same, same.calls_same)
                λ results u. elim (Bool-cases (length (keep is_triggered results) == 0)) [
                  | inl nothing ↦ rw nothing (quiet-Same w u u (ticked u _))
                  | inr something ↦
                      rw something (submit_triggered-Outcome u results (keep is_triggered results))
                ]

      -- The state after a number of runs, whether they return or reject.
      abbrev pub runs : ℕ → Session → Session
      runs zero s = s
      runs (suc n) s = runs n (run_once w context cooldown_seconds sources s).1

-- The candidates whose submission was answered with a transaction.
abbrev pub answered_keys : List SubmitCall → List String
answered_keys [] = []
answered_keys (c ∷ cs) = elim c.answer [
  | ok tx_id ↦ c.key ∷ answered_keys cs
  | throw e ↦ answered_keys cs
]

-- No call is for a candidate whose submission had been answered before, in a log with the last call
-- first.
abbrev pub NoneRepeated : List SubmitCall → Type 0
NoneRepeated [] = Unit
NoneRepeated (c ∷ cs) = (includes c.key (answered_keys cs) ≡ false) × NoneRepeated cs

abbrev pub AllSeen : SentinelState → List String → Type 0
AllSeen st keys =
    (key : String) → includes key keys ≡ true → is_truthy (lookup key st.seen_candidate_keys) ≡ true

pub record AtMostOnce (s : Session) : Type 0 where
  pub none_repeated : NoneRepeated s.calls
  pub all_seen : AllSeen (state_of s) (answered_keys s.calls)

module _ (w : World) (saves : (n : ℕ) → w.save_failure n ≡ none)
    (named : (n : ℕ) (submission : Submission) (tx_id : String)
      → w.submit_incident n submission ≡ ok tx_id
      → (tx_id == "") ≡ false) where
  now_seen :
      (t : Session) (key tx_id : String) {P : Type 0}
      → (tx_id == "") ≡ false
      → ((n : ℕ) × (e : String) × (w.save_failure n ≡ some e))
        ⊎ ((lookup key (state_of t).seen_candidate_keys ≡ some tx_id) × P)
      → is_truthy (lookup key (state_of t).seen_candidate_keys) ≡ true
  now_seen t key tx_id nonempty (inl (n, e, failed)) = ground (arith, saves n)
  now_seen t key tx_id nonempty (inr (found, _)) = rw (found, nonempty) refl

  Outcome-AtMostOnce : (s t : Session) → Outcome w s t → AtMostOnce s → AtMostOnce t
  Outcome-AtMostOnce s t (quiet kept same) h = record {
    none_repeated = rw same h.none_repeated;
    all_seen = λ key. rw same λ found. kept.seen key (h.all_seen key found);
  }
  Outcome-AtMostOnce s t (submits key tx_id submission fresh (n, answered) logged kept saved) h =
      record {
        none_repeated = rw logged (ground (arith, h.all_seen key), h.none_repeated);
        all_seen = λ other. rw logged λ found. elim (Bool-cases (key == other)) [
          | inl same ↦
              rw (sym ((eq_iff key other).0 same))
                (now_seen t key tx_id (named n submission tx_id answered) saved)
          | inr differs ↦ kept.seen other (h.all_seen other (ground arith))
        ];
      }
  Outcome-AtMostOnce s t (rejected key e submission fresh answered logged kept) h = record {
    none_repeated = rw logged (ground (arith, h.all_seen key), h.none_repeated);
    all_seen = λ other. rw logged λ found. kept.seen other (h.all_seen other found);
  }

  -- With a store that saves and transaction ids that are not empty, `submitIncident` is not called
  -- for a candidate for which an earlier call was answered: if this holds of the calls made so far,
  -- those that were rejected included, and every candidate with an answered call is stored as seen,
  -- then both still hold after any number of runs. A call that was rejected may be repeated.
  pub runs-AtMostOnce :
      (context : SentinelSubmissionContext) (cooldown_seconds : ℕ) (sources : List MonitoredSource)
      (count : ℕ) (s : Session)
      → AtMostOnce s
      → AtMostOnce (runs w context cooldown_seconds sources count s)
  runs-AtMostOnce context cooldown_seconds sources zero s h = h
  runs-AtMostOnce context cooldown_seconds sources (suc n) s h =
      runs-AtMostOnce context cooldown_seconds sources n _
        (Outcome-AtMostOnce s _ (run_once-Outcome w context cooldown_seconds sources s) h)
