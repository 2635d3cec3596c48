-- ===== src/Sentinel/Keeping.antt =====
-- What a run of the Sentinel (packages/sentinel/src/runner.ts) keeps of its durable state, whether
-- it returns or rejects.
use reclose.Prelude.{
  ℕ, ◌+◌, String, Bool, true, false, ◌||◌, some, List, [], ◌∷◌, ◌≡◌, refl, sym, ap, ◌∙◌, ◌⊎◌, inl,
  inr, Result, ok, throw, ◌==◌, string_eq, eq_iff, if◌then◌else◌, or_else, lookup, remove, keys,
  lookup-remove, arith, Bool-cases, Option-cases, nat_eq,
}
use reclose.Async.Leads.{IsPreorder, Leads, Leads-bind, Leads-collect}
use reclose.Sentinel.State.{
  MonitoredSource, PendingTransaction, SentinelState, Submission, World, Session, is_truthy,
}
use reclose.Sentinel.Monitor.{
  ask, ask_result, is_valid_source_id, check_source, check_all_sources, monitor_run_once,
}
use reclose.Sentinel.{
  empty_state, called, is_settled, load, save, state, resume_each, resume_pending,
}

-- The state that a run starts from.
abbrev pub state_of : Session → SentinelState
state_of s = or_else s.stored empty_state

-- Nothing was saved, and no incident was submitted.
pub record Same (s t : Session) : Type 0 where
  pub stored_same : t.stored ≡ s.stored
  pub calls_same : t.calls ≡ s.calls

pub Same-IsPreorder : IsPreorder Same
Same-IsPreorder = record {
  stays = λ s. record { stored_same = refl; calls_same = refl };
  joins = λ s t u h k. record {
    stored_same = k.stored_same ∙ h.stored_same;
    calls_same = k.calls_same ∙ h.calls_same;
  };
}

pub ticked : (s : Session) (n : ℕ) → Same s (record s { tick = n })
ticked s n = record { stored_same = refl; calls_same = refl }

module _ (w : World) where
  Same-ask : {A : Type 0} (f : ℕ → A) → Leads Same (ask w f)
  Same-ask f = record { from = λ s. record { stored_same = refl; calls_same = refl } }

  Same-ask_result : {A : Type 0} (f : ℕ → Result String A) → Leads Same (ask_result w f)
  Same-ask_result f = record { from = λ s. record { stored_same = refl; calls_same = refl } }

  Same-check_source : (source : MonitoredSource) → Leads Same (check_source w source)
  unfolding check_source
  Same-check_source source = record {
    from = λ s. elim (Bool-cases (is_valid_source_id source.source_id)) [
      | inr h ↦ rw h (ticked s _)
      | inl h ↦ elim (Bool-cases (w.is_valid_source_url source.url)) [
        | inr k ↦ rw (h, k) (ticked s _)
        | inl k ↦ rw (h, k) (ticked s _)
      ]
    ];
  }

  pub Same-monitor_run_once :
      (sources : List MonitoredSource) → Leads Same (monitor_run_once w sources)
  unfolding monitor_run_once check_all_sources
  Same-monitor_run_once sources =
      Leads-bind Same Same-IsPreorder _ _
        (Leads-collect Same Same-IsPreorder (check_source w) sources Same-check_source)
        λ results. record { from = λ s. record { stored_same = refl; calls_same = refl } }

  -- A poll has answered that the transaction is final or canceled.
  pub record Settled (tx_id : String) : Type 0 where
    pub call : ℕ
    pub settled : is_settled (w.poll call tx_id) ≡ true

  -- Candidates stay seen, and a transaction stays pending unless it was settled.
  pub record Keeps (a b : SentinelState) : Type 0 where
    pub seen :
        (key : String)
        → is_truthy (lookup key a.seen_candidate_keys) ≡ true
        → is_truthy (lookup key b.seen_candidate_keys) ≡ true
    pub pending :
        (tx_id : String) (p : PendingTransaction)
        → lookup tx_id a.pending_transactions ≡ some p
        → ((q : PendingTransaction) × (lookup tx_id b.pending_transactions ≡ some q))
          ⊎ Settled tx_id

  pub Keeps-refl : (a : SentinelState) → Keeps a a
  Keeps-refl a = record { seen = λ key h. h; pending = λ tx_id p h. inl (p, h) }

  pub Keeps-trans : (a b c : SentinelState) → Keeps a b → Keeps b c → Keeps a c
  Keeps-trans a b c h k = record {
    seen = λ key seen. k.seen key (h.seen key seen);
    pending = λ tx_id p found. elim (h.pending tx_id p found) [
      | inl (q, kept) ↦ k.pending tx_id q kept
      | inr settled ↦ inr settled
    ];
  }

  abbrev without : String → Bool → SentinelState → SentinelState
  without tx_id settled st =
      if settled
      then record st { pending_transactions = remove tx_id st.pending_transactions }
      else st

  Keeps-without :
      (st : SentinelState) (tx_id : String) (n : ℕ)
      → Keeps st (without tx_id (is_settled (w.poll n tx_id)) st)
  Keeps-without st tx_id n = elim (Bool-cases (is_settled (w.poll n tx_id))) [
    | inl h ↦ rw h (record {
      seen = λ key seen. seen;
      pending = λ other p found. elim (Bool-cases (tx_id == other)) [
        | inl same ↦ inr (record { call = n; settled = rw (sym ((eq_iff tx_id other).0 same)) h })
        | inr differs ↦
            inl (p, lookup-remove other tx_id st.pending_transactions ∙ rw differs found)
      ];
    })
    | inr h ↦ rw h (Keeps-refl st)
  ]

  -- The loop of `resumePending` only asks, and settles.
  resume_each_lem :
      (ids : List String) (st : SentinelState) (changed : Bool) (s : Session)
      → (st' : SentinelState) × (changed' : Bool) × (n : ℕ) × (resume_each w ids st changed s
          ≡ (ok (st', changed'), record s { tick = n }))
        × Keeps st st'
  unfolding resume_each
  resume_each_lem [] st changed s = (st, changed, s.tick, refl, Keeps-refl st)
  resume_each_lem (id ∷ ids) st changed s =
      let (st', changed', n, ran, kept) =
        resume_each_lem ids (without id (is_settled (w.poll s.tick id)) st)
          (changed || is_settled (w.poll s.tick id)) (record s { tick = s.tick + 1 }) in
      (st', changed', n, ran, Keeps-trans _ _ _ (Keeps-without st id s.tick) kept)

  -- What a run may do: keep everything and submit nothing, or submit one incident for a candidate
  -- not seen before. If the call is answered, the candidate is then saved as seen and its transaction
  -- as pending, unless the save fails; if it rejects, everything is kept.
  pub data Outcome (s t : Session) : Type 0 where
    quiet : Keeps (state_of s) (state_of t) → t.calls ≡ s.calls → Outcome s t
    submits :
        (key tx_id : String) (submission : Submission)
        → is_truthy (lookup key (state_of s).seen_candidate_keys) ≡ false
        → ((n : ℕ) × (w.submit_incident n submission ≡ ok tx_id))
        → t.calls ≡ called key submission (ok tx_id) ∷ s.calls
        → Keeps (state_of s) (state_of t)
        → ((n : ℕ) × (e : String) × (w.save_failure n ≡ some e))
          ⊎ ((lookup key (state_of t).seen_candidate_keys ≡ some tx_id)
              × ((p : PendingTransaction) × (lookup tx_id (state_of t).pending_transactions
                    ≡ some p)
                  × (p.candidate_key ≡ key)))
        → Outcome s t
    rejected :
        (key e : String) (submission : Submission)
        → is_truthy (lookup key (state_of s).seen_candidate_keys) ≡ false
        → ((n : ℕ) × (w.submit_incident n submission ≡ throw e))
        → t.calls ≡ called key submission (throw e) ∷ s.calls
        → Keeps (state_of s) (state_of t)
        → Outcome s t

  pub Keeps-Same : (s t : Session) → Same s t → Keeps (state_of s) (state_of t)
  Keeps-Same s t same =
      rw (ap (λ o. or_else o empty_state) same.stored_same) (Keeps-refl (state_of s))

  pub quiet-Same : (s t : Session) → Same s t → Outcome s t
  quiet-Same s t same = quiet (Keeps-Same s t same) same.calls_same

  unseen :
      (a b : SentinelState) (key : String)
      → Keeps a b
      → is_truthy (lookup key b.seen_candidate_keys) ≡ false
      → is_truthy (lookup key a.seen_candidate_keys) ≡ false
  unseen a b key kept h = ground (arith, kept.seen key)

  pub after_quiet :
      (s t u : Session)
      → Keeps (state_of s) (state_of t)
      → t.calls ≡ s.calls
      → Outcome t u
      → Outcome s u
  after_quiet s t u kept same (quiet kept' same') =
      quiet (Keeps-trans _ _ _ kept kept') (same' ∙ same)
  after_quiet s t u kept same (submits key tx_id submission fresh answered logged kept' saved) =
      submits key tx_id submission (unseen _ _ key kept fresh) answered
        (logged ∙ ap (λ l. called key submission (ok tx_id) ∷ l) same)
        (Keeps-trans _ _ _ kept kept') saved
  after_quiet s t u kept same (rejected key e submission fresh answered logged kept') =
      rejected key e submission (unseen _ _ key kept fresh) answered
        (logged ∙ ap (λ l. called key submission (throw e) ∷ l) same) (Keeps-trans _ _ _ kept kept')

  load_cases :
      (s : Session)
      → ((e : String) × (load w s ≡ (throw e, record s { tick = s.tick + 1 })))
        ⊎ (load w s ≡ (ok s.stored, record s { tick = s.tick + 1 }))
  unfolding load
  load_cases s = elim (Option-cases (w.load_failure s.tick)) [
    | inl h ↦ inr (rw (load, h) refl)
    | inr (e, h) ↦ inl (e, rw (load, h) refl)
  ]

  pub state_cases :
      (s : Session)
      → ((e : String) × (state w s ≡ (throw e, record s { tick = s.tick + 1 })))
        ⊎ (state w s ≡ (ok (state_of s), record s { tick = s.tick + 1 }))
  unfolding state
  state_cases s = elim (load_cases s) [
    | inl (e, h) ↦ inl (e, rw (state, h) refl)
    | inr h ↦ inr (rw (state, h) refl)
  ]

  pub save_cases :
      (st : SentinelState) (s : Session)
      → ((n : ℕ) × (e : String) × (w.save_failure n ≡ some e)
          × (save w st s ≡ (throw e, record s { tick = s.tick + 1 })))
        ⊎ (save w st s ≡ (ok tt, record s { tick = s.tick + 1; stored = some st }))
  unfolding save
  save_cases st s = elim (Option-cases (w.save_failure s.tick)) [
    | inl h ↦ inr (rw (save, h) refl)
    | inr (e, h) ↦ inl (s.tick, e, h, rw (save, h) refl)
  ]

  abbrev pub Resumes : Session → Session → Type 0
  Resumes s t = Keeps (state_of s) (state_of t) × (t.calls ≡ s.calls)

  Resumes-save :
      (st : SentinelState) (s : Session) → Keeps (state_of s) st → Resumes s (save w st s).1
  Resumes-save st s kept = elim (save_cases st s) [
    | inl (n, e, h, ran) ↦ rw ran (Keeps-refl (state_of s), refl)
    | inr ran ↦ rw ran (kept, refl)
  ]

  pub resume_pending-Resumes : (s : Session) → Resumes s (resume_pending w s).1
  unfolding resume_pending
  resume_pending-Resumes s = elim (state_cases s) [
    | inl (e, h) ↦ rw h (Keeps-refl (state_of s), refl)
    | inr h ↦
        let (st', changed, n, ran, kept) =
          resume_each_lem (keys (state_of s).pending_transactions) (state_of s) false
            (record s { tick = s.tick + 1 }) in
        elim (Bool-cases changed) [
          | inl saves ↦ rw (h, ran, saves) (Resumes-save st' (record s { tick = n }) kept)
          | inr stays ↦ rw (h, ran, stays) (Keeps-refl (state_of s), refl)
        ]
  ]
