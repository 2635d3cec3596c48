-- ===== src/Throttle/Pacing.antt =====
-- The starts of the requests of scripts/studio-dev-rpc-throttle.mjs: how far apart, and how many.
use reclose.Prelude.{
  ℕ, zero, suc, ◌+◌, ◌-◌, ◌≤◌, max, String, false, List, [], ◌∷◌, ◌≡◌, refl, ap, ◌∙◌, ◌⊎◌, inl, inr,
  length, ltb, arith, Bool-cases,
}
use reclose.Throttle.{
  Answer, World, Throttle, is_transient, delay, note_poll, start, fetched, backoff, attempts,
  throttled_fetch, serve,
}

-- Each start is at least `gap` after the one before it.
abbrev pub Gaps : ℕ → List ℕ → Type 0
Gaps gap [] = Unit
Gaps gap (x ∷ []) = Unit
Gaps gap (x ∷ y ∷ ys) = (y + gap ≤ x) × Gaps gap (y ∷ ys)

-- The last start is the one kept.
abbrev pub Kept : List ℕ → ℕ → Type 0
Kept [] last = Unit
Kept (x ∷ xs) last = x ≡ last

pub record Paced (gap : ℕ) (s : Throttle) : Type 0 where
  pub gaps : Gaps gap s.starts
  pub kept : Kept s.starts s.last_start

Gaps-cons :
    (gap now last : ℕ) (xs : List ℕ)
    → Gaps gap xs
    → Kept xs last
    → last + gap ≤ now
    → Gaps gap (now ∷ xs)
Gaps-cons gap now last [] gaps kept h = tt
Gaps-cons gap now last (x ∷ xs) gaps kept h = (rw kept h, gaps)

few_more :
    (n before started retries : ℕ)
    → started ≡ before + 1
    → n ≤ started + 1 + retries
    → n ≤ before + 1 + suc retries
few_more n before started retries h k = ground arith

all_more :
    (n before started retries : ℕ)
    → started ≡ before + 1
    → n ≡ started + 1 + retries
    → n ≡ before + 1 + suc retries
all_more n before started retries h k = ground arith

module _ (w : World) (gap : ℕ) where
  start_late : (wanted : ℕ) (s : Throttle) → s.last_start + gap ≤ (start w gap wanted s).last_start
  unfolding start delay
  start_late wanted s = ground arith

  start_logged :
      (wanted : ℕ) (s : Throttle)
      → (start w gap wanted s).starts ≡ (start w gap wanted s).last_start ∷ s.starts
  unfolding start delay
  start_logged wanted s = elim (Bool-cases (ltb 0 (s.last_start + max gap wanted - s.clock))) [
    | inl h ↦ rw h refl
    | inr h ↦ rw h refl
  ]

  Paced-start : (wanted : ℕ) (s : Throttle) → Paced gap s → Paced gap (start w gap wanted s)
  Paced-start wanted s p = record {
    gaps =
        rw (start_logged wanted s)
          (Gaps-cons gap _ s.last_start s.starts p.gaps p.kept (start_late wanted s));
    kept = rw (start_logged wanted s) refl;
  }

  Paced-attempts :
      (retries attempt wanted : ℕ) (s : Throttle)
      → Paced gap s
      → Paced gap (attempts w gap retries attempt wanted s).1
  unfolding attempts fetched delay
  Paced-attempts zero attempt wanted s p = record {
    gaps = (Paced-start wanted s p).gaps;
    kept = (Paced-start wanted s p).kept;
  }
  Paced-attempts (suc retries) attempt wanted s p =
      let q = Paced-start wanted s p in
      elim (Bool-cases (is_transient w (w.answer (start w gap wanted s).calls))) [
        | inl h ↦ rw h (
            Paced-attempts retries (attempt + 1) wanted _ (record { gaps = q.gaps; kept = q.kept }))
        | inr h ↦ rw h (record { gaps = q.gaps; kept = q.kept })
      ]

  -- If any two starts so far that follow each other are at least the interval apart, they are so
  -- after a whole queue of requests with their retries, whatever is answered and however long the
  -- fetches, the delays and the pauses between the requests take.
  pub serve-Paced :
      (max_transient_retries : ℕ) (requests : List (ℕ × String)) (s : Throttle)
      → Paced gap s
      → Paced gap (serve w gap max_transient_retries requests s)
  unfolding serve throttled_fetch note_poll
  serve-Paced max_transient_retries [] s p = p
  serve-Paced max_transient_retries ((pause, method) ∷ requests) s p =
      serve-Paced max_transient_retries requests _
        (Paced-attempts max_transient_retries 0 _ _ (record { gaps = p.gaps; kept = p.kept }))

  start_count :
      (wanted : ℕ) (s : Throttle) → length (start w gap wanted s).starts ≡ length s.starts + 1
  start_count wanted s = ap length (start_logged wanted s) ∙ ground arith

  -- Either the answer is not one to retry, or all retries were made.
  abbrev pub Settles : ℕ → ℕ → Answer × Throttle → Type 0
  Settles before retries done =
      ((is_transient w done.0 ≡ false) × (length done.1.starts ≤ before + 1 + retries))
      ⊎ (length done.1.starts ≡ before + 1 + retries)

  Settles-more :
      (before started retries : ℕ) (done : Answer × Throttle)
      → started ≡ before + 1
      → Settles started retries done
      → Settles before (suc retries) done
  Settles-more before started retries done h (inl (settled, few)) =
      inl (settled, few_more _ before started retries h few)
  Settles-more before started retries done h (inr all) =
      inr (all_more _ before started retries h all)

  Settles-attempts :
      (retries attempt wanted : ℕ) (s : Throttle)
      → Settles (length s.starts) retries (attempts w gap retries attempt wanted s)
  unfolding attempts fetched delay
  Settles-attempts zero attempt wanted s = inr (start_count wanted s ∙ ground arith)
  Settles-attempts (suc retries) attempt wanted s =
      let count = start_count wanted s in
      elim (Bool-cases (is_transient w (w.answer (start w gap wanted s).calls))) [
        | inl h ↦
            let next =
              delay w (backoff w attempt (w.answer (start w gap wanted s).calls))
                (fetched w gap (start w gap wanted s)) in
            rw h (
              Settles-more _ _ retries (attempts w gap retries (attempt + 1) wanted next) count
                (Settles-attempts retries (attempt + 1) wanted next))
        | inr h ↦ rw h (inl (h, ground arith))
      ]

  -- A request is done after one start and at most the retries allowed; either its answer is not
  -- one to retry, or all retries were made.
  pub throttled_fetch-Settles :
      (max_transient_retries : ℕ) (method : String) (s : Throttle)
      → Settles
          (length s.starts)
          max_transient_retries
          (throttled_fetch w gap max_transient_retries method s)
  unfolding throttled_fetch note_poll
  throttled_fetch-Settles max_transient_retries method s =
      Settles-attempts max_transient_retries 0 _ _
