-- ===== src/Throttle.antt =====
-- scripts/studio-dev-rpc-throttle.mjs: the requests to the RPC endpoint, one after the other in the
-- order in which they come (`serialized`), each with its retries. A time is a number of
-- milliseconds. A delay takes at least what it asks for, and a fetch any time; both, and the
-- answers, are numbered by the calls so far.
pub mod Pacing
mod Tests
use reclose.Prelude.{
  ℕ, zero, suc, ◌+◌, ◌-◌, ◌*◌, min, max, String, Bool, true, false, ◌||◌, ◌&&◌, Option, none, some,
  List, [], ◌∷◌, if◌then◌else◌, ltb, includes, nat_eq, get_elem?, or_else,
}

abbrev pub transient_backoff_ms : List ℕ
transient_backoff_ms = 3000 ∷ 6000 ∷ 12000 ∷ 24000 ∷ 30000 ∷ []

abbrev pub poll_backoff_ms : List ℕ
poll_backoff_ms = 4000 ∷ 8000 ∷ 16000 ∷ 30000 ∷ []

-- What a fetch came to: an exception, a response whose body cannot be read, or a response with its
-- `retry-after` in seconds, if it has one.
pub data Answer : Type 0 where
  failed unreadable : Answer
  responded : (status : ℕ) → String → Option ℕ → Answer

pub record World : Type 0 where
  pub late : ℕ → ℕ
  pub takes : ℕ → ℕ
  pub answer : ℕ → Answer
  pub is_poll_method : String → Bool
  pub is_transient_text : String → Bool

-- The variables of the installed throttle, the clock, and the starts so far, the last one first.
pub record Throttle : Type 0 where
  pub clock : ℕ
  pub last_start : ℕ
  pub last_was_poll : Bool
  pub poll_count : ℕ
  pub calls : ℕ
  pub starts : List ℕ

module _ (w : World) where
  unfoldable pub transient_response : ℕ → String → Bool
  transient_response status body =
      includes status (408 ∷ 425 ∷ 429 ∷ 502 ∷ 503 ∷ 504 ∷ []) || w.is_transient_text body

  -- The attempt is retried, unless it is the last.
  unfoldable pub is_transient : Answer → Bool
  unfolding transient_response
  is_transient failed = true
  is_transient unreadable = false
  is_transient (responded status body retry_after) = transient_response status body

  unfoldable pub delay : ℕ → Throttle → Throttle
  delay ms s = record s { clock = s.clock + ms + w.late s.calls; calls = s.calls + 1 }

  -- The delay before the next attempt.
  unfoldable pub backoff : ℕ → Answer → ℕ
  backoff attempt answer =
      let planned = or_else (get_elem? transient_backoff_ms (min attempt 4)) 0 in
      elim answer [
        | failed ↦ planned
        | unreadable ↦ planned
        | responded _ _ none ↦ planned
        | responded _ _ (some seconds) ↦
            if ltb 0 seconds then max (seconds * 1000) planned else planned
      ]

  -- The counting of polls in a row, and the spacing that it asks for.
  unfoldable pub note_poll : Bool → Throttle → Throttle
  note_poll is_poll s = record s {
    poll_count = if is_poll && s.last_was_poll then s.poll_count + 1 else 0;
    last_was_poll = is_poll;
  }

  unfoldable pub poll_delay : Bool → ℕ → ℕ
  poll_delay is_poll count =
      if is_poll then or_else (get_elem? poll_backoff_ms (min count 3)) 0 else 0

  module _ (min_interval_ms : ℕ) where
    -- The wait for the spacing, and the start.
    unfoldable pub start : ℕ → Throttle → Throttle
    unfolding delay
    start wanted s =
        let wait = s.last_start + max min_interval_ms wanted - s.clock in
        let waited = if ltb 0 wait then delay wait s else s in
        record waited { last_start = waited.clock; starts = waited.clock ∷ waited.starts }

    unfoldable pub fetched : Throttle → Throttle
    fetched s = record s { clock = s.clock + w.takes s.calls; calls = s.calls + 1 }

    -- The loop of attempts; `retries` is `maxTransientRetries - attempt`.
    unfoldable pub attempts : (retries attempt wanted : ℕ) → Throttle → Answer × Throttle
    unfolding start fetched is_transient delay backoff
    attempts zero attempt wanted s =
        let started = start wanted s in (w.answer started.calls, fetched started)
    attempts (suc retries) attempt wanted s =
        let started = start wanted s in
        let answer = w.answer started.calls in
        let again =
          attempts retries (attempt + 1) wanted
            (delay (backoff attempt answer) (fetched started)) in
        if is_transient answer then again else (answer, fetched started)

    -- One request. An answer `failed` or `unreadable` is thrown.
    unfoldable pub throttled_fetch : ℕ → String → Throttle → Answer × Throttle
    unfolding note_poll poll_delay attempts
    throttled_fetch max_transient_retries method s =
        let noted = note_poll (w.is_poll_method method) s in
        attempts max_transient_retries 0 (poll_delay (w.is_poll_method method) noted.poll_count)
          noted

    -- The queue of requests, each with the time that passes before it.
    unfoldable pub serve : ℕ → List (ℕ × String) → Throttle → Throttle
    unfolding throttled_fetch
    serve max_transient_retries [] s = s
    serve max_transient_retries ((pause, method) ∷ requests) s =
        let waited = record s { clock = s.clock + pause } in
        serve max_transient_retries requests (throttled_fetch max_transient_retries method waited).1
