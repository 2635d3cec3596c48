-- ===== src/Throttle/Tests.antt =====
-- A concrete queue for scripts/studio-dev-rpc-throttle.mjs: tests, and the theorems at it.
use reclose.Prelude.{false, none, [], ◌∷◌, ◌≡◌, refl, if◌then◌else◌, ltb}
use reclose.Throttle.{responded, World, Throttle, throttled_fetch, serve}
use reclose.Throttle.Pacing.{Paced, Settles, serve-Paced, throttled_fetch-Settles}

-- The server is busy for a while; a fetch takes 10 ms and a delay is 1 ms late.
abbrev busy : World
busy = record {
  late = λ _. 1;
  takes = λ _. 10;
  answer = λ n. if ltb n 4 then responded 429 "" none else responded 200 "{}" none;
  is_poll_method = λ _. false;
  is_transient_text = λ _. false;
}

abbrev idle : Throttle
idle = record {
  clock = 100000;
  last_start = 0;
  last_was_poll = false;
  poll_count = 0;
  calls = 0;
  starts = [];
}

two_requests :
    (serve busy 2600 5 ((0, "eth_call") ∷ (500, "eth_call") ∷ []) idle).starts
    ≡ 111623 ∷ 109022 ∷ 103011 ∷ 100000 ∷ []
unfolding serve
two_requests = refl

serve-Paced_example : Paced 2600 (serve busy 2600 5 ((0, "eth_call") ∷ (500, "eth_call") ∷ []) idle)
serve-Paced_example =
    serve-Paced busy 2600 5 ((0, "eth_call") ∷ (500, "eth_call") ∷ []) idle
      (record { gaps = tt; kept = tt })

throttled_fetch-Settles_example :
    Settles busy 2600 0 5 (throttled_fetch busy 2600 5 "eth_call" idle)
throttled_fetch-Settles_example = throttled_fetch-Settles busy 2600 5 "eth_call" idle
