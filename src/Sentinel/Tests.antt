-- ===== src/Sentinel/Tests.antt =====
-- A concrete Sentinel of packages/sentinel/src: tests, and the theorems at a run of it.
use reclose.Prelude.{
  ◌*◌, String, true, Option, none, some, [], ◌∷◌, ◌≡◌, refl, Result, ok, throw, length, sym,
  ok_injective,
}
use reclose.Sentinel.State.{literal, MonitoredSource, SentinelSubmissionContext, World, Session}
use reclose.Sentinel.Monitor.{initial_metrics}
use reclose.Sentinel.{run_once, RunResult}
use reclose.Sentinel.Keeping.{Outcome}
use reclose.Sentinel.Once.{runs, AtMostOnce, run_once-Outcome, runs-AtMostOnce}

abbrev source : MonitoredSource
source = record {
  source_id = "status";
  url = "https://status.example/feed";
  source_class = "OFFICIAL_STATUS";
  pattern = literal "compromised";
}

abbrev context : SentinelSubmissionContext
context = record {
  target_id = "vault";
  policy_key = "main";
  policy_hash = "0x00";
  rule_id = "PROVIDER_COMPROMISE_V1";
  resource_id = "";
  subject = "provider";
}

-- The page shows the candidate; the polls time out; a call takes a second.
abbrev world : World
world = record {
  now = λ t. t * 1000;
  fetch = λ _ _. ok (record { status = 200; text = ok "the key was compromised" });
  poll = λ _ _. throw "timeout";
  track = λ _ _. ok tt;
  load_failure = λ _. none;
  save_failure = λ _. none;
  get_reporter_address = λ _. ok "0x01";
  get_next_reporter_nonce = λ _. ok 7;
  submit_incident = λ _ _. ok "0xaa";
  is_valid_source_url = λ _. true;
  slice = λ _ s. s;
  number_text = λ _. "";
  keccak256_hex = λ s. ok s;
  sort = λ xs. xs;
  build_candidate_report = λ _ _ _. ok (record { eap_json = "{}"; artifact_hash = "0x02" });
  bond_id_factory = none;
}

abbrev fresh : Session
fresh = record { stored = none; metrics = initial_metrics (source ∷ []); tick = 0; calls = [] }

abbrev submitted_tx : Result String RunResult → Option String
submitted_tx (ok r) = r.submitted_tx_id
submitted_tx (throw e) = none

first_run : submitted_tx (run_once world context 300 (source ∷ []) fresh).0 ≡ some "0xaa"
unfolding run_once initial_metrics
first_run = refl

-- The second run polls the pending transaction, keeps it, and suppresses the duplicate.
second_run : length (runs world context 300 (source ∷ []) 2 fresh).calls ≡ 1
unfolding run_once initial_metrics
second_run = refl

-- A call that was rejected is made again by the next run.
repeated :
    length
      (runs
        (record world { submit_incident = λ _ _. throw "timeout" })
        context
        300
        (source ∷ [])
        2
        fresh).calls
    ≡ 2
unfolding run_once initial_metrics
repeated = refl

run_once-Outcome_example : Outcome world fresh (run_once world context 300 (source ∷ []) fresh).1
run_once-Outcome_example = run_once-Outcome world context 300 (source ∷ []) fresh

runs-AtMostOnce_example : AtMostOnce (runs world context 300 (source ∷ []) 2 fresh)
runs-AtMostOnce_example =
    runs-AtMostOnce world (λ _. refl) (λ _ _ tx_id h. rw (sym (ok_injective h)) refl) context 300
      (source ∷ []) 2 fresh (record { none_repeated = tt; all_seen = λ key h. cc })
