-- ===== src/Client.antt =====
-- The protocol client of packages/protocol-sdk/src/client.ts: the transport that it calls, the
-- network guard of networkGuard.ts. An error is a constructor with what its message names.
pub mod Values
pub mod Bonds
pub mod DecisionIds
pub mod Network
pub mod ActionIds
pub mod Records
pub mod Identity
pub mod Reads
pub mod Incidents
pub mod Status
pub mod Provider
pub mod Drafts
pub mod Reports
pub mod Submissions
pub mod Owner
pub mod Tracking
pub mod Apm
pub mod Diff
pub mod Kernel
pub mod Keys
pub mod KeyExpansion
pub mod Expansion
pub mod Extract
pub mod Manifests
pub mod Activation
mod Tests
use reclose.Prelude.{
  ℕ, ℤ, String, Bool, true, Option, List, ◌∷◌, length, Result, ok, throw, if◌then◌else◌, ◌==◌,
  nat_eq,
}
use reclose.Async.{Async, pure, lift, modify}
use reclose.Async
use reclose.Json.{Value}
use reclose.Lifecycle.{RawGenLayerTransaction}
use reclose.Client.Values.{View, ClientError, wrong_network, transport_error, with_error}

pub data ExecutionResult : Type 0 where
  finished_with_return finished_with_error not_voted timeout nondet_disagree : ExecutionResult
  deterministic_violation : ExecutionResult

pub record RecloseAddresses : Type 0 where
  pub kernel : String
  pub judge : String
  pub vault : Option String

pub record ResolvedActionTransaction : Type 0 where
  pub parent_tx_id : String
  pub child_tx_id : String
  pub target_id : String
  pub adapter_id : String
  pub execution_time : String
  pub pre_state_hash : Option String
  pub post_state_hash : Option String
  pub expected_post_state_required : Bool
  pub observed_post_state : Option Value
  pub post_state_matches_expected : Option Bool

-- The estimate of a transport: `distribution` and the allocations are undefined or null as `none`.
pub record FeeEstimate : Type 0 where
  pub fee_value : Option ℕ
  pub distribution : Option Value
  pub message_allocations : Option (List Value)

-- A call of the transport.
pub data Request : Type 0 where
  ask_chain_id ask_block_number : Request
  read : (address function_name : String) → List Value → Request
  ask_transaction ask_triggered ask_mapping : String → Request
  ask_estimate : (address function_name : String) → List Value → (value : ℤ) → Request

-- The transport, by the number of the call; an error is given by its message. A method that the
-- transport may lack is an option.
pub record RecloseTransport : Type 0 where
  pub get_chain_id : ℕ → Result String ℕ
  pub get_block_number : ℕ → Result String ℕ
  pub read_contract : ℕ → (address function_name : String) → List Value → Result String View
  pub get_transaction : ℕ → String → Result String (RawGenLayerTransaction × Option ExecutionResult)
  pub get_triggered_transaction_ids : ℕ → String → Result String (List String)
  pub estimate_transaction_fees_for_write :
      Option (ℕ → (address function_name : String) → List Value → ℤ → Result String FeeEstimate)
  pub resolve_action_transaction :
      Option (ℕ → String → Result String (Option ResolvedActionTransaction))

-- `networkChecked`, and the calls of the transport so far, the last one first.
pub record Session : Type 0 where
  pub network_checked : Bool
  pub requests : List Request

abbrev pub Client : Type 0 → Type 0
Client A = Async Session ClientError A

infixl 5 ◌>>=◌ ◌>>◌
unfoldable pub ◌>>=◌ : {A B : Type 0} → Client A → (A → Client B) → Client B
m >>= f = Async.◌>>=◌ m f

abbrev pub ◌>>◌ : {A B : Type 0} → Client A → Client B → Client B
m >> k = m >>= λ _. k

abbrev pub canonical_chain_id : ℕ
canonical_chain_id = 61997

unfoldable pub is_canonical_chain_id : ℕ → Bool
is_canonical_chain_id chain_id = chain_id == canonical_chain_id

unfoldable pub assert_canonical_chain_id : ℕ → Result ClientError (Unit {0})
assert_canonical_chain_id chain_id =
    if chain_id == canonical_chain_id then ok tt else throw (wrong_network chain_id)

-- A call of the transport; the answer is that of its number.
unfoldable pub send : {A : Type 0} → Request → (ℕ → Result String A) → Client A
send request answer s = (
  with_error transport_error (answer (length s.requests)),
  record s { requests = request ∷ s.requests },
)

module _ (t : RecloseTransport) (addresses : RecloseAddresses) where
  -- `ensureNetwork` past its early return
  unfoldable pub check_network : Client (Unit {0})
  unfolding send assert_canonical_chain_id
  check_network = do
    chain_id ← send ask_chain_id t.get_chain_id
    lift (assert_canonical_chain_id chain_id)
    modify λ s. record s { network_checked = true }

  unfoldable pub ensure_network : Client (Unit {0})
  unfolding check_network
  ensure_network s = if s.network_checked then pure tt s else check_network s

  unfoldable pub read_at : String → String → List Value → Client View
  unfolding send
  read_at address function_name args =
      send (read address function_name args) λ n. t.read_contract n address function_name args

  unfoldable pub kernel : String → List Value → Client View
  unfolding ensure_network read_at
  kernel function_name args = do ensure_network; read_at addresses.kernel function_name args

  unfoldable pub judge_read : String → List Value → Client View
  unfolding ensure_network read_at
  judge_read function_name args = do ensure_network; read_at addresses.judge function_name args
