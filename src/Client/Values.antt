-- ===== src/Client/Values.antt =====
-- What the protocol client (packages/protocol-sdk/src/client.ts) reads from a contract view, and the
-- errors that it throws. A date is a number of milliseconds.
use reclose.Prelude.{
  ℕ, zero, suc, ◌+◌, ◌*◌, ◌/◌, ◌%◌, ◌^◌, String, Bool, true, false, Option, none, some, not, ◌&&◌,
  ◌||◌, List, get_or, get_elem?, Result, ok, throw, throw_if, ok_or, ◌>>=◌, ◌>>◌, if◌then◌else◌,
  ltb, ◌==◌, nat_eq, string_eq, every_char, is_digit, value_from, decimal,
}
use reclose.Json.{JcsError}
use reclose.Evidence.Build.{EapError}
use reclose.Client.Apm.{ApmError}
use reclose.Lifecycle.{LifecycleError}

-- A component of what a view returns, `absent` past the end of a tuple, and what a view returns. An
-- integer comes as a number or as a bigint.
pub data Cell : Type 0 where
  absent nothing : Cell
  boolean : Bool → Cell
  integer : ℕ → Cell
  text : String → Cell

pub data View : Type 0 where
  cell : Cell → View
  tuple_of : List Cell → View

pub data ClientError : Type 0 where
  wrong_network : (observed : ℕ) → ClientError
  transport_error : String → ClientError
  expected_tuple expected_numeric expected_string invalid_date : ClientError
  unknown_ordinal : (label : String) → ClientError
  unknown_rule_kind no_active_policy unknown_incident unknown_decision : String → ClientError
  undecided no_mapping no_target_id no_execution_time : String → ClientError
  no_index_adapter no_fee_estimation no_vault no_reporter : ClientError
  invalid_address invalid_target_id : ClientError
  handshake_controller handshake_target_id handshake_owner : String → ClientError
  handshake_revoked : ClientError
  inactive_rule zero_bond_rule bond_required bond_mismatch : String → ClientError
  ungoverned_resource : String → ClientError
  bond_id_too_long : ClientError
  invalid_evidence : EapError → ClientError
  not_an_integer bounty_not_integer : String → ClientError
  invalid_apm : List ApmError → ClientError
  not_canonical : JcsError → ClientError
  inconsistent_lifecycle : LifecycleError → ClientError

abbrev pub with_error : {E A : Type 0} → (E → ClientError) → Result E A → Result ClientError A
with_error f (ok a) = ok a
with_error f (throw e) = throw (f e)

abbrev pub max_safe : ℕ
max_safe = 2 ^ 53

-- `Number(n)`: the nearest number with 53 significant bits, the even one of two. `e` bits are
-- dropped at least; 1024 rounds are enough for all that is below the largest number.
unfoldable pub nearest : (rounds e n : ℕ) → ℕ
nearest zero e n = n
nearest (suc rounds) e n =
    let more = nearest rounds (e + 1) n in
    let unit = 2 ^ e in
    let kept = n / unit in
    let rest = 2 * (n % unit) in
    if ltb kept max_safe
    then (if ltb unit rest || (unit == rest && kept % 2 == 1)
        then (kept + 1) * unit
        else kept * unit)
    else more

abbrev pub to_number : ℕ → ℕ
to_number n = if ltb n max_safe then n else nearest 1024 0 n

unfoldable pub tuple : View → Result ClientError (List Cell)
tuple (tuple_of cells) = ok cells
tuple (cell c) = throw expected_tuple

unfoldable pub num : Cell → Result ClientError ℕ
unfolding nearest every_char
num (integer n) = ok (to_number n)
num (text s) =
    if not (s == "") && every_char is_digit s
    then ok (to_number (value_from 0 s))
    else throw expected_numeric
num _ = throw expected_numeric

unfoldable pub str : Cell → Result ClientError String
str (text s) = ok s
str _ = throw expected_string

-- The same on what a view returns.
unfoldable pub view_num : View → Result ClientError ℕ
unfolding num
view_num (cell c) = num c
view_num (tuple_of cells) = throw expected_numeric

unfoldable pub view_str : View → Result ClientError String
unfolding str
view_str (cell c) = str c
view_str (tuple_of cells) = throw expected_string

-- A date has at most 8.64e15 milliseconds.
unfoldable pub iso : Cell → Result ClientError ℕ
unfolding num
iso c = do seconds ← num c; throw_if (ltb 8640000000000 seconds) invalid_date; ok (seconds * 1000)

-- `num(value) === 0 ? null : iso(value)`
unfoldable pub date_unless_zero : Cell → Result ClientError (Option ℕ)
unfolding num iso
date_unless_zero c = do
  n ← num c
  date ← if n == 0 then ok none else (do date ← iso c; ok (some date))
  ok date

unfoldable pub by_ordinal : {A : Type 0} → List A → Cell → String → Result ClientError A
unfolding num
by_ordinal values c label = do n ← num c; ok_or (unknown_ordinal label) (get_elem? values n)

-- `Boolean(value)`
unfoldable pub truthy : Cell → Bool
truthy (boolean b) = b
truthy (integer n) = not (n == 0)
truthy (text s) = not (s == "")
truthy _ = false

-- `String(value)`
unfoldable pub string_of : Cell → String
string_of absent = "undefined"
string_of nothing = "null"
string_of (boolean true) = "true"
string_of (boolean false) = "false"
string_of (integer n) = decimal n
string_of (text s) = s

-- `t[i]`
abbrev pub at : List Cell → ℕ → Cell
at cells i = get_or cells i absent
