-- ===== src/Prelude/BigInt.antt =====
-- `BigInt(text)`: an integer written in decimal with an optional sign, or in another base with its
-- prefix, between white space. The empty text is zero.
use Prim.Native.Nat.{ℕ, zero, suc, ◌+◌, ◌-◌, ◌*◌}
use Prim.Native.Char.{code}
use Prim.Native.String.{String}
use mathlib.Core.Bool.{Bool, true, false, ◌&&◌, ◌||◌}
use mathlib.Core.Option.{Option, none, some}
use mathlib.Core.List.{[], ◌∷◌}
use reclose.Prelude.Tests.{ltb, leb, if◌then◌else◌, ◌==◌, nat_eq, string_eq}
use reclose.Prelude.Lists.{includes}

pub data ℤ : Type 0 where
  pos negsuc : ℕ → ℤ

abbrev pub negate : ℕ → ℤ
negate zero = pos 0
negate (suc n) = negsuc n

-- `z <= 0n`
abbrev pub is_at_most_zero : ℤ → Bool
is_at_most_zero (pos n) = n == 0
is_at_most_zero (negsuc n) = true

-- `a > b`
abbrev pub gtb : ℤ → ℤ → Bool
gtb (pos a) (pos b) = ltb b a
gtb (pos a) (negsuc b) = true
gtb (negsuc a) (pos b) = false
gtb (negsuc a) (negsuc b) = ltb a b

abbrev is_white : ℕ → Bool
is_white c =
    (leb 9 c && leb c 13)
    || (leb 0x2000 c && leb c 0x200a)
    || includes c (32 ∷ 160 ∷ 0x1680 ∷ 0x2028 ∷ 0x2029 ∷ 0x202f ∷ 0x205f ∷ 0x3000 ∷ 0xfeff ∷ [])

unfoldable pub trim_start : String → String
trim_start String.[] = ""
trim_start (String.◌∷◌ c s) =
    let rest = trim_start s in if is_white (code c) then rest else String.◌∷◌ c s

unfoldable pub trim_end : String → String
trim_end String.[] = ""
trim_end (String.◌∷◌ c s) =
    let rest = trim_end s in if is_white (code c) && rest == "" then "" else String.◌∷◌ c rest

-- The value of a digit, 16 where it is none.
abbrev digit_of : ℕ → ℕ
digit_of c =
    if leb b'0' c && leb c b'9'
    then c - b'0'
    else if leb b'a' c && leb c b'f'
    then c - b'a' + 10
    else if leb b'A' c && leb c b'F'
    then c - b'A' + 10
    else 16

unfoldable pub digits_in : (base n : ℕ) → String → Option ℕ
digits_in base n String.[] = some n
digits_in base n (String.◌∷◌ c s) =
    let rest = digits_in base (n * base + digit_of (code c)) s in
    if ltb (digit_of (code c)) base then rest else none

unfoldable pub numeral : ℕ → String → Option ℕ
unfolding digits_in
numeral base s = if s == "" then none else digits_in base 0 s

abbrev integer_of : (ℕ → ℤ) → Option ℕ → Option ℤ
integer_of f none = none
integer_of f (some n) = some (f n)

-- The base that a letter after a leading zero stands for, 10 where it is none.
abbrev base_of : ℕ → ℕ
base_of c =
    if c == b'x' || c == b'X'
    then 16
    else if c == b'o' || c == b'O'
    then 8
    else if c == b'b' || c == b'B'
    then 2
    else 10

unfoldable pub integer_text : String → Option ℤ
unfolding numeral
integer_text (String.◌∷◌ a (String.◌∷◌ b s)) =
    if code a == b'-'
    then integer_of negate (numeral 10 (String.◌∷◌ b s))
    else if code a == b'+'
    then integer_of pos (numeral 10 (String.◌∷◌ b s))
    else if code a == b'0' && ltb (base_of (code b)) 10 || code a == b'0' && base_of (code b) == 16
    then integer_of pos (numeral (base_of (code b)) s)
    else integer_of pos (numeral 10 (String.◌∷◌ a (String.◌∷◌ b s)))
integer_text s = if s == "" then some (pos 0) else integer_of pos (numeral 10 s)

unfoldable pub big_int : String → Option ℤ
unfolding trim_start trim_end integer_text
big_int s = integer_text (trim_end (trim_start s))
