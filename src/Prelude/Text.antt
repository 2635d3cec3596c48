-- ===== src/Prelude/Text.antt =====
-- The program's tests on the characters of a text. A JavaScript string is counted in UTF-16 code
-- units and a model text in code points, so the length adds up the units of each code point.
use Prim.Native.Nat.{ℕ, ◌+◌, ◌-◌}
use Prim.Native.Char.{Char, code}
use mathlib.Core.Option.{Option, none, some}
use mathlib.Core.List.{List, [], ◌∷◌}
use reclose.Prelude.Lists.{get_or}
use Prim.Native.String.{String}
use mathlib.Core.Path.{◌≡◌, refl}
use mathlib.Core.Bool.{Bool, true, false, ◌&&◌, ◌||◌}
use native.Mathlib.Omega.{arith}
use reclose.Prelude.Tests.{ltb, leb, nat_beq, if◌then◌else◌, ◌==◌, string_eq}

-- The code units of one code point.
abbrev pub units : ℕ → ℕ
units c = if ltb c 0x10000 then 1 else 2

-- `s.length`
unfoldable pub utf16_length : String → ℕ
utf16_length String.[] = 0
utf16_length (String.◌∷◌ c s) = units (code c) + utf16_length s

abbrev pub is_digit : ℕ → Bool
is_digit c = leb b'0' c && leb c b'9'

abbrev pub is_alphanumeric : ℕ → Bool
is_alphanumeric c = is_digit c || (leb b'A' c && leb c b'Z') || (leb b'a' c && leb c b'z')

abbrev pub is_hex_digit : ℕ → Bool
is_hex_digit c = is_digit c || (leb b'A' c && leb c b'F') || (leb b'a' c && leb c b'f')

abbrev pub is_lower_hex_digit : ℕ → Bool
is_lower_hex_digit c = is_digit c || (leb b'a' c && leb c b'f')

-- Every character passes the test.
unfoldable pub every_char : (ℕ → Bool) → String → Bool
every_char p String.[] = true
every_char p (String.◌∷◌ c s) = p (code c) && every_char p s

-- `/^0x[0-9a-f]{64}$/`
unfoldable pub is_hash : String → Bool
unfolding every_char utf16_length
is_hash (String.◌∷◌ a (String.◌∷◌ b s)) =
    nat_beq (code a) b'0'
    && nat_beq (code b) b'x'
    && every_char is_lower_hex_digit s
    && nat_beq (utf16_length s) 64
is_hash _ = false

abbrev lower_letters : List Char
lower_letters =
    "a" ∷ "b" ∷ "c" ∷ "d" ∷ "e" ∷ "f" ∷ "g" ∷ "h" ∷ "i" ∷ "j" ∷ "k" ∷ "l" ∷ "m" ∷ "n" ∷ "o" ∷ "p"
    ∷ "q" ∷ "r" ∷ "s" ∷ "t" ∷ "u" ∷ "v" ∷ "w" ∷ "x" ∷ "y" ∷ "z" ∷ []

abbrev lower_code : ℕ → ℕ
lower_code c = if leb b'A' c && leb c b'Z' then c + 32 else c

-- `a.toLowerCase()` on a text whose letters are ASCII
unfoldable pub lower_case : String → String
lower_case String.[] = ""
lower_case (String.◌∷◌ c s) =
    String.◌∷◌
      (if leb b'A' (code c) && leb (code c) b'Z' then get_or lower_letters (code c - b'A') c else c)
      (lower_case s)

-- `a.toLowerCase() === b.toLowerCase()` on texts whose letters are ASCII, as addresses and hashes are.
unfoldable pub same_lower_case : String → String → Bool
same_lower_case String.[] String.[] = true
same_lower_case String.[] (String.◌∷◌ d t) = false
same_lower_case (String.◌∷◌ c s) String.[] = false
same_lower_case (String.◌∷◌ c s) (String.◌∷◌ d t) =
    nat_beq (lower_code (code c)) (lower_code (code d)) && same_lower_case s t

pub same_lower_case_refl : (s : String) → same_lower_case s s ≡ true
unfolding same_lower_case
same_lower_case_refl String.[] = refl
same_lower_case_refl (String.◌∷◌ c s) = ground (arith, same_lower_case_refl s)

abbrev pub hex_digits : List Char
hex_digits =
    "0" ∷ "1" ∷ "2" ∷ "3" ∷ "4" ∷ "5" ∷ "6" ∷ "7" ∷ "8" ∷ "9" ∷ "a" ∷ "b" ∷ "c" ∷ "d" ∷ "e" ∷ "f"
    ∷ []

-- The digit of a number below 16.
abbrev pub hex_digit : ℕ → Char
hex_digit n = get_or hex_digits n "0"

-- `s.endsWith(suffix)`, with what stands before the suffix
unfoldable pub without_suffix : String → String → Option String
without_suffix suffix String.[] = if "" == suffix then some "" else none
without_suffix suffix (String.◌∷◌ c s) =
    let rest = without_suffix suffix s in
    if String.◌∷◌ c s == suffix
    then some ""
    else elim rest [ none ↦ none | some before ↦ some (String.◌∷◌ c before) ]

-- The first text begins with one more character.
abbrev pub push_front : Char → List String → List String
push_front c [] = []
push_front c (s ∷ ss) = String.◌∷◌ c s ∷ ss

-- `s.split(separator)`, for a separator of one character
unfoldable pub split : ℕ → String → List String
split d String.[] = "" ∷ []
split d (String.◌∷◌ c s) = if nat_beq (code c) d then "" ∷ split d s else push_front c (split d s)
