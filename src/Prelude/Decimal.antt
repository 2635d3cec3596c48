-- ===== src/Prelude/Decimal.antt =====
-- `String(n)` of a non-negative integer, and what it reads back as.
use Prim.Native.Nat.{ℕ, zero, suc, ◌+◌, ◌-◌, ◌*◌, ◌/◌, ◌%◌, ◌≤◌}
use Prim.Native.Char.{code}
use Prim.Native.String.{String}
use mathlib.Core.Path.{◌≡◌, refl, ap, ◌∙◌}
use mathlib.Core.Bool.{true}
use mathlib.Core.Logic.{inl, inr}
use native.Mathlib.Omega.{arith}
use reclose.Prelude.Tests.{ltb, if◌then◌else◌, Bool-cases}
use reclose.Prelude.Text.{hex_digit, is_digit, every_char}

-- Fuel `n + 1` is enough: each round divides by ten.
digits_of : ℕ → ℕ → String → String
digits_of zero n rest = rest
digits_of (suc fuel) n rest =
    let more = digits_of fuel (n / 10) (String.◌∷◌ (hex_digit (n % 10)) rest) in
    if ltb n 10 then String.◌∷◌ (hex_digit n) rest else more

unfoldable pub decimal : ℕ → String
unfolding digits_of
decimal n = digits_of (suc n) n ""

-- The number that digits read as, after `n`.
abbrev pub value_from : ℕ → String → ℕ
value_from n String.[] = n
value_from n (String.◌∷◌ c s) = value_from (n * 10 + (code c - b'0')) s

digit_value : (d : ℕ) → d ≤ 9 → (code (hex_digit d) - b'0') ≡ d
digit_value zero h = refl
digit_value (suc zero) h = refl
digit_value (suc (suc zero)) h = refl
digit_value (suc (suc (suc zero))) h = refl
digit_value (suc (suc (suc (suc zero)))) h = refl
digit_value (suc (suc (suc (suc (suc zero))))) h = refl
digit_value (suc (suc (suc (suc (suc (suc zero)))))) h = refl
digit_value (suc (suc (suc (suc (suc (suc (suc zero))))))) h = refl
digit_value (suc (suc (suc (suc (suc (suc (suc (suc zero)))))))) h = refl
digit_value (suc (suc (suc (suc (suc (suc (suc (suc (suc zero))))))))) h = refl
digit_value (suc (suc (suc (suc (suc (suc (suc (suc (suc (suc d)))))))))) h = absurd (omega arith)

digits_lem :
    (fuel n : ℕ) (rest : String)
    → suc n ≤ fuel
    → value_from 0 (digits_of fuel n rest) ≡ value_from n rest
unfolding digits_of
digits_lem zero n rest h = absurd (omega arith)
digits_lem (suc fuel) n rest h = elim (Bool-cases (ltb n 10)) [
  | inl small ↦
      let small' : n ≤ 9 = ground arith in
      rw small (ap (λ m. value_from m rest) (omega (arith, digit_value n small')))
  | inr large ↦
      let large' : 10 ≤ n = ground arith in
      let last : n % 10 ≤ 9 = omega arith in
      rw large (
        digits_lem fuel (n / 10) (String.◌∷◌ (hex_digit (n % 10)) rest) (omega arith)
        ∙ ap (λ m. value_from m rest) (omega (arith, digit_value (n % 10) last)))
]

-- A number is read back from its text.
pub value_from-decimal : (n : ℕ) → value_from 0 (decimal n) ≡ n
unfolding decimal
value_from-decimal n = digits_lem (suc n) n "" (omega arith)

is_digit-hex_digit : (d : ℕ) → d ≤ 9 → is_digit (code (hex_digit d)) ≡ true
is_digit-hex_digit zero h = refl
is_digit-hex_digit (suc zero) h = refl
is_digit-hex_digit (suc (suc zero)) h = refl
is_digit-hex_digit (suc (suc (suc zero))) h = refl
is_digit-hex_digit (suc (suc (suc (suc zero)))) h = refl
is_digit-hex_digit (suc (suc (suc (suc (suc zero))))) h = refl
is_digit-hex_digit (suc (suc (suc (suc (suc (suc zero)))))) h = refl
is_digit-hex_digit (suc (suc (suc (suc (suc (suc (suc zero))))))) h = refl
is_digit-hex_digit (suc (suc (suc (suc (suc (suc (suc (suc zero)))))))) h = refl
is_digit-hex_digit (suc (suc (suc (suc (suc (suc (suc (suc (suc zero))))))))) h = refl
is_digit-hex_digit (suc (suc (suc (suc (suc (suc (suc (suc (suc (suc d)))))))))) h =
    absurd (omega arith)

every_char-digits_of :
    (fuel n : ℕ) (rest : String)
    → every_char is_digit rest ≡ true
    → every_char is_digit (digits_of fuel n rest) ≡ true
unfolding digits_of every_char
every_char-digits_of zero n rest h = h
every_char-digits_of (suc fuel) n rest h = elim (Bool-cases (ltb n 10)) [
  | inl small ↦ let small' : n ≤ 9 = ground arith in rw (small, is_digit-hex_digit n small') h
  | inr large ↦
      let last : n % 10 ≤ 9 = omega arith in
      rw large (
        every_char-digits_of fuel (n / 10) (String.◌∷◌ (hex_digit (n % 10)) rest)
          (rw (is_digit-hex_digit (n % 10) last) h))
]

-- It is made of digits.
pub every_char-decimal : (n : ℕ) → every_char is_digit (decimal n) ≡ true
unfolding decimal every_char
every_char-decimal n = every_char-digits_of (suc n) n "" refl
