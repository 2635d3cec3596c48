-- ===== src/Keccak/Bytes.antt =====
-- What the digest of packages/protocol-sdk/src/canonical.ts looks like.
use Prim.Native.Char.{Char, code}
use reclose.Prelude.{
  ℕ, zero, suc, ◌+◌, ◌*◌, ◌/◌, ◌%◌, String, Bool, true, List, [], ◌∷◌, ◌≡◌, refl, ap, ◌∙◌, length,
  tabulate_from, All, arith, every_char, is_lower_hex_digit, utf16_length, units, hex_digit,
  is_hash, get_or, replicate, hex_digits,
}
use reclose.Keccak.{
  digest_byte, absorb_all, blocks, keccak256_bytes, bytes_to_hex, utf8_encode, keccak256_hex,
}

length-tabulate_from : (n i : ℕ) (f : ℕ → ℕ) → length (tabulate_from n i f) ≡ n
length-tabulate_from zero i f = refl
length-tabulate_from (suc n) i f = omega (arith, length-tabulate_from n (i + 1) f)

length-keccak256_bytes : (input : List ℕ) → length (keccak256_bytes input) ≡ 32
unfolding keccak256_bytes
length-keccak256_bytes input =
    length-tabulate_from 32 0
      (digest_byte (absorb_all (blocks (length input) input) (replicate 25 0)))

All-get_or :
    (P : Char → Type 0) (xs : List Char) (n : ℕ) (d : Char) → All P xs → P d → P (get_or xs n d)
All-get_or P [] n d h k = k
All-get_or P (x ∷ xs) zero d h k = h.0
All-get_or P (x ∷ xs) (suc n) d h k = All-get_or P xs n d h.1 k

hex_digit_lem :
    (n : ℕ) → (is_lower_hex_digit (code (hex_digit n)) ≡ true) × (units (code (hex_digit n)) ≡ 1)
hex_digit_lem n =
    let r : (◌≡◌ {A = Bool} true true) × (◌≡◌ {A = ℕ} 1 1) = (refl, refl) in
    All-get_or (λ c. (is_lower_hex_digit (code c) ≡ true) × (units (code c) ≡ 1)) hex_digits n "0"
      (r, (r, (r, (r, (r, (r, (r, (r, (r, (r, (r, (r, (r, (r, (r, (r, tt)))))))))))))))) r

bytes_to_hex_lem :
    (bs : List ℕ)
    → (every_char is_lower_hex_digit (bytes_to_hex bs) ≡ true)
      × (utf16_length (bytes_to_hex bs) ≡ 2 * length bs)
unfolding bytes_to_hex every_char utf16_length
bytes_to_hex_lem [] = (refl, refl)
bytes_to_hex_lem (b ∷ bs) =
    let (digits, count) = bytes_to_hex_lem bs in
    (
      rw ((hex_digit_lem (b / 16)).0, (hex_digit_lem (b % 16)).0, digits) refl,
      rw ((hex_digit_lem (b / 16)).1, (hex_digit_lem (b % 16)).1, count) (omega arith),
    )

-- Every digest is a canonical hash: `0x` and 64 lower-case hexadecimal digits.
pub is_hash-keccak256_hex : (input : String) → is_hash (keccak256_hex input) ≡ true
unfolding is_hash keccak256_hex
is_hash-keccak256_hex input =
    let (digits, count) = bytes_to_hex_lem (keccak256_bytes (utf8_encode input)) in
    let size = length-keccak256_bytes (utf8_encode input) in
    rw (digits, count ∙ ap (λ (n : ℕ). 2 * n) size) refl
