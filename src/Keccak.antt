-- ===== src/Keccak.antt =====
-- Keccak-256 of packages/protocol-sdk/src/canonical.ts. A lane is a bigint there and a number here;
-- `(~a) & b` on bigints, which drops the bits of `a` from `b`, is `bit_xor b (bit_and a b)`. A byte
-- array is a list of numbers.
pub mod Padding
pub mod Bytes
mod Tests
use Prim.Native.Nat.{bit_and, bit_or, bit_xor}
use Prim.Native.Char.{Char, code}
use Prim.Native.String
use reclose.Prelude.{
  ℕ, zero, suc, ◌+◌, ◌-◌, ◌*◌, ◌/◌, ◌%◌, ◌^◌, String, List, [], ◌∷◌, ◌++◌, if◌then◌else◌, ltb, leb,
  ◌==◌, nat_eq, get_elem?, get_or, set, length, take, drop, tabulate, replicate, hex_digit,
}

abbrev pub rate_bytes : ℕ
rate_bytes = 136

abbrev pub rotation_offsets : List ℕ
rotation_offsets =
    0 ∷ 1 ∷ 62 ∷ 28 ∷ 27 ∷ 36 ∷ 44 ∷ 6 ∷ 55 ∷ 20 ∷ 3 ∷ 10 ∷ 43 ∷ 25 ∷ 39 ∷ 41 ∷ 45 ∷ 15 ∷ 21 ∷ 8
    ∷ 18 ∷ 2 ∷ 61 ∷ 56 ∷ 14 ∷ []

abbrev pub round_constants : List ℕ
round_constants =
    0x0000000000000001 ∷ 0x0000000000008082 ∷ 0x800000000000808a ∷ 0x8000000080008000
    ∷ 0x000000000000808b ∷ 0x0000000080000001 ∷ 0x8000000080008081 ∷ 0x8000000000008009
    ∷ 0x000000000000008a ∷ 0x0000000000000088 ∷ 0x0000000080008009 ∷ 0x000000008000000a
    ∷ 0x000000008000808b ∷ 0x800000000000008b ∷ 0x8000000000008089 ∷ 0x8000000000008003
    ∷ 0x8000000000008002 ∷ 0x8000000000000080 ∷ 0x000000000000800a ∷ 0x800000008000000a
    ∷ 0x8000000080008081 ∷ 0x8000000000008080 ∷ 0x0000000080000001 ∷ 0x8000000080008008 ∷ []

-- `value & MASK_64`
abbrev pub mask_64 : ℕ → ℕ
mask_64 v = v % 2 ^ 64

unfoldable pub rotl64 : ℕ → ℕ → ℕ
rotl64 value shift =
    if shift == 0
    then mask_64 value
    else mask_64 (bit_or (value * 2 ^ shift) (value / 2 ^ (64 - shift)))

abbrev pub State : Type 0
State = List ℕ

abbrev pub lane : State → ℕ → ℕ
lane state i = get_or state i 0

unfoldable pub theta : State → State
unfolding rotl64
theta state =
    let c = tabulate 5 λ x.
      bit_xor
        (bit_xor (bit_xor (bit_xor (lane state x) (lane state (x + 5))) (lane state (x + 10)))
          (lane state (x + 15)))
        (lane state (x + 20)) in
    let d = tabulate 5 λ x. bit_xor (lane c ((x + 4) % 5)) (rotl64 (lane c ((x + 1) % 5)) 1) in
    tabulate 25 λ i. mask_64 (bit_xor (lane state i) (lane d (i % 5)))

-- The assignments to `b` from index `i` on, `rounds` of them: `x = i % 5`, `y = i / 5`.
unfoldable pub rho_pi_from : (rounds i : ℕ) → State → State → State
unfolding rotl64
rho_pi_from zero i state b = b
rho_pi_from (suc n) i state b =
    let x = i % 5 in
    let y = i / 5 in
    rho_pi_from n (i + 1) state
      (set b (y + 5 * ((2 * x + 3 * y) % 5)) (rotl64 (lane state i) (get_or rotation_offsets i 0)))

unfoldable pub rho_pi : State → State
unfolding rho_pi_from
rho_pi state = rho_pi_from 25 0 state (replicate 25 0)

unfoldable pub chi : State → State
chi b = tabulate 25 λ i.
    let x = i % 5 in
    let y = i / 5 in
    let e = lane b ((x + 2) % 5 + 5 * y) in
    mask_64 (bit_xor (lane b i) (bit_xor e (bit_and (lane b ((x + 1) % 5 + 5 * y)) e)))

unfoldable pub iota : ℕ → State → State
iota rc state = set state 0 (mask_64 (bit_xor (lane state 0) rc))

unfoldable pub keccak_rounds : List ℕ → State → State
unfolding theta rho_pi chi iota
keccak_rounds [] state = state
keccak_rounds (rc ∷ rcs) state = keccak_rounds rcs (iota rc (chi (rho_pi (theta state))))

unfoldable pub keccak_f1600 : State → State
unfolding keccak_rounds
keccak_f1600 state = keccak_rounds round_constants state

-- `v |= BigInt(block[offset + i]) << BigInt(8 * i)`, `i` from 0 to 7
unfoldable pub lane_bytes : (rounds i offset : ℕ) → List ℕ → ℕ → ℕ
lane_bytes zero i offset block v = v
lane_bytes (suc n) i offset block v =
    lane_bytes n (i + 1) offset block (bit_or v (get_or block (offset + i) 0 * 2 ^ (8 * i)))

unfoldable pub absorb_block : State → List ℕ → State
unfolding lane_bytes keccak_f1600
absorb_block state block = keccak_f1600 (
    tabulate 25 λ l.
      if ltb l (rate_bytes / 8)
      then mask_64 (bit_xor (lane state l) (lane_bytes 8 0 (l * 8) block 0))
      else lane state l)

-- The last block: the rest of the input, a domain suffix and the final bit.
unfoldable pub last_block : List ℕ → List ℕ
last_block rest =
    let padded = rest ++ replicate (rate_bytes - length rest) 0 in
    let suffixed = set padded (length rest) (bit_xor (get_or padded (length rest) 0) 1) in
    set suffixed (rate_bytes - 1) (bit_xor (get_or suffixed (rate_bytes - 1) 0) 0x80)

-- The blocks that are absorbed, in order. Each full block takes `rate_bytes`, so that the length of
-- the input is more than enough fuel.
unfoldable pub blocks : ℕ → List ℕ → List (List ℕ)
unfolding last_block
blocks zero input = last_block input ∷ []
blocks (suc fuel) input =
    let rest = take rate_bytes input ∷ blocks fuel (drop rate_bytes input) in
    if leb rate_bytes (length input) then rest else last_block input ∷ []

unfoldable pub absorb_all : List (List ℕ) → State → State
unfolding absorb_block
absorb_all [] state = state
absorb_all (block ∷ bs) state = absorb_all bs (absorb_block state block)

-- Byte `i` of the digest.
abbrev pub digest_byte : State → ℕ → ℕ
digest_byte state i = lane state (i / 8) / 2 ^ (8 * (i % 8)) % 256

unfoldable pub keccak256_bytes : List ℕ → List ℕ
unfolding blocks absorb_all
keccak256_bytes input =
    let state = absorb_all (blocks (length input) input) (replicate 25 0) in
    tabulate 32 (digest_byte state)

-- The UTF-8 bytes of one character.
unfoldable pub utf8_char : ℕ → List ℕ
utf8_char c =
    if ltb c 0x80
    then c ∷ []
    else if ltb c 0x800
    then (0xc0 + c / 64) ∷ (0x80 + c % 64) ∷ []
    else if ltb c 0x10000
    then (0xe0 + c / 4096) ∷ (0x80 + c / 64 % 64) ∷ (0x80 + c % 64) ∷ []
    else (0xf0 + c / 262144) ∷ (0x80 + c / 4096 % 64) ∷ (0x80 + c / 64 % 64) ∷ (0x80 + c % 64) ∷ []

unfoldable pub utf8_encode : String → List ℕ
unfolding utf8_char
utf8_encode String.[] = []
utf8_encode (String.◌∷◌ c s) = utf8_char (code c) ++ utf8_encode s

-- `b.toString(16).padStart(2, "0")`, byte by byte
unfoldable pub bytes_to_hex : List ℕ → String
bytes_to_hex [] = ""
bytes_to_hex (b ∷ bs) =
    String.◌∷◌ (hex_digit (b / 16)) (String.◌∷◌ (hex_digit (b % 16)) (bytes_to_hex bs))

unfoldable pub keccak256_hex : String → String
unfolding utf8_encode keccak256_bytes bytes_to_hex
keccak256_hex input =
    String.◌∷◌ "0" (String.◌∷◌ "x" (bytes_to_hex (keccak256_bytes (utf8_encode input))))
