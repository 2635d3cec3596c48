-- ===== src/Keccak/Tests.antt =====
-- Known digests of Keccak-256 for packages/protocol-sdk/src/canonical.ts, and the theorems at inputs.
use reclose.Prelude.{ℕ, true, List, [], ◌∷◌, ◌≡◌, refl, length, is_hash}
use reclose.Keccak.{keccak256_hex, blocks}
use reclose.Keccak.Padding.{IsPadded, blocks-IsPadded}
use reclose.Keccak.Bytes.{is_hash-keccak256_hex}

empty_digest :
    keccak256_hex "" ≡ "0xc5d2460186f7233c927e7db2dcc703c0e500b653ca82273b7bfad8045d85a470"
unfolding keccak256_hex
empty_digest = refl

-- `abc`
abc_digest :
    keccak256_hex "abc" ≡ "0x4e03657aea45a94fc7d47ba826c8d667c0d1e6e33a64a036ec44f58fa12d6c45"
unfolding keccak256_hex
abc_digest = refl

abbrev ab : List ℕ
ab = 97 ∷ 98 ∷ []

blocks-IsPadded_example : IsPadded ab (blocks (length ab) ab)
blocks-IsPadded_example = blocks-IsPadded ab

is_hash-keccak256_hex_example : is_hash (keccak256_hex "abc") ≡ true
is_hash-keccak256_hex_example = is_hash-keccak256_hex "abc"
