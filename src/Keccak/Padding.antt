-- ===== src/Keccak/Padding.antt =====
-- How the input of Keccak-256 (packages/protocol-sdk/src/canonical.ts) is cut into padded blocks.
use reclose.Prelude.{
  ℕ, zero, suc, ◌+◌, ◌-◌, ◌/◌, ◌≤◌, ◌<◌, List, [], ◌∷◌, ◌++◌, ◌≡◌, refl, ap, ◌∙◌, inl, inr, leb,
  Bool-cases, set, length, take, drop, replicate, length-append, length-set, All, arith,
}
use mathlib.Core.Path.{subst}
use mathlib.Core.List.{append-nil}
use reclose.Keccak.{rate_bytes, last_block, blocks}

-- The blocks, one after the other.
abbrev pub join_blocks : List (List ℕ) → List ℕ
join_blocks [] = []
join_blocks (b ∷ bs) = b ++ join_blocks bs

length-take : (n : ℕ) (xs : List ℕ) → n ≤ length xs → length (take n xs) ≡ n
length-take zero xs h = refl
length-take (suc n) [] h = absurd (omega arith)
length-take (suc n) (x ∷ xs) h = omega (arith, length-take n xs)

length-drop : (n : ℕ) (xs : List ℕ) → length (drop n xs) ≡ length xs - n
length-drop zero xs = omega arith
length-drop (suc n) [] = omega arith
length-drop (suc n) (x ∷ xs) = omega (arith, length-drop n xs)

length-replicate : (n v : ℕ) → length (replicate n v) ≡ n
length-replicate zero v = refl
length-replicate (suc n) v = omega (arith, length-replicate n v)

take-append-drop : (n : ℕ) (xs : List ℕ) → take n xs ++ drop n xs ≡ xs
take-append-drop zero xs = refl
take-append-drop (suc n) [] = refl
take-append-drop (suc n) (x ∷ xs) = ap (λ l. x ∷ l) (take-append-drop n xs)

take-append_self : (xs ys : List ℕ) → take (length xs) (xs ++ ys) ≡ xs
take-append_self [] ys = refl
take-append_self (x ∷ xs) ys = ap (λ l. x ∷ l) (take-append_self xs ys)

take-set : (n i v : ℕ) (xs : List ℕ) → n ≤ i → take n (set xs i v) ≡ take n xs
take-set zero i v xs h = refl
take-set (suc n) i v [] h = refl
take-set (suc n) zero v (x ∷ xs) h = absurd (omega arith)
take-set (suc n) (suc i) v (x ∷ xs) h = ap (λ l. x ∷ l) (take-set n i v xs (omega arith))

take_more :
    (front xs ys : List ℕ)
    → take (length xs) ys ≡ xs
    → take (length (front ++ xs)) (front ++ ys) ≡ front ++ xs
take_more [] xs ys h = h
take_more (x ∷ front) xs ys h = ap (λ l. x ∷ l) (take_more front xs ys h)

length-last_block :
    (rest : List ℕ) → length rest < rate_bytes → length (last_block rest) ≡ rate_bytes
unfolding last_block
length-last_block rest h =
    length-set _ (rate_bytes - 1) _
    ∙ (length-set _ (length rest) _
        ∙ omega (
          arith,
          length-append rest (replicate (rate_bytes - length rest) 0),
          length-replicate (rate_bytes - length rest) 0,
        ))

take-last_block :
    (rest : List ℕ) → length rest < rate_bytes → take (length rest) (last_block rest) ≡ rest
unfolding last_block
take-last_block rest h =
    take-set (length rest) (rate_bytes - 1) _ _ (omega arith)
    ∙ (take-set (length rest) (length rest) _ _ (omega arith) ∙ take-append_self rest _)

-- What the blocks of an input are.
pub record IsPadded (input : List ℕ) (bs : List (List ℕ)) : Type 0 where
  pub sized : All (λ b. length b ≡ rate_bytes) bs
  pub count : length bs ≡ length input / rate_bytes + 1
  pub starts : take (length input) (join_blocks bs) ≡ input

blocks_last : (input : List ℕ) → length input < rate_bytes → IsPadded input (last_block input ∷ [])
blocks_last input h = record {
  sized = (length-last_block input h, tt);
  count = omega arith;
  starts = rw (append-nil (last_block input)) (take-last_block input h);
}

blocks-IsPadded_fuel :
    (fuel : ℕ) (input : List ℕ) → length input ≤ fuel → IsPadded input (blocks fuel input)
unfolding blocks
blocks-IsPadded_fuel zero input h = blocks_last input (omega arith)
blocks-IsPadded_fuel (suc fuel) input h = elim (Bool-cases (leb rate_bytes (length input))) [
  | inl full ↦
      let long : rate_bytes ≤ length input = ground arith in
      let rest =
        blocks-IsPadded_fuel fuel (drop rate_bytes input)
          (omega (arith, length-drop rate_bytes input)) in
      rw full (record {
        sized = (length-take rate_bytes input long, rest.sized);
        count = omega (arith, rest.count, length-drop rate_bytes input);
        starts =
            subst
              (λ l.
                take (length l)
                  (take rate_bytes input ++ join_blocks (blocks fuel (drop rate_bytes input)))
                ≡ l)
              (take-append-drop rate_bytes input)
              (take_more (take rate_bytes input) (drop rate_bytes input) _ rest.starts);
      })
  | inr short ↦ rw short (blocks_last input (ground arith))
]

-- The input is cut into blocks of 136 bytes each, one for each full block of the input and one more
-- that pads it, and the blocks begin with the whole input: the loop ends, and absorbs every byte.
pub blocks-IsPadded : (input : List ℕ) → IsPadded input (blocks (length input) input)
blocks-IsPadded input = blocks-IsPadded_fuel (length input) input (omega arith)
