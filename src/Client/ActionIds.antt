-- ===== src/Client/ActionIds.antt =====
-- Action ids (`ck` and `computeActionId` of packages/protocol-sdk/src/client.ts) keep their parts
-- apart.
use Prim.Native.Char.{Char, code}
use text.Mathlib.TextLemmas.{cons-eq-cons, cons-append, nil-append, cons-ne-nil, append-eq-nil_iff}
use reclose.Prelude.{
  ℕ, ◌<◌, String, true, List, [], ◌∷◌, ◌≡◌, refl, ap, sym, ◌∙◌, arith, every_char, is_digit,
  utf16_length, units, decimal, get_or, value_from, value_from-decimal, every_char-decimal,
}
use reclose.Json.{◌++◌}
use reclose.Client.Identity.{ck, compute_action_id}

-- Two texts that begin with a character each.
pub cons_apart :
    (c d : Char) (s t x y : String)
    → String.◌∷◌ c s ++ x ≡ String.◌∷◌ d t ++ y
    → (c ≡ d) × (s ++ x ≡ t ++ y)
cons_apart c d s t x y e = cons-eq-cons.0 (sym (cons-append c s x) ∙ (e ∙ cons-append d t y))

pub nil_cons_apart :
    (c d : Char) (t x y : String) → "" ++ String.◌∷◌ c x ≡ String.◌∷◌ d t ++ y → c ≡ d
nil_cons_apart c d t x y e =
    (cons-eq-cons.0 (sym (nil-append (String.◌∷◌ c x)) ∙ (e ∙ cons-append d t y))).0

-- Digits end where the first colon stands.
digits_apart :
    (d e x y : String)
    → every_char is_digit d ≡ true
    → every_char is_digit e ≡ true
    → d ++ String.◌∷◌ ":" x ≡ e ++ String.◌∷◌ ":" y
    → (d ≡ e) × (x ≡ y)
unfolding every_char
digits_apart String.[] String.[] x y h k p =
    (refl, (cons-eq-cons.0 (sym (nil-append _) ∙ (p ∙ nil-append _))).1)
digits_apart String.[] (String.◌∷◌ c e) x y h k p =
    let head : code ":" ≡ code c = ap code (nil_cons_apart ":" c e x _ p) in ground arith
digits_apart (String.◌∷◌ c d) String.[] x y h k p =
    let head : code ":" ≡ code c = ap code (nil_cons_apart ":" c d y _ (sym p)) in ground arith
digits_apart (String.◌∷◌ c d) (String.◌∷◌ c' e) x y h k p =
    let (head, tail) = cons_apart c c' d e _ _ p in
    let (same, rest) = digits_apart d e x y (ground arith) (ground arith) tail in
    (cons-eq-cons.1 (head, same), rest)

units_positive : (c : ℕ) → 0 < units c
units_positive c = ground arith

-- Texts of the same length that begin the same text are the same.
starts_apart :
    (p q x y : String) → utf16_length p ≡ utf16_length q → p ++ x ≡ q ++ y → (p ≡ q) × (x ≡ y)
unfolding utf16_length
starts_apart String.[] String.[] x y h e = (refl, sym (nil-append x) ∙ (e ∙ nil-append y))
starts_apart String.[] (String.◌∷◌ c q) x y h e = absurd (omega (arith, units_positive (code c)))
starts_apart (String.◌∷◌ c p) String.[] x y h e = absurd (omega (arith, units_positive (code c)))
starts_apart (String.◌∷◌ c p) (String.◌∷◌ d q) x y h e =
    let (head, tail) = cons_apart c d p q x y e in
    let same_units : units (code c) ≡ units (code d) = ap (λ k. units (code k)) head in
    let (same, rest) = starts_apart p q x y (omega arith) tail in
    (cons-eq-cons.1 (head, same), rest)

not_nil_part : (p : String) (ps : List String) → ck (p ∷ ps) ≡ "" → ⊥
unfolding ck
not_nil_part p ps e = cons-ne-nil _ _ ((append-eq-nil_iff {p = decimal (utf16_length p)}).0 e).1

-- The parts of a composite key can be read back from it: two lists of parts with the same key are
-- the same.
pub ck_injective : (ps qs : List String) → ck ps ≡ ck qs → ps ≡ qs
unfolding ck
ck_injective [] [] e = refl
ck_injective [] (q ∷ qs) e = absurd (not_nil_part q qs (sym e))
ck_injective (p ∷ ps) [] e = absurd (not_nil_part p ps e)
ck_injective (p ∷ ps) (q ∷ qs) e =
    let (numbers, rest) =
      digits_apart (decimal (utf16_length p)) (decimal (utf16_length q)) _ _
        (every_char-decimal (utf16_length p)) (every_char-decimal (utf16_length q)) e in
    let lengths : utf16_length p ≡ utf16_length q =
      sym (value_from-decimal (utf16_length p))
      ∙ (ap (value_from 0) numbers ∙ value_from-decimal (utf16_length q)) in
    let (head, tail) = starts_apart p q (ck ps) (ck qs) lengths rest in
    let same : ps ≡ qs = ck_injective ps qs tail in cc

pub decimal_injective : (a b : ℕ) → decimal a ≡ decimal b → a ≡ b
decimal_injective a b e = sym (value_from-decimal a) ∙ (ap (value_from 0) e ∙ value_from-decimal b)

abbrev action_parts : (incident policy : String) → ℕ → (resource u256 str : String) → List String
action_parts incident policy ordinal resource u256 str =
    incident ∷ policy ∷ decimal ordinal ∷ resource ∷ u256 ∷ str ∷ []

-- Two actions with the same id have the same incident, policy, action type, resource and
-- parameters.
pub compute_action_id_injective :
    (incident policy : String) (ordinal : ℕ) (resource u256 str : String)
    (incident' policy' : String) (ordinal' : ℕ) (resource' u256' str' : String)
    → compute_action_id incident policy ordinal resource u256 str
      ≡ compute_action_id incident' policy' ordinal' resource' u256' str'
    → (incident ≡ incident')
      × (policy ≡ policy')
      × (ordinal ≡ ordinal')
      × (resource ≡ resource')
      × (u256 ≡ u256')
      × (str ≡ str')
unfolding compute_action_id
compute_action_id_injective incident policy ordinal resource u256 str incident' policy' ordinal'
      resource' u256' str' e =
    let parts =
      ck_injective (action_parts incident policy ordinal resource u256 str)
        (action_parts incident' policy' ordinal' resource' u256' str') e in
    let part = λ (i : ℕ). ap (λ l. get_or l i "") parts in
    (part 0, part 1, decimal_injective ordinal ordinal' (part 2), part 3, part 4, part 5)
