-- ===== src/Client/Bonds.antt =====
-- Bond ids and their verification (`deriveBondId` and `requireVerifiedBond` of
-- packages/protocol-sdk/src/client.ts).
use text.Mathlib.TextLemmas.{cons-append, nil-append}
use reclose.Prelude.{
  ℕ, ◌+◌, String, true, false, Option, none, some, ◌≡◌, ◌↔◌, refl, ap, sym, ◌∙◌, inl, inr, Result,
  ok, Bool-cases, ◌==◌, string_eq, eq_iff, arith, utf16_length, is_hash, ltb, is_at_most_zero, ℤ,
}
use reclose.Json.{◌++◌}
use reclose.Json.Total.{IsPlain, canonical_keccak256_total}
use reclose.Client.Values.{ClientError}
use reclose.Client.Records.{PolicyRule}
use reclose.Client.Identity.{BondInput, bond_preimage, derive_bond_id}
use reclose.Client.Drafts.{wei}
use reclose.Client.Reports.{check_bond, require_verified_bond}

pub utf16_length-append : (s t : String) → utf16_length (s ++ t) ≡ utf16_length s + utf16_length t
unfolding utf16_length
utf16_length-append String.[] t = ap utf16_length (nil-append t) ∙ omega arith
utf16_length-append (String.◌∷◌ c s) t =
    ap utf16_length (cons-append c s t) ∙ omega (arith, utf16_length-append s t)

-- A canonical hash has 66 characters.
utf16_length_of_is_hash : (h : String) → is_hash h ≡ true → utf16_length h ≡ 66
unfolding is_hash utf16_length
utf16_length_of_is_hash String.[] p = cc
utf16_length_of_is_hash (String.◌∷◌ a String.[]) p = cc
utf16_length_of_is_hash (String.◌∷◌ a (String.◌∷◌ b s)) p = ground arith

IsPlain-bond_preimage : (input : BondInput) → IsPlain (bond_preimage input)
unfolding IsPlain
IsPlain-bond_preimage input = (tt, (tt, (tt, (tt, (tt, (tt, tt))))))

-- Every bond input has a bond id, of 71 characters: the check of the limit of 96 never fires.
pub derive_bond_id_bounds :
    (input : BondInput) → (id : String) × (derive_bond_id input ≡ ok id) × (utf16_length id ≡ 71)
unfolding derive_bond_id utf16_length
derive_bond_id_bounds input =
    let (digest, found, hash) =
      canonical_keccak256_total (bond_preimage input) (IsPlain-bond_preimage input) in
    let length : utf16_length ("bond:" ++ digest) ≡ 71 =
      utf16_length-append "bond:" digest
      ∙ ap (λ (n : ℕ). utf16_length "bond:" + n) (utf16_length_of_is_hash digest hash) in
    let short : ltb 96 (utf16_length ("bond:" ++ digest)) ≡ false = rw length refl in
    ("bond:" ++ digest, rw (found, short) refl, length)

not_empty :
    (expected g id : String)
    → utf16_length expected ≡ 71
    → (g == "") ≡ true
    → ◌≡◌ {A = Option String} (some g) (some id)
    → ◌≡◌ {A = Result ClientError String} (ok expected) (ok id)
    → ⊥
unfolding utf16_length
not_empty expected g id length empty h k =
    let no_text : g ≡ "" = (eq_iff g "").0 empty in
    let none_left : expected ≡ "" = cc in
    let counted : ◌≡◌ {A = ℕ} 71 0 = sym length ∙ ap utf16_length none_left in absurd (omega arith)

not_other :
    (expected g id : String)
    → (expected == g) ≡ false
    → ◌≡◌ {A = Option String} (some g) (some id)
    → ◌≡◌ {A = Result ClientError String} (ok expected) (ok id)
    → ⊥
not_other expected g id other h k =
    let same : expected ≡ g = cc in
    let test : (expected == g) ≡ true = (eq_iff expected g).1 same in cc

-- For a rule with a positive report bond, a bond id is accepted exactly where it is given and is the
-- one derived from the target, the policy, the rule, the reporter and the current nonce.
pub require_verified_bond_iff :
    (rule : PolicyRule) (input : BondInput) (given : Option String) (amount : ℤ) (id : String)
    → wei rule.report_bond ≡ ok amount
    → is_at_most_zero amount ≡ false
    → (require_verified_bond (some rule) input given ≡ ok id)
      ↔ ((given ≡ some id) × (derive_bond_id input ≡ ok id))
unfolding require_verified_bond check_bond
require_verified_bond_iff rule input none amount id price positive =
    rw (price, positive) (λ h. cc, λ h. cc)
require_verified_bond_iff rule input (some g) amount id price positive =
    let (expected, derived, length) = derive_bond_id_bounds input in
    elim (Bool-cases (g == "")) [
      | inl empty ↦
          rw (price, positive, empty, derived)
            (λ h. cc, λ h. absurd (not_empty expected g id length empty h.0 h.1))
      | inr given ↦ elim (Bool-cases (expected == g)) [
        | inl same ↦
            let agrees : expected ≡ g = (eq_iff expected g).0 same in
            rw (price, positive, given, derived, same) (λ h. (cc, cc), λ h. cc)
        | inr other ↦
            rw (price, positive, given, derived, other)
              (λ h. cc, λ h. absurd (not_other expected g id other h.0 h.1))
      ]
    ]
