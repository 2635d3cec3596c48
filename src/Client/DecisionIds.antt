-- ===== src/Client/DecisionIds.antt =====
-- Decision ids (`decisionIdentity` of packages/protocol-sdk/src/client.ts): an incident id with the
-- stage as its suffix.
use text.Mathlib.TextLemmas.{cons-append, nil-append}
use reclose.Prelude.{
  ℕ, String, true, false, none, some, ◌≡◌, ◌≢◌, refl, ap, sym, ◌∙◌, inl, inr, Bool-cases, ◌==◌,
  string_eq, eq_iff, arith, utf16_length, code, without_suffix, Char,
}
use reclose.Json.{◌++◌}
use reclose.Client.Records.{provisional_stage, final_stage}
use reclose.Client.Incidents.{decision_identity}
use reclose.Client.Bonds.{utf16_length-append}

-- The code of the fourth character from the end, `a` to `d` standing before the text.
unfoldable fourth_last : (a b c d : ℕ) → String → ℕ
fourth_last a b c d String.[] = a
fourth_last a b c d (String.◌∷◌ x s) = fourth_last b c d (code x) s

fourth_last-final : (a b c d : ℕ) (s : String) → fourth_last a b c d (s ++ ":FINAL") ≡ 73
unfolding fourth_last
fourth_last-final a b c d String.[] = ap (fourth_last a b c d) (nil-append ":FINAL")
fourth_last-final a b c d (String.◌∷◌ x s) =
    ap (fourth_last a b c d) (cons-append x s ":FINAL") ∙ fourth_last-final b c d (code x) s

not_provisional : (s : String) → ((s ++ ":FINAL") == ":PROVISIONAL") ≡ false
unfolding fourth_last
not_provisional s = elim (Bool-cases ((s ++ ":FINAL") == ":PROVISIONAL")) [
  | inr p ↦ p
  | inl p ↦
      let e : s ++ ":FINAL" ≡ ":PROVISIONAL" = (eq_iff (s ++ ":FINAL") ":PROVISIONAL").0 p in
      let no : ◌≢◌ {A = ℕ} 73 79 = omega arith in
      absurd (no (sym (fourth_last-final 0 0 0 0 s) ∙ ap (fourth_last 0 0 0 0) e))
]

-- A text is its own suffix, after the empty text.
without_suffix_self : (suffix : String) → without_suffix suffix suffix ≡ some ""
unfolding without_suffix
without_suffix_self String.[] = refl
without_suffix_self (String.◌∷◌ c s) =
    let same : (String.◌∷◌ c s == String.◌∷◌ c s) ≡ true = (eq_iff _ _).1 refl in rw same refl

longer : (c : Char) (s suffix : String) → (String.◌∷◌ c (s ++ suffix) == suffix) ≡ false
unfolding utf16_length
longer c s suffix = elim (Bool-cases (String.◌∷◌ c (s ++ suffix) == suffix)) [
  | inr p ↦ p
  | inl p ↦
      let e : String.◌∷◌ c (s ++ suffix) ≡ suffix = (eq_iff _ suffix).0 p in
      let lengths : utf16_length (String.◌∷◌ c (s ++ suffix)) ≡ utf16_length suffix =
        ap utf16_length e in
      let no : ◌≢◌ (utf16_length (String.◌∷◌ c (s ++ suffix))) (utf16_length suffix) =
        ground (arith, utf16_length-append s suffix) in
      absurd (no lengths)
]

without_suffix-append : (suffix s : String) → without_suffix suffix (s ++ suffix) ≡ some s
unfolding without_suffix
without_suffix-append suffix String.[] = rw (nil-append suffix) (without_suffix_self suffix)
without_suffix-append suffix (String.◌∷◌ c s) =
    rw (cons-append c s suffix, longer c s suffix, without_suffix-append suffix s) refl

without_suffix-final : (s : String) → without_suffix ":PROVISIONAL" (s ++ ":FINAL") ≡ none
unfolding without_suffix
without_suffix-final String.[] = refl
without_suffix-final (String.◌∷◌ c s) =
    let p : (String.◌∷◌ c (s ++ ":FINAL") == ":PROVISIONAL") ≡ false =
      ap (λ t. t == ":PROVISIONAL") (sym (cons-append c s ":FINAL"))
      ∙ not_provisional (String.◌∷◌ c s) in
    rw (cons-append c s ":FINAL", p, without_suffix-final s) refl

-- An incident id with a stage as its suffix is read back as that incident and that stage.
pub decision_identity_lem :
    (incident_id : String)
    → (decision_identity (incident_id ++ ":PROVISIONAL") ≡ (incident_id, provisional_stage))
      × (decision_identity (incident_id ++ ":FINAL") ≡ (incident_id, final_stage))
unfolding decision_identity
decision_identity_lem id = (
  rw (decision_identity, without_suffix-append ":PROVISIONAL" id) refl,
  rw (decision_identity, without_suffix-final id, without_suffix-append ":FINAL" id) refl,
)
