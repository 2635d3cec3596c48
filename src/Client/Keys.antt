-- ===== src/Client/Keys.antt =====
-- The keys of rules and effects in a policy diff (`ruleIdentityKey` and `effectTupleKey` of
-- packages/protocol-sdk/src/client.ts) keep their parts apart where these have no bar.
use Prim.Native.Char.{code}
use text.Mathlib.TextLemmas.{cons-eq-cons, cons-append, nil-append}
use reclose.Prelude.{
  ℕ, String, Bool, true, false, not, ◌≡◌, refl, ap, sym, ◌∙◌, arith, every_char, is_digit, decimal,
  lower_case, every_char-decimal, ◌==◌, nat_eq,
}
use reclose.Json.{◌++◌, join}
use reclose.Client.ActionIds.{cons_apart, nil_cons_apart, decimal_injective}
use reclose.Client.Diff.{
  KernelRuleIdentity, KernelEffectTuple, rule_identity_key, effect_tuple_key, bool_text,
}
use reclose.Client.Kernel.{identity_of, tuple_of}

-- A text without the separator of the keys.
unfoldable pub has_no_bar : String → Bool
unfolding every_char
has_no_bar s = every_char (λ c. not (c == b'|')) s

has_no_bar-digits : (s : String) → every_char is_digit s ≡ true → has_no_bar s ≡ true
unfolding has_no_bar
has_no_bar-digits String.[] h = refl
has_no_bar-digits (String.◌∷◌ c s) h = ground (arith, has_no_bar-digits s)

has_no_bar-decimal : (n : ℕ) → has_no_bar (decimal n) ≡ true
has_no_bar-decimal n = has_no_bar-digits (decimal n) (every_char-decimal n)

has_no_bar-bool_text : (b : Bool) → has_no_bar (bool_text b) ≡ true
unfolding has_no_bar
has_no_bar-bool_text true = refl
has_no_bar-bool_text false = refl

bool_text_injective : (a b : Bool) → bool_text a ≡ bool_text b → a ≡ b
bool_text_injective true true e = refl
bool_text_injective false false e = refl
bool_text_injective true false e = absurd (cc e)
bool_text_injective false true e = absurd (cc e)

-- Parts without bars end where the first bar stands.
bars_apart :
    (d e x y : String)
    → has_no_bar d ≡ true
    → has_no_bar e ≡ true
    → d ++ String.◌∷◌ "|" x ≡ e ++ String.◌∷◌ "|" y
    → (d ≡ e) × (x ≡ y)
unfolding has_no_bar
bars_apart String.[] String.[] x y h k p =
    (refl, (cons-eq-cons.0 (sym (nil-append _) ∙ (p ∙ nil-append _))).1)
bars_apart String.[] (String.◌∷◌ c e) x y h k p =
    let head : code "|" ≡ code c = ap code (nil_cons_apart "|" c e x _ p) in ground arith
bars_apart (String.◌∷◌ c d) String.[] x y h k p =
    let head : code "|" ≡ code c = ap code (nil_cons_apart "|" c d y _ (sym p)) in ground arith
bars_apart (String.◌∷◌ c d) (String.◌∷◌ c' e) x y h k p =
    let (head, tail) = cons_apart c c' d e _ _ p in
    let (same, rest) = bars_apart d e x y (ground arith) (ground arith) tail in
    (cons-eq-cons.1 (head, same), rest)

no_bar_past_bar : (s x : String) → has_no_bar (s ++ String.◌∷◌ "|" x) ≡ false
unfolding has_no_bar
no_bar_past_bar String.[] x = ap has_no_bar (nil-append (String.◌∷◌ "|" x)) ∙ refl
no_bar_past_bar (String.◌∷◌ c s) x =
    ap has_no_bar (cons-append c s (String.◌∷◌ "|" x)) ∙ ground (arith, no_bar_past_bar s x)

-- A last part without bars begins after the last bar.
last_bars_apart :
    (s t d e : String)
    → has_no_bar d ≡ true
    → has_no_bar e ≡ true
    → s ++ String.◌∷◌ "|" d ≡ t ++ String.◌∷◌ "|" e
    → (s ≡ t) × (d ≡ e)
last_bars_apart String.[] String.[] d e h k p =
    (refl, (cons-eq-cons.0 (sym (nil-append _) ∙ (p ∙ nil-append _))).1)
last_bars_apart String.[] (String.◌∷◌ c t) d e h k p =
    let tail : d ≡ t ++ String.◌∷◌ "|" e =
      (cons-eq-cons.0 (sym (nil-append _) ∙ (p ∙ cons-append c t _))).1 in
    let no = no_bar_past_bar t e in cc
last_bars_apart (String.◌∷◌ c s) String.[] d e h k p =
    let tail : e ≡ s ++ String.◌∷◌ "|" d =
      (cons-eq-cons.0 (sym (nil-append _) ∙ (sym p ∙ cons-append c s _))).1 in
    let no = no_bar_past_bar s d in cc
last_bars_apart (String.◌∷◌ c s) (String.◌∷◌ c' t) d e h k p =
    let (head, tail) = cons_apart c c' s t _ _ p in
    let (same, rest) = last_bars_apart s t d e h k tail in (cons-eq-cons.1 (head, same), rest)

bar_front : (x : String) → "|" ++ x ≡ String.◌∷◌ "|" x
bar_front x = cons-append "|" "" x ∙ ap (String.◌∷◌ "|") (nil-append x)

-- The first part of a joined text.
first_apart :
    (p q x y : String)
    → has_no_bar p ≡ true
    → has_no_bar q ≡ true
    → p ++ "|" ++ x ≡ q ++ "|" ++ y
    → (p ≡ q) × (x ≡ y)
first_apart p q x y h k e =
    bars_apart p q x y h k
      (ap (λ s. p ++ s) (sym (bar_front x)) ∙ (e ∙ ap (λ s. q ++ s) (bar_front y)))

last_apart :
    (p q x y : String)
    → has_no_bar x ≡ true
    → has_no_bar y ≡ true
    → p ++ "|" ++ x ≡ q ++ "|" ++ y
    → (p ≡ q) × (x ≡ y)
last_apart p q x y h k e =
    last_bars_apart p q x y h k
      (ap (λ s. p ++ s) (sym (bar_front x)) ∙ (e ∙ ap (λ s. q ++ s) (bar_front y)))

-- The parts of a rule's key but its last, and of an effect's key but its last two, have no bar.
pub record IsSeparable (r : KernelRuleIdentity) : Type 0 where
  pub rule_id : has_no_bar r.rule_id ≡ true
  pub judge : has_no_bar (lower_case r.judge) ≡ true
  pub judge_version : has_no_bar r.judge_version ≡ true

pub record IsSeparableEffect (e : KernelEffectTuple) : Type 0 where
  pub rule_id : has_no_bar e.rule_id ≡ true
  pub action_type : has_no_bar e.action_type ≡ true
  pub resource_id : has_no_bar e.resource_id ≡ true
  pub param_u256 : has_no_bar e.param_u256 ≡ true

pub rule_keys_apart :
    (a b : KernelRuleIdentity)
    → IsSeparable a
    → IsSeparable b
    → rule_identity_key a ≡ rule_identity_key b
    → identity_of a ≡ identity_of b
unfolding rule_identity_key join
rule_keys_apart a b h k e =
    let (p, e) = first_apart a.rule_id b.rule_id _ _ h.rule_id k.rule_id e in
    let (q, e) = first_apart _ _ _ _ h.judge k.judge e in
    let (r, e) =
      first_apart a.judge_version b.judge_version _ _ h.judge_version k.judge_version e in
    let (kind, e) =
      first_apart _ _ _ _ (has_no_bar-decimal a.rule_kind) (has_no_bar-decimal b.rule_kind) e in
    let (allowed, bond) =
      first_apart _ _ _ _ (has_no_bar-bool_text a.provisional_allowed)
        (has_no_bar-bool_text b.provisional_allowed) e in
    let kinds = decimal_injective a.rule_kind b.rule_kind kind in
    let alloweds = bool_text_injective a.provisional_allowed b.provisional_allowed allowed in cc

pub effect_keys_apart :
    (a b : KernelEffectTuple)
    → IsSeparableEffect a
    → IsSeparableEffect b
    → effect_tuple_key a ≡ effect_tuple_key b
    → tuple_of a ≡ tuple_of b
unfolding effect_tuple_key join
effect_keys_apart a b h k e =
    let (p, e) = first_apart a.rule_id b.rule_id _ _ h.rule_id k.rule_id e in
    let (q, e) = first_apart a.action_type b.action_type _ _ h.action_type k.action_type e in
    let (r, e) = first_apart a.resource_id b.resource_id _ _ h.resource_id k.resource_id e in
    let (u, e) = first_apart a.param_u256 b.param_u256 _ _ h.param_u256 k.param_u256 e in
    let (str, phase) =
      last_apart a.param_str b.param_str _ _ (has_no_bar-decimal a.release_phase)
        (has_no_bar-decimal b.release_phase) e in
    let phases = decimal_injective a.release_phase b.release_phase phase in cc
