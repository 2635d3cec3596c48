-- ===== src/Client/Kernel.antt =====
-- The Kernel's own classification of a policy change (contracts/assurance_kernel.py:
-- `_rule_identity_map`, `_effect_tuples` and `_classify_expansion`), over the rules and effects that
-- the client reads. The contract's integers are given as the client has them; two addresses are the
-- same where their lower-case texts are.
use reclose.Prelude.{
  ℕ, ℤ, String, Bool, true, not, ◌&&◌, ◌||◌, Option, none, some, List, [], ◌∷◌, map, ◌≡◌, ◌↔◌, Eq,
  ◌==◌, nat_eq, string_eq, if◌then◌else◌, any, includes, gtb, lower_case, arith,
}
use reclose.Client.Diff.{
  KernelRuleIdentity, KernelEffectTuple, RuleEffectModel, enabled_rules, enabled_effects,
}

pub same_bool_iff : (a b : Bool) → ((if a then b else not b) ≡ true) ↔ (a ≡ b)
same_bool_iff a b = ground arith

instance abbrev pub bool_eq : Eq Bool
bool_eq = record { same = λ a b. if a then b else not b; same_iff = same_bool_iff }

pub same_pair_iff :
    {A B : Type 0} ⦃e : Eq A⦄ ⦃f : Eq B⦄ (p q : A × B)
    → ((p.0 == q.0 && p.1 == q.1) ≡ true) ↔ (p ≡ q)
same_pair_iff ⦃e⦄ ⦃f⦄ (a, b) (c, d) =
    let left = e.same_iff a c in let right = f.same_iff b d in ground arith

instance abbrev pub pair_eq : {A B : Type 0} ⦃e : Eq A⦄ ⦃f : Eq B⦄ → Eq (A × B)
pair_eq ⦃e⦄ ⦃f⦄ = record { same = λ p q. p.0 == q.0 && p.1 == q.1; same_iff = same_pair_iff }

abbrev pub RuleIdentity : Type 0
RuleIdentity = String × (String × (String × (ℕ × (Bool × String))))

abbrev pub identity_of : KernelRuleIdentity → RuleIdentity
identity_of r = (
  r.rule_id,
  (lower_case r.judge, (r.judge_version, (r.rule_kind, (r.provisional_allowed, r.report_bond)))),
)

abbrev pub EffectTuple : Type 0
EffectTuple = String × (String × (String × (String × (String × ℕ))))

abbrev pub tuple_of : KernelEffectTuple → EffectTuple
tuple_of e =
    (e.rule_id, (e.action_type, (e.resource_id, (e.param_u256, (e.param_str, e.release_phase)))))

-- A Python `dict` to bounties: a key that is set again keeps its place.
unfoldable pub bounty_at : {K : Type 0} ⦃e : Eq K⦄ → K → List (K × ℤ) → Option ℤ
bounty_at k [] = none
bounty_at k ((j, b) ∷ m) = if j == k then some b else bounty_at k m

unfoldable pub put_bounty : {K : Type 0} ⦃e : Eq K⦄ → K → ℤ → List (K × ℤ) → List (K × ℤ)
put_bounty k b [] = (k, b) ∷ []
put_bounty k b ((j, c) ∷ m) = if j == k then (j, b) ∷ m else (j, c) ∷ put_bounty k b m

abbrev pub IdentityMap : Type 0
IdentityMap = List (RuleIdentity × ℤ)

-- The loop of `_rule_identity_map`, over the enabled rules
unfoldable pub rule_identity_map : List KernelRuleIdentity → IdentityMap → IdentityMap
unfolding put_bounty
rule_identity_map [] m = m
rule_identity_map (r ∷ rs) m =
    rule_identity_map rs (put_bounty (identity_of r) r.confirmed_bounty m)

abbrev pub identity_map_of : RuleEffectModel → IdentityMap
identity_map_of p = rule_identity_map (enabled_rules p) []

-- `_effect_tuples`: the members of the set.
abbrev pub effect_tuples : RuleEffectModel → List EffectTuple
effect_tuples p = map tuple_of (enabled_effects p)

-- `identity not in old_rules or new_bounty > old_rules[identity]`
abbrev pub exceeds : Option ℤ → ℤ → Bool
exceeds none bounty = true
exceeds (some old) bounty = gtb bounty old

-- `_classify_expansion` of a new policy against the active one
unfoldable pub classify_expansion : RuleEffectModel → RuleEffectModel → Bool
unfolding rule_identity_map bounty_at
classify_expansion old new =
    any (λ entry. exceeds (bounty_at entry.0 (identity_map_of old)) entry.1) (identity_map_of new)
    || (any (λ e. not (includes e (effect_tuples old))) (effect_tuples new)
        || (new.human_override && not old.human_override))
