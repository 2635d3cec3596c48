-- ===== src/Client/Expansion.antt =====
-- `authorityExpands` of `diffCanonicalApm` (packages/protocol-sdk/src/client.ts) against the Kernel's
-- classification (contracts/assurance_kernel.py).
use reclose.Prelude.{
  ℤ, Bool, Option, none, some, List, [], ◌∷◌, ◌≡◌, ◌==◌, string_eq, if◌then◌else◌, All, first_some,
  nat_eq,
}
use reclose.Client.Diff.{KernelRuleIdentity, RuleEffectModel, enabled_rules, enabled_effects}
use reclose.Client.Kernel.{RuleIdentity, identity_of, IdentityMap, bounty_at, pair_eq, bool_eq}
use reclose.Client.Keys.{IsSeparable, IsSeparableEffect}

-- The bounty of the last rule with an identity.
abbrev last_of : RuleIdentity → List KernelRuleIdentity → Option ℤ
last_of k [] = none
last_of k (r ∷ rs) =
    first_some (last_of k rs) (if identity_of r == k then some r.confirmed_bounty else none)

module _ (P : RuleIdentity × ℤ → Bool) where
  abbrev IsFresh : IdentityMap → KernelRuleIdentity → Type 0
  IsFresh m r = bounty_at (identity_of r) m ≡ none

-- The enabled rules and effects of a policy have keys that can be read back.
pub record HasKeys (p : RuleEffectModel) : Type 0 where
  pub rules : All IsSeparable (enabled_rules p)
  pub effects : All IsSeparableEffect (enabled_effects p)
