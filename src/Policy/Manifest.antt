-- ===== src/Policy/Manifest.antt =====
-- The authoring format of packages/policy-compiler/src/types.ts, and the calls it compiles to.
-- A u256 given as a number is given by the text that `String` makes of it. A judge version is a
-- natural number: the negative and fractional ones, which the compiler rejects, are left out.
use reclose.Prelude.{ℕ, String, Bool, ◌≡◌, Option, List, Eq, index_eq, arith}

pub data ActionType : Type 0 where
  no_action alert monitor restrict throttle revoke_capability reroute : ActionType
  enter_safe_mode pause enter_recovery restore : ActionType

abbrev action_index : ActionType → ℕ
action_index no_action = 0
action_index alert = 1
action_index monitor = 2
action_index restrict = 3
action_index throttle = 4
action_index revoke_capability = 5
action_index reroute = 6
action_index enter_safe_mode = 7
action_index pause = 8
action_index enter_recovery = 9
action_index restore = 10

pub action_index_injective : (a b : ActionType) → action_index a ≡ action_index b → a ≡ b
action_index_injective a b h = ground arith

instance abbrev pub action_eq : Eq ActionType
action_eq = index_eq action_index action_index_injective

pub data RuleKind : Type 0 where
  incident remediation recovery_validation : RuleKind

-- `CompilablePolicyEffectReleasePhase`
pub data ReleasePhase : Type 0 where
  remediation_confirmed recovery_validated : ReleasePhase

pub record PolicyRuleManifest : Type 0 where
  pub rule_id : String
  pub judge : String
  pub judge_version : ℕ
  pub rule_kind : RuleKind
  pub provisional_allowed : Bool
  pub report_bond : Option String
  pub confirmed_bounty : Option String

pub record PolicyEffectManifest : Type 0 where
  pub rule_id : String
  pub action_type : ActionType
  pub resource_id : String
  pub param_u256 : Option String
  pub param_str : Option String
  pub release_phase : ReleasePhase

pub record PolicyManifest : Type 0 where
  pub target_id : String
  pub policy_key : String
  pub resources : List String
  pub rules : List PolicyRuleManifest
  pub effects : List PolicyEffectManifest

pub data KernelFunction : Type 0 where
  begin_policy add_policy_resource add_policy_rule add_policy_effect seal_policy : KernelFunction

-- An argument: `string | number | boolean`
pub data Arg : Type 0 where
  text : String → Arg
  number : ℕ → Arg
  boolean : Bool → Arg

-- The description, for progress output only, is left out.
pub record CompiledKernelCall : Type 0 where
  pub function_name : KernelFunction
  pub args : List Arg

pub record CompiledPolicy : Type 0 where
  pub manifest_hash : String
  pub calls : List CompiledKernelCall
