-- ===== src/Client/Apm.antt =====
-- The manifests that packages/protocol-sdk/src/client.ts accepts as `unknown`: the validation of
-- their structure, and the rules and effects that it extracts from them.
use reclose.Prelude.{
  ℕ, ◌+◌, String, Bool, not, ◌&&◌, ◌||◌, Option, none, some, List, [], ◌∷◌, ◌++◌, or_else,
  if◌then◌else◌, ◌==◌, nat_eq, string_eq, every_char, is_digit, decimal, lower_case, starts_with,
  is_some, any,
}
use reclose.Json.{
  Value, undefined, nan, infinity, number, real, text, array, object, Items, item, no_items, Fields,
  field, no_fields, join,
}

-- The value of a field of an object, or of none.
unfoldable pub get_field : String → Fields → Option Value
get_field key no_fields = none
get_field key (field k v fs) = let rest = get_field key fs in if k == key then some v else rest

-- `key in obj`, for an object with fields of its own only
abbrev pub has_field : String → Fields → Bool
has_field key fs = is_some (get_field key fs)

abbrev pub required_fields : List String
required_fields =
    "schema" ∷ "policyId" ∷ "version" ∷ "target" ∷ "authority" ∷ "protectedResources"
    ∷ "judgeModules" ∷ "semanticRules" ∷ "sourcePolicies" ∷ "capabilities" ∷ "actionBounds"
    ∷ "stateMachine" ∷ "provisionalContainment" ∷ "recovery" ∷ "reporting" ∷ "crossChain"
    ∷ "humanOverride" ∷ "evolutionEnvelope" ∷ "activation" ∷ "metadata" ∷ []

pub data ApmError : Type 0 where
  not_an_object invalid_policy_id invalid_version : ApmError
  missing_field : String → ApmError
  not_canonical_decimal not_decimal : (path : String) → ApmError

-- The text occurs in the other.
unfoldable pub occurs : String → String → Bool
occurs part String.[] = part == ""
occurs part (String.◌∷◌ c s) = let rest = occurs part s in starts_with (String.◌∷◌ c s) part || rest

-- `/amount|bond|bounty|limit|ceiling|wei|u256/i.test(key)`
unfoldable pub is_amount_key : String → Bool
unfolding occurs lower_case
is_amount_key key =
    any (λ part. occurs part (lower_case key))
      ("amount" ∷ "bond" ∷ "bounty" ∷ "limit" ∷ "ceiling" ∷ "wei" ∷ "u256" ∷ [])

abbrev pub is_decimal : String → Bool
unfolding every_char
is_decimal s = not (s == "") && every_char is_digit s

-- The error of one amount.
unfoldable pub amount_errors : String → Value → List ApmError
unfolding every_char
amount_errors path (number n) = not_canonical_decimal path ∷ []
amount_errors path (real s) = not_canonical_decimal path ∷ []
amount_errors path nan = not_canonical_decimal path ∷ []
amount_errors path (infinity negative) = not_canonical_decimal path ∷ []
amount_errors path (text s) = if is_decimal s then [] else not_decimal path ∷ []
amount_errors path _ = []

-- The path of a child.
abbrev pub child_path : String → String → String
child_path path key = if path == "" then key else join "" (path ∷ "." ∷ key ∷ [])

unfoldable mutual
  unfolding is_amount_key amount_errors join

  pub walk : String → Value → List ApmError
  walk path (array vs) = walk_items path 0 vs
  walk path (object fs) = walk_fields path fs
  walk path _ = []

  pub walk_items : String → ℕ → Items → List ApmError
  walk_items path i no_items = []
  walk_items path i (item v vs) =
      walk (join "" (path ∷ "[" ∷ decimal i ∷ "]" ∷ [])) v ++ walk_items path (i + 1) vs

  pub walk_fields : String → Fields → List ApmError
  walk_fields path no_fields = []
  walk_fields path (field key v fs) =
      (if is_amount_key key then amount_errors (child_path path key) v else [])
      ++ (walk (child_path path key) v ++ walk_fields path fs)

unfoldable pub missing_fields : List String → Fields → List ApmError
unfolding get_field
missing_fields [] fs = []
missing_fields (key ∷ keys) fs =
    let rest = missing_fields keys fs in if has_field key fs then rest else missing_field key ∷ rest

unfoldable pub policy_id_errors : Value → List ApmError
policy_id_errors (text s) = if s == "" then invalid_policy_id ∷ [] else []
policy_id_errors _ = invalid_policy_id ∷ []

-- `Number.isSafeInteger(version) && version > 0`
unfoldable pub version_errors : Value → List ApmError
version_errors (number n) = if n == 0 then invalid_version ∷ [] else []
version_errors _ = invalid_version ∷ []

unfoldable pub validate_canonical_apm_structure : Value → List ApmError
unfolding missing_fields policy_id_errors version_errors walk get_field
validate_canonical_apm_structure (object fs) =
    missing_fields required_fields fs
    ++ (policy_id_errors (or_else (get_field "policyId" fs) undefined)
        ++ (version_errors (or_else (get_field "version" fs) undefined) ++ walk "" (object fs)))
validate_canonical_apm_structure _ = not_an_object ∷ []
