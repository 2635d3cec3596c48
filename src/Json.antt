-- ===== src/Json.antt =====
-- `jcsCanonicalize` of packages/protocol-sdk/src/canonical.ts, and the values that it takes.
pub mod Total
mod Tests
use Prim.Native.Char.{Char, code}
use Prim.Native.String
use reclose.Prelude.{
  ℕ, ◌+◌, ◌-◌, ◌/◌, ◌%◌, String, Bool, true, false, Option, none, some, List, [], ◌∷◌, map, Result,
  ok, throw, ◌>>=◌, if◌then◌else◌, ltb, ◌==◌, nat_eq, hex_digit, decimal, units,
}
use reclose.Keccak.{keccak256_hex}

-- What a variable of type `unknown` holds. `number` is a safe integer that is not negative, `real`
-- any other finite number, by its text; `opaque` is a function or a symbol, by what `String` makes
-- of it.
mutual
  pub data Value : Type 0 where
    undefined null nan : Value
    boolean : Bool → Value
    infinity : (negative : Bool) → Value
    number bigint : ℕ → Value
    real text opaque : String → Value
    array : Items → Value
    object : Fields → Value

  pub data Fields : Type 0 where
    no_fields : Fields
    field : String → Value → Fields → Fields

  pub data Items : Type 0 where
    no_items : Items
    item : Value → Items → Items

abbrev pub to_items : List Value → Items
to_items [] = no_items
to_items (v ∷ vs) = item v (to_items vs)

pub data JcsError : Type 0 where
  non_finite unsupported : JcsError
  unsupported_key : String → JcsError

infixr 6 ◌++◌
abbrev pub ◌++◌ : String → String → String
s ++ t = String.◌++◌ s t

-- One character of `JSON.stringify` of a text.
unfoldable pub escaped : Char → String
escaped c =
    if code c == 0x22
    then "\\\""
    else if code c == 0x5c
    then "\\\\"
    else if code c == 8
    then "\\b"
    else if code c == 9
    then "\\t"
    else if code c == 10
    then "\\n"
    else if code c == 12
    then "\\f"
    else if code c == 13
    then "\\r"
    else if ltb (code c) 0x20
    then "\\u00" ++ String.◌∷◌ (hex_digit (code c / 16)) (String.◌∷◌ (hex_digit (code c % 16)) "")
    else String.◌∷◌ c ""

unfoldable pub escape : String → String
unfolding escaped
escape String.[] = ""
escape (String.◌∷◌ c s) = escaped c ++ escape s

-- `JSON.stringify(text)`
abbrev pub quote : String → String
quote s = "\"" ++ escape s ++ "\""

-- The UTF-16 code units of a text, by which `sort()` compares texts.
unfoldable pub utf16 : String → List ℕ
utf16 String.[] = []
utf16 (String.◌∷◌ c s) =
    if ltb (code c) 0x10000
    then code c ∷ utf16 s
    else (0xd800 + (code c - 0x10000) / 1024) ∷ (0xdc00 + (code c - 0x10000) % 1024) ∷ utf16 s

unfoldable pub precedes : List ℕ → List ℕ → Bool
precedes [] ys = true
precedes (x ∷ xs) [] = false
precedes (x ∷ xs) (y ∷ ys) = if ltb x y then true else if x == y then precedes xs ys else false

-- The member of an object under a key, with the text of its value, and where it stands in the order
-- of the keys.
abbrev pub Member : Type 0
Member = String × Result JcsError String

unfoldable pub insert_member : Member → List Member → List Member
unfolding precedes utf16
insert_member m [] = m ∷ []
insert_member m (n ∷ ns) =
    if precedes (utf16 m.0) (utf16 n.0) then m ∷ n ∷ ns else n ∷ insert_member m ns

-- `Object.keys(obj).sort()`, the keys with their values
unfoldable pub sort_members : List Member → List Member
unfolding insert_member
sort_members [] = []
sort_members (m ∷ ms) = insert_member m (sort_members ms)

-- The texts `key:value`, up to the first value that is refused.
unfoldable pub member_parts : List Member → Result JcsError (List String)
unfolding escape
member_parts [] = ok []
member_parts ((key, child) ∷ ms) = do
  value ← child
  parts ← member_parts ms
  ok ((quote key ++ ":" ++ value) ∷ parts)

-- `parts.join(separator)`
unfoldable pub join : String → List String → String
join separator [] = ""
join separator (s ∷ []) = s
join separator (s ∷ t ∷ ts) = s ++ separator ++ join separator (t ∷ ts)

-- The check on a child before it is canonicalized.
unfoldable pub check_child : String → Value → Result JcsError String → Result JcsError String
check_child key undefined r = throw (unsupported_key key)
check_child key (opaque s) r = throw (unsupported_key key)
check_child key (bigint n) r = throw (unsupported_key key)
check_child key _ r = r

unfoldable mutual
  unfolding escape join member_parts sort_members check_child

  pub canonicalize : Value → Result JcsError String
  canonicalize undefined = throw unsupported
  canonicalize null = ok "null"
  canonicalize nan = throw non_finite
  canonicalize (infinity negative) = throw non_finite
  canonicalize (opaque s) = throw unsupported
  canonicalize (boolean true) = ok "true"
  canonicalize (boolean false) = ok "false"
  canonicalize (number n) = ok (decimal n)
  canonicalize (bigint n) = throw unsupported
  canonicalize (real s) = ok s
  canonicalize (text s) = ok (quote s)
  canonicalize (array vs) = do parts ← canonical_items vs; ok ("[" ++ join "," parts ++ "]")
  canonicalize (object fs) = do
    parts ← member_parts (sort_members (canonical_members fs))
    ok ("{" ++ join "," parts ++ "}")

  pub canonical_items : Items → Result JcsError (List String)
  canonical_items no_items = ok []
  canonical_items (item v vs) = do
    part ← canonicalize v
    parts ← canonical_items vs
    ok (part ∷ parts)

  pub canonical_members : Fields → List Member
  canonical_members no_fields = []
  canonical_members (field key v fs) =
      (key, check_child key v (canonicalize v)) ∷ canonical_members fs

unfoldable pub canonical_keccak256 : Value → Result JcsError String
unfolding canonicalize keccak256_hex
canonical_keccak256 value = do s ← canonicalize value; ok (keccak256_hex s)

-- `JSON.stringify(value)`, which leaves out what JSON has no text for: `none` is undefined.
abbrev or_null : Option String → String
or_null none = "null"
or_null (some s) = s

abbrev member_text : String → Option String → List String → List String
member_text key none parts = parts
member_text key (some s) parts = (quote key ++ ":" ++ s) ∷ parts

unfoldable mutual
  unfolding escape join

  pub stringify : Value → Result JcsError (Option String)
  stringify undefined = ok none
  stringify (opaque s) = ok none
  stringify null = ok (some "null")
  stringify nan = ok (some "null")
  stringify (infinity negative) = ok (some "null")
  stringify (boolean true) = ok (some "true")
  stringify (boolean false) = ok (some "false")
  stringify (number n) = ok (some (decimal n))
  stringify (bigint n) = throw unsupported
  stringify (real s) = ok (some s)
  stringify (text s) = ok (some (quote s))
  stringify (array vs) = do parts ← item_texts vs; ok (some ("[" ++ join "," parts ++ "]"))
  stringify (object fs) = do parts ← field_texts fs; ok (some ("{" ++ join "," parts ++ "}"))

  pub item_texts : Items → Result JcsError (List String)
  item_texts no_items = ok []
  item_texts (item v vs) = do part ← stringify v; parts ← item_texts vs; ok (or_null part ∷ parts)

  pub field_texts : Fields → Result JcsError (List String)
  field_texts no_fields = ok []
  field_texts (field key v fs) = do
    part ← stringify v
    parts ← field_texts fs
    ok (member_text key part parts)
