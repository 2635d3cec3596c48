-- ===== src/Json/Total.antt =====
-- Which values `jcsCanonicalize` (packages/protocol-sdk/src/canonical.ts) accepts.
use reclose.Prelude.{
  String, true, false, List, [], ◌∷◌, ◌≡◌, refl, Result, ok, All, inl, inr, Bool-cases, ◌∙◌,
  is_hash,
}
use reclose.Json.{
  Value, undefined, null, nan, infinity, opaque, boolean, number, bigint, real, text, array, object,
  Items, no_items, item, Fields, no_fields, field, JcsError, Member, insert_member, sort_members,
  member_parts, check_child, canonicalize, canonical_items, canonical_members, canonical_keccak256,
  precedes, utf16, quote, join, ◌++◌,
}
use reclose.Keccak.{keccak256_hex}
use reclose.Keccak.Bytes.{is_hash-keccak256_hex}

-- A value of JSON: null, texts, booleans, finite numbers, and arrays and objects of them.
unfoldable mutual
  pub IsPlain : Value → Type 0
  IsPlain undefined = ⊥
  IsPlain nan = ⊥
  IsPlain (infinity negative) = ⊥
  IsPlain (opaque s) = ⊥
  IsPlain (bigint n) = ⊥
  IsPlain null = Unit
  IsPlain (boolean b) = Unit
  IsPlain (number n) = Unit
  IsPlain (real s) = Unit
  IsPlain (text s) = Unit
  IsPlain (array vs) = ArePlainItems vs
  IsPlain (object fs) = ArePlainFields fs

  pub ArePlainItems : Items → Type 0
  ArePlainItems no_items = Unit
  ArePlainItems (item v vs) = IsPlain v × ArePlainItems vs

  pub ArePlainFields : Fields → Type 0
  ArePlainFields no_fields = Unit
  ArePlainFields (field key v fs) = IsPlain v × ArePlainFields fs

abbrev pub Returns : {E A : Type 0} → Result E A → Type 0
Returns {E} {A} r = (a : A) × (r ≡ ok a)

abbrev text_member : String → String → String
text_member key s = quote key ++ ":" ++ s

abbrev HasText : Member → Type 0
HasText m = Returns m.1

All-insert_member :
    (m : Member) (ms : List Member) → HasText m → All HasText ms → All HasText (insert_member m ms)
unfolding insert_member
All-insert_member m [] h k = (h, tt)
All-insert_member m (n ∷ ns) h (k, ks) = elim (Bool-cases (precedes (utf16 m.0) (utf16 n.0))) [
  | inl before ↦ rw before (h, (k, ks))
  | inr after ↦ rw after (k, All-insert_member m ns h ks)
]

All-sort_members : (ms : List Member) → All HasText ms → All HasText (sort_members ms)
unfolding sort_members
All-sort_members [] h = tt
All-sort_members (m ∷ ms) (h, hs) = All-insert_member m (sort_members ms) h (All-sort_members ms hs)

member_parts_total : (ms : List Member) → All HasText ms → Returns (member_parts ms)
unfolding member_parts
member_parts_total [] h = ([], refl)
member_parts_total ((key, r) ∷ ms) ((s, p), hs) =
    let (parts, q) = member_parts_total ms hs in (text_member key s ∷ parts, rw (p, q) refl)

check_child_plain :
    (key : String) (v : Value) (r : Result JcsError String) → IsPlain v → check_child key v r ≡ r
unfolding check_child IsPlain
check_child_plain key undefined r h = absurd h
check_child_plain key null r h = refl
check_child_plain key nan r h = refl
check_child_plain key (infinity b) r h = refl
check_child_plain key (opaque s) r h = absurd h
check_child_plain key (boolean b) r h = refl
check_child_plain key (number n) r h = refl
check_child_plain key (bigint n) r h = absurd h
check_child_plain key (real s) r h = refl
check_child_plain key (text s) r h = refl
check_child_plain key (array vs) r h = refl
check_child_plain key (object fs) r h = refl

mutual
  unfolding canonicalize IsPlain

  canonicalize_plain : (v : Value) → IsPlain v → Returns (canonicalize v)
  canonicalize_plain undefined h = absurd h
  canonicalize_plain null h = (_, refl)
  canonicalize_plain nan h = absurd h
  canonicalize_plain (infinity b) h = absurd h
  canonicalize_plain (opaque s) h = absurd h
  canonicalize_plain (boolean true) h = (_, refl)
  canonicalize_plain (boolean false) h = (_, refl)
  canonicalize_plain (number n) h = (_, refl)
  canonicalize_plain (bigint n) h = absurd h
  canonicalize_plain (real s) h = (_, refl)
  canonicalize_plain (text s) h = (_, refl)
  canonicalize_plain (array vs) h =
      let (parts, p) = items_plain vs h in ("[" ++ join "," parts ++ "]", rw p refl)
  canonicalize_plain (object fs) h =
      let (parts, p) =
        member_parts_total (sort_members (canonical_members fs))
          (All-sort_members (canonical_members fs) (members_plain fs h)) in
      ("{" ++ join "," parts ++ "}", rw p refl)

  items_plain : (vs : Items) → ArePlainItems vs → Returns (canonical_items vs)
  items_plain no_items h = (_, refl)
  items_plain (item v vs) (h, hs) =
      let (part, p) = canonicalize_plain v h in
      let (parts, q) = items_plain vs hs in (part ∷ parts, rw (p, q) refl)

  members_plain : (fs : Fields) → ArePlainFields fs → All HasText (canonical_members fs)
  members_plain no_fields h = tt
  members_plain (field key v fs) (h, hs) =
      let (part, p) = canonicalize_plain v h in
      ((part, check_child_plain key v (canonicalize v) h ∙ p), members_plain fs hs)

-- A value of JSON has a canonical text.
pub canonicalize_total : (v : Value) → IsPlain v → Returns (canonicalize v)
canonicalize_total = canonicalize_plain

-- A value of JSON, without NaN, infinities, bigints and undefined, has a digest, and the digest is a
-- canonical hash.
pub canonical_keccak256_total :
    (v : Value) → IsPlain v → (h : String) × (canonical_keccak256 v ≡ ok h) × (is_hash h ≡ true)
unfolding canonical_keccak256
canonical_keccak256_total v plain =
    let (s, p) = canonicalize_plain v plain in (keccak256_hex s, rw p refl, is_hash-keccak256_hex s)
