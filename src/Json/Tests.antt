-- ===== src/Json/Tests.antt =====
-- Canonical texts of values (packages/protocol-sdk/src/canonical.ts).
use reclose.Prelude.{decimal, String, is_hash, ◌≡◌, refl, ok, throw, true}
use reclose.Json.{
  null, number, text, array, object, bigint, boolean, item, no_items, field, no_fields,
  canonicalize, unsupported_key, canonical_keccak256,
}
use reclose.Json.Total.{IsPlain, canonical_keccak256_total}

nested_text :
    canonicalize (
      object (
        field "b"
          (array (item (number 12) (item null no_items)))
          (field "a" (text "x\"y") (field "c" (boolean true) no_fields))))
    ≡ ok "{\"a\":\"x\\\"y\",\"b\":[12,null],\"c\":true}"
unfolding canonicalize decimal
nested_text = refl

bigint_child : canonicalize (object (field "a" (bigint 1) no_fields)) ≡ throw (unsupported_key "a")
unfolding canonicalize
bigint_child = refl

canonical_keccak256_total_example :
    (h : String) × (canonical_keccak256 (object (field "a" (number 1) no_fields)) ≡ ok h)
    × (is_hash h ≡ true)
unfolding IsPlain
canonical_keccak256_total_example =
    canonical_keccak256_total (object (field "a" (number 1) no_fields)) (tt, tt)
