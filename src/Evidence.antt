-- ===== src/Evidence.antt =====
-- packages/protocol-sdk/src/evidence.ts: the validation and the building of canonical evidence
-- artifact packages. The URL parser and `Date.parse` are parameters; a source class and a timestamp
-- are texts.
pub mod Build
pub mod Verified
mod Tests
use reclose.Prelude.{
  ℕ, zero, suc, ◌+◌, String, Bool, true, false, not, ◌&&◌, ◌||◌, Option, none, some, List, [], ◌∷◌,
  ◌++◌, map, Result, ok, throw, ◌>>=◌, ◌>>◌, throw_if, or_else, is_some, if◌then◌else◌, ltb, leb,
  ◌==◌, string_eq, nat_eq, all, any, includes, length, get_elem?, every_char, is_digit,
  is_alphanumeric, is_hash, starts_with, utf16_length, lower_case, without_suffix, split,
  value_from, decimal,
}
use reclose.Json.{
  Value, text, array, object, field, no_fields, to_items, canonical_keccak256, stringify, JcsError,
  unsupported,
}
use reclose.Json
use reclose.Keccak.{keccak256_hex, utf8_encode}
use reclose.Policy.{is_valid_address, is_identifier_extra}

abbrev pub max_eap_json_bytes : ℕ
max_eap_json_bytes = 12288

abbrev pub max_sources : ℕ
max_sources = 4

abbrev pub max_source_url_chars : ℕ
max_source_url_chars = 2048

abbrev pub max_source_text_chars : ℕ
max_source_text_chars = 16000

abbrev pub max_subject_chars : ℕ
max_subject_chars = 256

abbrev pub content_addressed : String
content_addressed = "CONTENT_ADDRESSED_SNAPSHOT"

abbrev pub governed_source_classes : List String
governed_source_classes =
    "AUTHORITATIVE_SIGNED" ∷ "AUTHORITATIVE_PUBLIC" ∷ "ONCHAIN" ∷ "INDEPENDENT_PUBLIC"
    ∷ content_addressed ∷ "DERIVED_DETERMINISTIC" ∷ []

abbrev pub blocked_hosts : List String
blocked_hosts =
    "localhost" ∷ "localhost." ∷ "0.0.0.0" ∷ "metadata.google.internal" ∷ "169.254.169.254" ∷ []

abbrev pub blocked_prefixes : List String
blocked_prefixes = "127." ∷ "10." ∷ "192.168." ∷ "0." ∷ []

-- `/^[0-9]+$/.test(p) && Number(p) >= 0 && Number(p) <= 255`
unfoldable pub is_octet : String → Bool
unfolding every_char
is_octet p = not (p == "") && every_char is_digit p && leb (value_from 0 p) 255

abbrev pub in_private_block : (first second : ℕ) → Bool
in_private_block first second =
    (first == 172 && leb 16 second && leb second 31) || (first == 169 && second == 254)

-- The tests on the four parts of a host.
unfoldable pub is_private_octets : String → List String → Bool
unfolding is_octet
is_private_octets host (a ∷ b ∷ c ∷ d ∷ []) =
    is_octet a
    && is_octet b
    && is_octet c
    && is_octet d
    && (any (λ prefix. starts_with host prefix) blocked_prefixes
        || in_private_block (value_from 0 a) (value_from 0 b))
is_private_octets host _ = false

unfoldable pub is_private_ipv4 : String → Bool
unfolding is_private_octets split
is_private_ipv4 host = is_private_octets host (split b'.' host)

-- The parts of a parsed URL that are tested.
pub record Url : Type 0 where
  pub username : String
  pub password : String
  pub protocol : String
  pub port : String
  pub hostname : String

unfoldable pub is_safe_host : String → Bool
unfolding is_private_ipv4 without_suffix every_char
is_safe_host host =
    not (
      host == ""
      || includes host blocked_hosts
      || is_some (without_suffix ".local" host)
      || is_private_ipv4 host)
    && every_char (λ c. not (c == b':')) host

unfoldable pub is_safe_url : Url → Bool
unfolding is_safe_host lower_case
is_safe_url u =
    u.username == ""
    && u.password == ""
    && u.protocol == "https:"
    && (u.port == "" || u.port == "443")
    && is_safe_host (lower_case u.hostname)

pub record EvidenceSourceInput : Type 0 where
  pub source_id : String
  pub url : String
  pub source_class : String
  pub extracted_text : String
  pub snapshot_ref : Option String
  pub retrieved_at : String

pub record EapInput : Type 0 where
  pub target_id : String
  pub policy_hash : String
  pub rule_id : String
  pub subject : String
  pub reporter : String
  pub observed_at : String
  pub retrieved_at : String
  pub sources : List EvidenceSourceInput

pub record CanonicalEvidenceSource : Type 0 where
  pub source_id : String
  pub url : String
  pub source_class : String
  pub extracted_text : String
  pub snapshot_ref : String
  pub retrieved_at : String
  pub content_hash : String

-- A canonical package without its `schema`, which is constant, and `artifactHash`.
pub record EapPreimage : Type 0 where
  pub target_id : String
  pub policy_hash : String
  pub rule_id : String
  pub subject : String
  pub reporter : String
  pub observed_at : String
  pub sources : List CanonicalEvidenceSource
  pub source_classes : List String
  pub retrieved_at : String
  pub content_hashes : List String
  pub snapshot_refs : List String

pub record CanonicalEap : Type 0 where
  pub preimage : EapPreimage
  pub artifact_hash : String

pub record EapValidationError : Type 0 where
  pub field_name : String
  pub message : String

abbrev pub error_at : String → String → EapValidationError
error_at field_name message = record { field_name = field_name; message = message }

-- `if (!test) errors.push(...)`, before the errors of the checks that follow.
abbrev pub expect : Bool → EapValidationError → List EapValidationError
expect test error = if test then [] else error ∷ []

-- `/^[A-Za-z0-9_.:-]+$/`, within a length
unfoldable pub valid_id : String → ℕ → Bool
unfolding every_char utf16_length
valid_id value max =
    ltb 0 (utf16_length value)
    && leb (utf16_length value) max
    && every_char (λ c. is_alphanumeric c || is_identifier_extra c) value

module _ (parse_url : String → Option Url) (is_date : String → Bool) where
  unfoldable pub is_valid_source_url : String → Bool
  unfolding is_safe_url utf16_length
  is_valid_source_url url =
      not (url == "")
      && leb (utf16_length url) max_source_url_chars
      && starts_with url "https://"
      && elim (parse_url url) [ none ↦ false | some u ↦ is_safe_url u ]

  unfoldable pub valid_timestamp : String → Bool
  unfolding utf16_length
  valid_timestamp value = ltb 0 (utf16_length value) && leb (utf16_length value) 40 && is_date value
