-- ===== src/Evidence/Build.antt =====
-- `validateEap`, `buildEapObject`, `buildEap` and `verifyEapArtifact` of
-- packages/protocol-sdk/src/evidence.ts. The fields are texts, so that the tests on `typeof` hold.
use reclose.Prelude.{
  ℕ, ◌+◌, String, Bool, true, false, ◌&&◌, ◌||◌, Option, List, [], ◌∷◌, ◌++◌, map, Result, ok,
  throw, ◌>>=◌, ◌>>◌, throw_if, map_result, ok_or, or_else, if◌then◌else◌, ltb, leb, ◌==◌,
  string_eq, nat_eq, includes, length, is_hash, utf16_length, decimal,
}
use reclose.Json.{
  Value, text, array, object, field, no_fields, Fields, to_items, canonical_keccak256, stringify,
  JcsError, unsupported,
}
use reclose.Json
use reclose.Keccak.{keccak256_hex, utf8_encode}
use reclose.Policy.{is_valid_address}
use reclose.Evidence.{
  max_eap_json_bytes, max_sources, max_source_text_chars, max_subject_chars, content_addressed,
  governed_source_classes, EvidenceSourceInput, EapInput, CanonicalEvidenceSource, EapPreimage,
  CanonicalEap, EapValidationError, error_at, expect, valid_id, valid_timestamp,
  is_valid_source_url, Url,
}

pub data EapError : Type 0 where
  validation_failed : List EapValidationError → EapError
  too_large : (byte_length : ℕ) → EapError
  not_json : JcsError → EapError
  -- the `URIError` of `encodeURIComponent`
  malformed_text : EapError

abbrev pub with_eap_error : {A : Type 0} → Result JcsError A → Result EapError A
with_eap_error (ok a) = ok a
with_eap_error (throw e) = throw (not_json e)

-- `sources[i].name`
abbrev pub source_field : ℕ → String → String
source_field i name = Json.◌++◌ "sources[" (Json.◌++◌ (decimal i) (Json.◌++◌ "]." name))

module _ (parse_url : String → Option Url) (is_date : String → Bool) where
  abbrev source_url_ok : String → Bool
  source_url_ok = is_valid_source_url parse_url is_date

  abbrev timestamp_ok : String → Bool
  timestamp_ok = valid_timestamp parse_url is_date

  -- The check of the snapshot of a content-addressed source.
  unfoldable pub check_snapshot : ℕ → Option String → List EapValidationError
  unfolding is_valid_source_url
  check_snapshot i snapshot_ref =
      let ref = or_else snapshot_ref "" in
      if ref == ""
      then error_at (source_field i "snapshotRef")
          "CONTENT_ADDRESSED_SNAPSHOT requires a non-empty, independently-fetchable snapshotRef"
        ∷ []
      else expect (source_url_ok ref) (
          error_at (source_field i "snapshotRef")
            "snapshotRef must be a safe/supported HTTPS URL for CONTENT_ADDRESSED_SNAPSHOT")

  unfoldable pub check_source : ℕ → EvidenceSourceInput → List EapValidationError
  unfolding valid_id is_valid_source_url valid_timestamp utf16_length check_snapshot
  check_source i src =
      expect (valid_id src.source_id 64) (error_at (source_field i "sourceId") "invalid sourceId")
      ++ (expect (source_url_ok src.url)
            (error_at (source_field i "url") "unsafe/unsupported HTTPS source URL")
          ++ (expect (includes src.source_class governed_source_classes)
                (error_at (source_field i "sourceClass") "sourceClass is not governed")
              ++ (expect (leb (utf16_length src.extracted_text) max_source_text_chars) (
                    error_at (source_field i "extractedText")
                      "extractedText exceeds 16000 characters")
                  ++ (expect (leb (utf16_length (or_else src.snapshot_ref "")) 2048) (
                        error_at (source_field i "snapshotRef")
                          "snapshotRef must be <=2048 characters")
                      ++ ((if src.source_class == content_addressed
                            then check_snapshot i src.snapshot_ref
                            else [])
                          ++ expect (timestamp_ok src.retrieved_at) (
                              error_at (source_field i "retrievedAt")
                                "invalid retrievedAt timestamp"))))))

  unfoldable pub check_sources : ℕ → List EvidenceSourceInput → List EapValidationError
  unfolding check_source
  check_sources i [] = []
  check_sources i (src ∷ srcs) = check_source i src ++ check_sources (i + 1) srcs

  -- The checks before those of the sources.
  unfoldable pub check_header : EapInput → List EapValidationError
  unfolding valid_id is_hash is_valid_address valid_timestamp utf16_length
  check_header eap =
      expect (valid_id eap.target_id 96) (error_at "targetId" "invalid targetId")
      ++ (expect (is_hash eap.policy_hash)
            (error_at "policyHash" "policyHash must be canonical lowercase 0x+64 hex")
          ++ (expect (valid_id eap.rule_id 64) (error_at "ruleId" "invalid ruleId")
              ++ (expect (is_valid_address eap.reporter)
                    (error_at "reporter" "reporter must be a 20-byte address")
                  ++ (expect (timestamp_ok eap.observed_at)
                        (error_at "observedAt" "observedAt must be an ISO-compatible timestamp")
                      ++ (expect (timestamp_ok eap.retrieved_at) (
                            error_at "retrievedAt"
                              "retrievedAt must be an ISO-compatible timestamp")
                          ++ expect (leb (utf16_length eap.subject) max_subject_chars)
                              (error_at "subject" "subject must be at most 256 characters"))))))

  unfoldable pub validate_eap : EapInput → List EapValidationError
  unfolding check_header check_sources
  validate_eap eap =
      check_header eap
      ++ (if ltb (length eap.sources) 1 || ltb max_sources (length eap.sources)
          then error_at "sources" "sources must contain between 1 and 4 entries" ∷ []
          else check_sources 0 eap.sources)

abbrev pub with_digest : EvidenceSourceInput → String → CanonicalEvidenceSource
with_digest src content_hash = record {
  source_id = src.source_id;
  url = src.url;
  source_class = src.source_class;
  extracted_text = src.extracted_text;
  snapshot_ref = or_else src.snapshot_ref "";
  retrieved_at = src.retrieved_at;
  content_hash = content_hash;
}

-- `encodes` tells whether the runtime's `encodeURIComponent` takes a text: it throws on one with a
-- lone surrogate, which passes the validation.
module _ (encodes : String → Bool) where
  -- `keccak256Hex` of a text
  unfoldable pub text_digest : String → Result EapError String
  unfolding keccak256_hex
  text_digest s = if encodes s then ok (keccak256_hex s) else throw malformed_text

  -- The source with its text's digest.
  unfoldable pub canonical_source : EvidenceSourceInput → Result EapError CanonicalEvidenceSource
  unfolding text_digest
  canonical_source src = do
    content_hash ← text_digest src.extracted_text
    ok (with_digest src content_hash)

-- `withoutArtifact`, of the sources with their digests
unfoldable pub preimage_of : EapInput → List CanonicalEvidenceSource → EapPreimage
preimage_of eap sources = record {
  target_id = eap.target_id;
  policy_hash = eap.policy_hash;
  rule_id = eap.rule_id;
  subject = eap.subject;
  reporter = eap.reporter;
  observed_at = eap.observed_at;
  sources = sources;
  source_classes = map (λ s. s.source_class) sources;
  retrieved_at = eap.retrieved_at;
  content_hashes = map (λ s. s.content_hash) sources;
  snapshot_refs = map (λ s. s.snapshot_ref) sources;
}

abbrev pub source_value : CanonicalEvidenceSource → Value
source_value s = object (
    field "sourceId" (text s.source_id) (
      field "url" (text s.url) (
        field "sourceClass" (text s.source_class) (
          field "extractedText" (text s.extracted_text) (
            field "snapshotRef" (text s.snapshot_ref) (
              field "retrievedAt" (text s.retrieved_at)
                (field "contentHash" (text s.content_hash) no_fields)))))))

abbrev pub texts : List String → Value
texts ss = array (to_items (map text ss))

-- The fields of a package, with further ones after them.
abbrev pub preimage_fields : EapPreimage → Fields → Fields
preimage_fields p more = field "schema" (text "reclose-eap-v1") (
    field "targetId" (text p.target_id) (
      field "policyHash" (text p.policy_hash) (
        field "ruleId" (text p.rule_id) (
          field "subject" (text p.subject) (
            field "reporter" (text p.reporter) (
              field "observedAt" (text p.observed_at) (
                field "sources" (array (to_items (map source_value p.sources))) (
                  field "sourceClasses" (texts p.source_classes) (
                    field "retrievedAt" (text p.retrieved_at) (
                      field "contentHashes" (texts p.content_hashes)
                        (field "snapshotRefs" (texts p.snapshot_refs) more)))))))))))

abbrev pub preimage_value : EapPreimage → Value
preimage_value p = object (preimage_fields p no_fields)

abbrev pub eap_value : CanonicalEap → Value
eap_value eap =
    object (preimage_fields eap.preimage (field "artifactHash" (text eap.artifact_hash) no_fields))

-- `JSON.stringify(eap)`
unfoldable pub eap_json : CanonicalEap → Result EapError String
eap_json eap = do
  json ← with_eap_error (stringify (eap_value eap))
  ok_or (not_json unsupported) json

-- The limit on the bytes of a serialized package.
unfoldable pub check_size : String → Result EapError String
check_size json =
    if ltb max_eap_json_bytes (length (utf8_encode json))
    then throw (too_large (length (utf8_encode json)))
    else ok json

module _ (encodes : String → Bool) (parse_url : String → Option Url) (is_date : String → Bool) where
  unfoldable pub build_eap_object : EapInput → Result EapError CanonicalEap
  build_eap_object eap = do
    let errors = validate_eap parse_url is_date eap
    throw_if (ltb 0 (length errors)) (validation_failed errors)
    sources ← map_result (canonical_source encodes) eap.sources
    let preimage = preimage_of eap sources
    artifact_hash ← with_eap_error (canonical_keccak256 (preimage_value preimage))
    ok (record { preimage = preimage; artifact_hash = artifact_hash })

  unfoldable pub build_eap : EapInput → Result EapError String
  build_eap eap = do canonical ← build_eap_object eap; json ← eap_json canonical; check_size json

-- Canonical JSON escapes lone surrogates, so that the digest of a package's own does not throw.
abbrev pub is_digest : Result JcsError String → String → Bool
is_digest (ok digest) hash = digest == hash
is_digest (throw e) hash = false

module _ (encodes : String → Bool) where
  -- The sources against the two lists of their hashes and references, in step, up to the first that
  -- does not match.
  unfoldable pub sources_match :
      List CanonicalEvidenceSource → List String → List String → Result EapError Bool
  unfolding text_digest
  sources_match [] hashes refs = ok true
  sources_match (src ∷ srcs) (h ∷ hashes) (r ∷ refs) =
      let rest = sources_match srcs hashes refs in
      (do
        digest ← text_digest encodes src.extracted_text
        if src.content_hash == digest && h == src.content_hash && r == src.snapshot_ref
            then rest
            else ok false)
  sources_match (src ∷ srcs) _ _ = ok false

  unfoldable pub verify_eap_artifact : CanonicalEap → Result EapError Bool
  verify_eap_artifact eap =
      let p = eap.preimage in
      if is_hash eap.artifact_hash
        && is_digest (canonical_keccak256 (preimage_value p)) eap.artifact_hash
        && length p.sources == length p.content_hashes
        && length p.sources == length p.snapshot_refs
      then sources_match p.sources p.content_hashes p.snapshot_refs
      else ok false
