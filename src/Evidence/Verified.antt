-- ===== src/Evidence/Verified.antt =====
-- What is built is verified (packages/protocol-sdk/src/evidence.ts).
use reclose.Prelude.{
  String, Bool, true, false, Option, List, [], ◌∷◌, map, ◌≡◌, refl, sym, ◌∙◌, or_else, inl, inr,
  ◌⊎◌, not, any, is_hash, throw, map_result, Bool-cases, ltb, ok_injective, ok, string_eq, ◌==◌,
  eq_iff, arith, length, length-map, nat_beq_iff, nat_eq,
}
use reclose.Json.{text, to_items}
use reclose.Json.Total.{IsPlain, ArePlainItems, canonical_keccak256_total}
use reclose.Keccak.{keccak256_hex}
use reclose.Evidence.{
  Url, EvidenceSourceInput, EapInput, CanonicalEvidenceSource, EapPreimage, CanonicalEap,
}
use reclose.Evidence.Build.{
  validate_eap, canonical_source, with_digest, preimage_of, source_value, preimage_value,
  build_eap_object, sources_match, verify_eap_artifact, malformed_text,
}

plain_texts : (ss : List String) → ArePlainItems (to_items (map text ss))
unfolding IsPlain
plain_texts [] = tt
plain_texts (s ∷ ss) = (tt, plain_texts ss)

plain_sources : (ss : List CanonicalEvidenceSource) → ArePlainItems (to_items (map source_value ss))
unfolding IsPlain
plain_sources [] = tt
plain_sources (s ∷ ss) = ((tt, (tt, (tt, (tt, (tt, (tt, (tt, tt))))))), plain_sources ss)

IsPlain-preimage_value : (p : EapPreimage) → IsPlain (preimage_value p)
unfolding IsPlain
IsPlain-preimage_value p = (
  tt,
  (
    tt,
    (
      tt,
      (
        tt,
        (
          tt,
          (
            tt,
            (
              tt,
              (
                plain_sources p.sources,
                (
                  plain_texts p.source_classes,
                  (tt, (plain_texts p.content_hashes, (plain_texts p.snapshot_refs, tt))),
                ),
              ),
            ),
          ),
        ),
      ),
    ),
  ),
)

same_text : (s : String) → (s == s) ≡ true
same_text s = (eq_iff s s).1 refl

abbrev content_hashes : List CanonicalEvidenceSource → List String
content_hashes sources = map (λ s. s.content_hash) sources

abbrev snapshot_refs : List CanonicalEvidenceSource → List String
snapshot_refs sources = map (λ s. s.snapshot_ref) sources

module _ (encodes : String → Bool) where
  -- Some source has a text that the runtime does not encode.
  abbrev pub has_malformed : List EvidenceSourceInput → Bool
  has_malformed sources = any (λ s. not (encodes s.extracted_text)) sources

  -- The digests of the sources are taken, and they match; or a text is not encoded.
  sources_cases :
      (srcs : List EvidenceSourceInput)
      → ((sources : List CanonicalEvidenceSource) × (map_result (canonical_source encodes) srcs
            ≡ ok sources)
          × (has_malformed srcs ≡ false)
          × (sources_match encodes sources (content_hashes sources) (snapshot_refs sources)
              ≡ ok true))
        ⊎ ((map_result (canonical_source encodes) srcs ≡ throw malformed_text)
            × (has_malformed srcs ≡ true))
  unfolding sources_match canonical_source
  sources_cases [] = inl ([], refl, refl, refl)
  sources_cases (src ∷ srcs) = elim (Bool-cases (encodes src.extracted_text)) [
    | inr refused ↦ inr (rw refused refl, rw refused refl)
    | inl taken ↦ elim (sources_cases srcs) [
      | inr (thrown, bad) ↦ inr (rw (taken, thrown) refl, rw (taken, bad) refl)
      | inl (sources, built, good, matches) ↦ inl (
        with_digest src (keccak256_hex src.extracted_text) ∷ sources,
        rw (taken, built) refl,
        rw (taken, good) refl,
        rw
            (
              taken,
              same_text (keccak256_hex src.extracted_text),
              same_text (or_else src.snapshot_ref ""),
              matches,
            )
            refl,
      )
    ]
  ]

  module _ (parse_url : String → Option Url) (is_date : String → Bool) where
    -- A package that passes the validation is built exactly where the runtime encodes the text of
    -- every source: then with an artifact hash, and it is verified as it was built; else the build
    -- throws the error of the encoding.
    pub build_eap_object-verify_eap_artifact :
        (eap : EapInput)
        → validate_eap parse_url is_date eap ≡ []
        → ((c : CanonicalEap) × (build_eap_object encodes parse_url is_date eap ≡ ok c)
            × (has_malformed eap.sources ≡ false)
            × (is_hash c.artifact_hash ≡ true)
            × (verify_eap_artifact encodes c ≡ ok true))
          ⊎ ((build_eap_object encodes parse_url is_date eap ≡ throw malformed_text)
              × (has_malformed eap.sources ≡ true))
    unfolding build_eap_object verify_eap_artifact preimage_of
    build_eap_object-verify_eap_artifact eap valid = elim (sources_cases eap.sources) [
      | inr (thrown, bad) ↦ inr (rw (valid, thrown) refl, bad)
      | inl (sources, taken, good, matches) ↦
          let p = preimage_of eap sources in
          let (hash, found, canonical) =
            canonical_keccak256_total (preimage_value p) (IsPlain-preimage_value p) in
          let hashes : (length sources == length (content_hashes sources)) ≡ true =
            (nat_beq_iff _ _).1 (sym (length-map (λ s. s.content_hash) sources)) in
          let refs : (length sources == length (snapshot_refs sources)) ≡ true =
            (nat_beq_iff _ _).1 (sym (length-map (λ s. s.snapshot_ref) sources)) in
          inl (
            record { preimage = p; artifact_hash = hash },
            rw (valid, taken, found) refl,
            good,
            canonical,
            rw (canonical, found, same_text hash, hashes, refs) matches,
          )
    ]

    no_errors : {A : Type 0} (xs : List A) → ltb 0 (length xs) ≡ false → xs ≡ []
    no_errors [] h = refl
    no_errors (x ∷ xs) h = ground arith

    -- Whatever is built is verified.
    pub verify_eap_artifact_of_built :
        (eap : EapInput) (c : CanonicalEap)
        → build_eap_object encodes parse_url is_date eap ≡ ok c
        → verify_eap_artifact encodes c ≡ ok true
    unfolding build_eap_object
    verify_eap_artifact_of_built eap c built =
        elim (Bool-cases (ltb 0 (length (validate_eap parse_url is_date eap)))) [
          | inl some_error ↦ let refused = rw some_error at built in cc
          | inr none_left ↦
              elim (build_eap_object-verify_eap_artifact eap (no_errors _ none_left)) [
                | inr (thrown, _) ↦ cc
                | inl (c', built', _, _, verified) ↦
                    let same : c' ≡ c = ok_injective (sym built' ∙ built) in rw (← same) verified
              ]
        ]
