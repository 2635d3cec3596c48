-- ===== src/Evidence/Tests.antt =====
-- Evidence packages at concrete inputs (packages/protocol-sdk/src/evidence.ts).
use reclose.Prelude.{
  String, true, false, Option, none, some, [], ◌∷◌, ◌≡◌, refl, ok, throw, ◌⊎◌, is_hash,
}
use reclose.Evidence.{Url, EvidenceSourceInput, EapInput, CanonicalEap, is_private_ipv4}
use reclose.Evidence.Build.{
  validate_eap, canonical_source, build_eap_object, verify_eap_artifact, malformed_text,
}
use reclose.Evidence.Verified.{has_malformed, build_eap_object-verify_eap_artifact}

-- The parser of these tests finds the same host everywhere.
abbrev parse_url : String → Option Url
parse_url url = some (record {
  username = "";
  password = "";
  protocol = "https:";
  port = "";
  hostname = "example.org";
})

abbrev source : EvidenceSourceInput
source = record {
  source_id = "s1";
  url = "https://example.org/status";
  source_class = "AUTHORITATIVE_PUBLIC";
  extracted_text = "halted";
  snapshot_ref = none;
  retrieved_at = "2026-01-01T00:00:00Z";
}

abbrev package_input : EapInput
package_input = record {
  target_id = "t";
  policy_hash = "0x0000000000000000000000000000000000000000000000000000000000000000";
  rule_id = "R";
  subject = "outage";
  reporter = "0x0000000000000000000000000000000000000000";
  observed_at = "2026-01-01T00:00:00Z";
  retrieved_at = "2026-01-01T00:00:00Z";
  sources = source ∷ [];
}

accepted : validate_eap parse_url (λ s. true) package_input ≡ []
unfolding validate_eap
accepted = refl

build_eap_object-verify_eap_artifact_example :
    ((c : CanonicalEap) × (build_eap_object (λ s. true) parse_url (λ s. true) package_input ≡ ok c)
      × (has_malformed (λ s. true) package_input.sources ≡ false)
      × (is_hash c.artifact_hash ≡ true)
      × (verify_eap_artifact (λ s. true) c ≡ ok true))
    ⊎ ((build_eap_object (λ s. true) parse_url (λ s. true) package_input ≡ throw malformed_text)
        × (has_malformed (λ s. true) package_input.sources ≡ true))
build_eap_object-verify_eap_artifact_example =
    build_eap_object-verify_eap_artifact (λ s. true) parse_url (λ s. true) package_input accepted

-- A text that is not encoded passes the validation, and then the build throws.
lone_surrogate :
    build_eap_object (λ s. false) parse_url (λ s. true) package_input ≡ throw malformed_text
unfolding build_eap_object validate_eap canonical_source
lone_surrogate = refl

private_addresses : is_private_ipv4 "172.20.0.1" ≡ true
unfolding is_private_ipv4
private_addresses = refl

public_address : is_private_ipv4 "172.32.0.1" ≡ false
unfolding is_private_ipv4
public_address = refl
