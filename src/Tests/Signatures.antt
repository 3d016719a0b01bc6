-- ===== src/Tests/Signatures.antt =====
-- The signatures of images at concrete inputs.
use ssle_project.Prelude.{
  ℕ, ◌≡◌, refl, true, false, none, some, List, [], ◌∷◌, Bytes, codes, equal, if◌then◌else◌,
}
use ssle_project.Prelude.Int.{pos}
use ssle_project.Numbers.Base64.{decode}
use ssle_project.Numbers.Hex.{decode_hex}
use ssle_project.Agent.{lookup}
use ssle_project.Agent.Signature.{
  ok, panic, Layer, number, text, object, Fields, end, field, fields, field_at, merge,
}
use ssle_project.Agent.Signature.Parts.{
  Coders, first_fields, second_fields, as_object, as_number, as_text, as_text_or_panic,
  get_tlog_entries, get_certificate_chain, tlog_if, timestamps_if, get_verification_material,
  get_message_signature, hash_algorithm,
}
use ssle_project.Agent.Signature.Bundle.{
  Clients, first_digest, referred_bundle, signature_tag, is_simple_signing, simple_signing_layer,
  assembled_bundle, chosen_bundle, bundle_from_image, verify_image_signature,
}
use ssle_project.Agent.Signature.Laws.{
  IsDigestOf, is_object, verify_image_signature_sound, verify_image_signature_transplanted,
  verify_image_signature_panics,
}

abbrev payload : Fields ℕ
payload = field (codes "logIndex") (number 1) (
    field (codes "logID") (text (codes "0f"))
      (field (codes "integratedTime") (number 2) (field (codes "body") (text (codes "QUJD")) end)))

-- The annotation, and the body that is inside it.
abbrev annotation : Fields ℕ
annotation =
    field (codes "Payload") (object payload)
      (field (codes "SignedEntryTimestamp") (text (codes "QUJD")) end)

abbrev body : Fields ℕ
body = field (codes "apiVersion") (text (codes "1")) (field (codes "kind") (text (codes "k")) end)

abbrev pub coders : Coders
coders = record {
  Float = ℕ;
  to_int64 = pos;
  unmarshal = λ s. fields (if equal s (codes "ABC") then body else annotation);
  unmarshal_strings = λ s. none;
  pem_block = λ s. some s;
}

abbrev bad_coders : Coders
bad_coders = record {
  Float = ℕ;
  to_int64 = pos;
  unmarshal = λ s. fields end;
  unmarshal_strings = λ s. none;
  pem_block = λ s. some s;
}

abbrev signed_layer : Layer
signed_layer = record {
  media_type = codes "application/vnd.dev.cosign.simplesigning.v1+json";
  digest = record { algorithm = codes "sha256"; hex = codes "0a" };
  annotations = [];
}

-- One signature manifest stands behind every tag, and the verifier looks at the digest.
abbrev pub clients : Clients
clients = record {
  Digest = Bytes;
  Bundle = Unit {0};
  CertId = Unit {0};
  new_digest = λ d. some d;
  identifier = λ d. d;
  in_repository = λ d h. h.hex;
  sig_tag = λ d tag. tag;
  new_hash = λ d. record { algorithm = codes "sha256"; hex = d };
  referrers = λ d. some [];
  manifest = λ d. none;
  tag_manifest = λ tag. some (codes "m");
  parse_manifest = λ m. some (signed_layer ∷ []);
  Blob = Unit {0};
  layer = λ d. none;
  uncompressed = λ b. none;
  decode_bundle = λ b. none;
  media_type_string = some (codes "0.1");
  new_bundle = λ b. some tt;
  verify = λ bun digest cert_id. equal digest (10 ∷ []);
}

verify_image_signature_sound_example :
    (d : Bytes) × (rest : List Bytes) × (g : Bytes) × (bun : Unit {0}) × (hex : Bytes)
    × (digest : Bytes) × ((codes "aa" ∷ []) ≡ d ∷ rest)
    × (clients.new_digest d ≡ some g)
    × (bundle_from_image coders clients (codes "aa" ∷ []) true false ≡ ok (bun, hex))
    × IsDigestOf coders clients g hex
    × (decode_hex hex ≡ some digest)
    × (clients.verify bun digest tt ≡ true)
unfolding verify_image_signature bundle_from_image first_digest referred_bundle chosen_bundle
    simple_signing_layer signature_tag is_simple_signing assembled_bundle get_verification_material
    get_certificate_chain tlog_if timestamps_if get_tlog_entries first_fields second_fields
    as_object as_number as_text as_text_or_panic field_at merge get_message_signature hash_algorithm
    lookup decode decode_hex equal
verify_image_signature_sound_example =
    verify_image_signature_sound coders clients tt (codes "aa" ∷ []) refl

verify_image_signature_transplanted_example :
    verify_image_signature coders clients tt (codes "aa" ∷ [])
    ≡ verify_image_signature coders clients tt (codes "bb" ∷ [])
verify_image_signature_transplanted_example =
    verify_image_signature_transplanted coders clients tt (codes "aa") (codes "bb") [] []
      (codes "aa") (codes "bb") refl refl refl refl refl

verify_image_signature_panics_example :
    verify_image_signature bad_coders clients tt (codes "aa" ∷ []) ≡ panic
unfolding simple_signing_layer is_simple_signing equal is_object field_at lookup
verify_image_signature_panics_example =
    verify_image_signature_panics bad_coders clients tt (codes "aa") [] (codes "aa") signed_layer []
      end refl refl refl refl refl refl
