-- ===== src/Agent/Signature/Laws.antt =====
-- `VerifyImageSignature` and the registry of images.
use ssle_project.Prelude.{
  ◌≡◌, ◌⊎◌, refl, inl, inr, Bool, true, false, Option, none, some, Option-cases, List, [], ◌∷◌,
  Bytes, codes, arith,
}
use ssle_project.Numbers.Hex.{decode_hex}
use ssle_project.Agent.{text_at}
use ssle_project.Agent.Signature.{
  Failure, Result, ok, err, panic, Layer, Json, object, Fields, fields, field_at,
}
use ssle_project.Agent.Signature.Parts.{
  Coders, as_object, first_fields, get_tlog_entries, get_certificate_chain, tlog_if,
  get_verification_material,
}
use ssle_project.Agent.Signature.Bundle.{
  Clients, first_digest, referred_bundle, signature_tag, simple_signing_layer, assembled_bundle,
  chosen_bundle, bundle_from_image, verify_image_signature,
}

Result-cases {ℓ} :
    {A : Type ℓ} (r : Result A)
    → ((a : A) × (r ≡ ok a)) ⊎ (((e : Failure) × (r ≡ err e)) ⊎ (r ≡ panic))
Result-cases (ok a) = inl (a, refl)
Result-cases (err e) = inr (inl (e, refl))
Result-cases panic = inr (inr refl)

unfoldable pub is_object : {F : Type 0} → Json F → Bool
is_object (object m) = true
is_object _ = false

module _ (c : Coders) (k : Clients) where
  -- The digest that is checked is the image's own, or that of the layer behind its signature tag.
  pub data IsDigestOf (g : k.Digest) (hex : Bytes) : Type 0 where
    of_image : hex ≡ (k.new_hash (k.identifier g)).hex → IsDigestOf g hex
    of_layer :
        (layer : Layer)
        → simple_signing_layer c k g ≡ ok layer
        → hex ≡ layer.digest.hex
        → IsDigestOf g hex

  unsigned_referrers :
      (g : k.Digest) (has_tlog has_timestamp : Bool) (d : Bytes) (ds : List Bytes)
      → k.new_digest d ≡ some g
      → k.referrers g ≡ some []
      → bundle_from_image c k (d ∷ ds) has_tlog has_timestamp
        ≡ chosen_bundle c k g has_tlog has_timestamp none
  unfolding bundle_from_image first_digest referred_bundle
  unsigned_referrers g has_tlog has_timestamp d ds e f = ground arith

  -- The signature that is assembled from a tag says nothing of the image: if two images have no
  -- referrers, and their signature tags name the same manifest, then one passes exactly if the other
  -- does, with the same outcome.
  pub verify_image_signature_transplanted :
      (cert_id : k.CertId) (d d' : Bytes) (ds ds' : List Bytes) (g g' : k.Digest)
      → k.new_digest d ≡ some g
      → k.new_digest d' ≡ some g'
      → k.referrers g ≡ some []
      → k.referrers g' ≡ some []
      → k.tag_manifest (signature_tag c k g) ≡ k.tag_manifest (signature_tag c k g')
      → verify_image_signature c k cert_id (d ∷ ds) ≡ verify_image_signature c k cert_id (d' ∷ ds')
  unfolding verify_image_signature chosen_bundle simple_signing_layer
  verify_image_signature_transplanted cert_id d d' ds ds' g g' e e' r r' same = rw (
    unsigned_referrers g true false d ds e r,
    unsigned_referrers g' true false d' ds' e' r',
    same,
  )

  chosen_bundle-IsDigestOf :
      (g : k.Digest) (has_tlog has_timestamp : Bool) (found : Option k.Bundle) (bun : k.Bundle)
      (hex : Bytes)
      → chosen_bundle c k g has_tlog has_timestamp found ≡ ok (bun, hex)
      → IsDigestOf g hex
  unfolding chosen_bundle assembled_bundle
  chosen_bundle-IsDigestOf g has_tlog has_timestamp (some b) bun hex h = of_image (ground arith)
  chosen_bundle-IsDigestOf g has_tlog has_timestamp none bun hex h =
      elim (Result-cases (simple_signing_layer c k g)) [
        | inl (layer, e) ↦ of_layer layer e (ground arith)
        | inr (inl (f, e)) ↦ ground arith
        | inr (inr e) ↦ ground arith
      ]

  -- An image that passes lists a digest, and the verifier has accepted the bundle that is found for it,
  -- with the digest of that image or of the layer behind its signature tag, under the identity that is
  -- asked for.
  pub verify_image_signature_sound :
      (cert_id : k.CertId) (ds : List Bytes)
      → verify_image_signature c k cert_id ds ≡ ok tt
      → (d : Bytes) × (rest : List Bytes) × (g : k.Digest) × (bun : k.Bundle) × (hex : Bytes)
        × (digest : Bytes) × (ds ≡ d ∷ rest)
        × (k.new_digest d ≡ some g)
        × (bundle_from_image c k ds true false ≡ ok (bun, hex))
        × IsDigestOf g hex
        × (decode_hex hex ≡ some digest)
        × (k.verify bun digest cert_id ≡ true)
  unfolding verify_image_signature bundle_from_image first_digest
  verify_image_signature_sound cert_id [] h = ground arith
  verify_image_signature_sound cert_id (d ∷ rest) h = elim (Option-cases (k.new_digest d)) [
    | inl e ↦ ground arith
    | inr (g, e) ↦ elim (Option-cases (k.referrers g)) [
      | inl f ↦ ground arith
      | inr (refs, f) ↦ elim (Result-cases (referred_bundle c k g refs)) [
        | inr (inl (z, r)) ↦ ground arith
        | inr (inr r) ↦ ground arith
        | inl (found, r) ↦ elim (Result-cases (chosen_bundle c k g true false found)) [
          | inr (inl (z, q)) ↦ ground arith
          | inr (inr q) ↦ ground arith
          | inl ((bun, hex), q) ↦ elim (Option-cases (decode_hex hex)) [
            | inl w ↦ ground arith
            | inr (digest, w) ↦ (
              d,
              rest,
              g,
              bun,
              hex,
              digest,
              refl,
              e,
              ground arith,
              chosen_bundle-IsDigestOf g true false found bun hex q,
              w,
              ground arith,
            )
          ]
        ]
      ]
    ]
  ]

  -- The agent panics on an image with no referrers whose signature tag names a simple signing layer with
  -- a certificate, and with an annotation that holds JSON fields of which "Payload" is not an object.
  pub verify_image_signature_panics :
      (cert_id : k.CertId) (d : Bytes) (ds : List Bytes) (g : k.Digest) (layer : Layer)
      (block : Bytes) (m : Fields c.Float)
      → k.new_digest d ≡ some g
      → k.referrers g ≡ some []
      → simple_signing_layer c k g ≡ ok layer
      → c.pem_block (text_at (codes "dev.sigstore.cosign/certificate") layer.annotations)
        ≡ some block
      → c.unmarshal (text_at (codes "dev.sigstore.cosign/bundle") layer.annotations) ≡ fields m
      → is_object (field_at (codes "Payload") m) ≡ false
      → verify_image_signature c k cert_id (d ∷ ds) ≡ panic
  unfolding verify_image_signature chosen_bundle assembled_bundle get_verification_material
      get_certificate_chain tlog_if get_tlog_entries first_fields as_object is_object
  verify_image_signature_panics cert_id d ds g layer block m e r l p u o =
      ground (arith, unsigned_referrers g true false d ds e r)
