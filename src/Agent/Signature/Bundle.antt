-- ===== src/Agent/Signature/Bundle.antt =====
-- `bundleFromImage`, `simpleSigningLayerFromImage` and `VerifyImageSignature`.
use ssle_project.Prelude.{
  Bool, true, false, Option, none, some, List, [], ◌∷◌, ◌++◌, Bytes, codes, equal, has_prefix,
  if◌then◌else◌,
}
use ssle_project.Numbers.Hex.{decode_hex}
use ssle_project.Agent.Signature.{
  Failure, library, message, Result, ok, err, panic, ◌>>=◌, from_option, wrap, Hash, Layer,
  ProtoBundle,
}
use ssle_project.Agent.Signature.Parts.{
  Coders, library_error, get_verification_material, get_message_signature,
}

-- The clients of the container registry and Sigstore, in the state in which they are asked: each answer
-- is a value, or none for an error. `referrers` lists the digests of the referring manifests. `new_hash` is `v1.NewHash` without its error. `sig_tag` is the name
-- of a tag in the repository of a digest, and `in_repository` a digest there.
pub record Clients : Type 1 where
  pub Digest : Type 0
  pub Bundle : Type 0
  pub CertId : Type 0
  pub new_digest : Bytes → Option Digest
  pub identifier : Digest → Bytes
  pub in_repository : Digest → Hash → Digest
  pub sig_tag : Digest → Bytes → Bytes
  pub new_hash : Bytes → Hash
  pub referrers : Digest → Option (List Hash)
  pub manifest : Digest → Option Bytes
  pub tag_manifest : Bytes → Option Bytes
  pub parse_manifest : Bytes → Option (List Layer)
  pub Blob : Type 0
  pub layer : Digest → Option Blob
  pub uncompressed : Blob → Option Bytes
  pub decode_bundle : Bytes → Option Bundle
  pub media_type_string : Option Bytes
  pub new_bundle : ProtoBundle → Option Bundle
  pub verify : Bundle → Bytes → CertId → Bool

module _ (c : Coders) (k : Clients) where
  first_layer : Failure → List Layer → Result Layer
  first_layer e [] = err e
  first_layer e (layer ∷ layers) = ok layer

  -- The first layer of a referring manifest.
  referring_layer : k.Digest → Hash → Result Layer
  unfolding first_layer
  referring_layer digest ref = do
    text ←
        from_option (library_error (codes "error downloading signature manifest"))
          (k.manifest (k.in_repository digest ref))
    layers ←
        from_option (library_error (codes "error parsing signature manifest"))
          (k.parse_manifest text)
    first_layer (message (codes "signature manifest contains no layers")) layers

  abbrev pub is_bundle : Layer → Bool
  is_bundle layer = has_prefix (codes "application/vnd.dev.sigstore.bundle") layer.media_type

  -- The bundle in a layer.
  layer_bundle : k.Digest → Layer → Result k.Bundle
  layer_bundle digest layer = do
    blob ←
        from_option (library_error (codes "error downloading signature layer"))
          (k.layer (k.in_repository digest layer.digest))
    contents ←
        from_option (library_error (codes "error opening layer contents reader"))
          (k.uncompressed blob)
    from_option (library_error (codes "error decoding bundle")) (k.decode_bundle contents)

  -- The loop over the referrers: the first bundle, if there is one.
  unfoldable pub referred_bundle : k.Digest → List Hash → Result (Option k.Bundle)
  unfolding referring_layer layer_bundle
  referred_bundle digest [] = ok none
  referred_bundle digest (ref ∷ refs) =
      let rest = referred_bundle digest refs in
      elim (referring_layer digest ref) [
        | ok layer ↦ elim (is_bundle layer) [
          | true ↦ layer_bundle digest layer >>= λ bun. ok (some bun)
          | false ↦ rest
        ]
        | err e ↦ err e
        | panic ↦ panic
      ]

  unfoldable pub is_simple_signing : List Layer → Result Layer
  is_simple_signing [] = err (message (codes "no suitable layers found in signature manifest"))
  is_simple_signing (layer ∷ layers) =
      if equal layer.media_type (codes "application/vnd.dev.cosign.simplesigning.v1+json")
      then ok layer
      else err (message (codes "no suitable layers found in signature manifest"))

  -- The tag of the signature of a digest.
  unfoldable pub signature_tag : k.Digest → Bytes
  signature_tag digest =
      let h = k.new_hash (k.identifier digest) in
      k.sig_tag digest (h.algorithm ++ (b'-' ∷ (h.hex ++ codes ".sig")))

  unfoldable pub simple_signing_layer : k.Digest → Result Layer
  unfolding is_simple_signing signature_tag
  simple_signing_layer digest = do
    text ←
        from_option (library_error (codes "error getting signature manifest"))
          (k.tag_manifest (signature_tag digest))
    layers ←
        from_option (library_error (codes "error parsing signature manifest"))
          (k.parse_manifest text)
    is_simple_signing layers

  -- The bundle of a layer, with the digest of the layer.
  unfoldable pub assembled_bundle : Layer → Bool → Bool → Result (k.Bundle × Bytes)
  assembled_bundle layer has_tlog has_timestamp = do
    material ←
        wrap (codes "error getting verification material")
          (get_verification_material c layer has_tlog has_timestamp)
    signature ← wrap (codes "error getting message signature") (get_message_signature layer)
    media_type ←
        from_option (library_error (codes "error getting bundle media type")) k.media_type_string
    bun ← from_option (library_error (codes "error creating bundle")) (
        k.new_bundle (record {
          media_type = media_type;
          verification_material = material;
          content = signature;
        }))
    ok (bun, layer.digest.hex)

  -- With no bundle among the referrers it is assembled from the layer behind the tag.
  unfoldable pub chosen_bundle :
      k.Digest → Bool → Bool → Option k.Bundle → Result (k.Bundle × Bytes)
  unfolding simple_signing_layer assembled_bundle
  chosen_bundle digest has_tlog has_timestamp (some bun) =
      ok (bun, (k.new_hash (k.identifier digest)).hex)
  chosen_bundle digest has_tlog has_timestamp none = do
    layer ← wrap (codes "error getting simple signing layer") (simple_signing_layer digest)
    assembled_bundle layer has_tlog has_timestamp

  unfoldable pub first_digest : List Bytes → Result k.Digest
  first_digest [] = err (message (codes "local image cannot be verified"))
  first_digest (d ∷ digests) = from_option library (k.new_digest d)

  -- `repo_digests` is what the image lists.
  unfoldable pub bundle_from_image : List Bytes → Bool → Bool → Result (k.Bundle × Bytes)
  unfolding first_digest referred_bundle chosen_bundle
  bundle_from_image repo_digests has_tlog has_timestamp = do
    digest ← first_digest repo_digests
    refs ← from_option library (k.referrers digest)
    found ← referred_bundle digest refs
    chosen_bundle digest has_tlog has_timestamp found

  unfoldable pub verify_image_signature : k.CertId → List Bytes → Result (Unit {0})
  unfolding bundle_from_image
  verify_image_signature cert_id repo_digests = do
    made ← bundle_from_image repo_digests true false
    digest ← from_option library (decode_hex made.1)
    if k.verify made.0 digest cert_id then ok tt else err library
