-- ===== src/Agent/Signature/Parts.antt =====
-- The parts of a bundle that are read from the annotations of the simple signing layer:
-- `getBundleVerificationMaterial` and `getBundleMsgSignature` with their helpers.
use ssle_project.Prelude.{
  Bool, true, false, Option, none, some, List, [], ◌∷◌, ◌++◌, Bytes, codes, equal, if◌then◌else◌,
}
use ssle_project.Prelude.Int.{ℤ}
use ssle_project.Numbers.Base64.{decode}
use ssle_project.Numbers.Hex.{decode_hex}
use ssle_project.Agent.{Labels, lookup, text_at}
use ssle_project.Agent.Signature.{
  Failure, library, message, wrapped, Result, ok, err, panic, ◌>>=◌, from_option, wrap, Layer, Json,
  number, text, object, Fields, end, Decoded, malformed, null, fields, field_at, merge, TlogEntry,
  Material, HashAlgorithm, sha2_256, MessageSignature,
}

-- JSON, with float64 and its conversion to int64, JSON objects of strings, and `pem.Decode`.
pub record Coders : Type 1 where
  pub Float : Type 0
  pub to_int64 : Float → ℤ
  pub unmarshal : Bytes → Decoded Float
  pub unmarshal_strings : Bytes → Option Labels
  pub pem_block : Bytes → Option Bytes

-- `err != nil` behind a library call inside `fmt.Errorf`.
abbrev pub library_error : Bytes → Failure
library_error context = wrapped context library

module _ (c : Coders) where
  -- A map behind a first Unmarshal, and behind a second one into the same map.
  unfoldable pub first_fields : Decoded c.Float → Result (Fields c.Float)
  first_fields malformed = err (library_error (codes "error unmarshaling json"))
  first_fields null = ok end
  first_fields (fields m) = ok m

  unfoldable pub second_fields : Fields c.Float → Decoded c.Float → Result (Fields c.Float)
  second_fields old malformed = err (library_error (codes "error unmarshaling json"))
  second_fields old null = ok end
  second_fields old (fields m) = ok (merge m old)

  -- Type assertions: one that panics, and those whose second result is tested.
  unfoldable pub as_object : Json c.Float → Result (Fields c.Float)
  as_object (object m) = ok m
  as_object _ = panic

  unfoldable pub as_text_or_panic : Json c.Float → Result Bytes
  as_text_or_panic (text t) = ok t
  as_text_or_panic _ = panic

  unfoldable pub as_number : Bytes → Json c.Float → Result c.Float
  as_number context (number f) = ok f
  as_number context _ = err (message context)

  unfoldable pub as_text : Bytes → Json c.Float → Result Bytes
  as_text context (text t) = ok t
  as_text context _ = err (message context)

  abbrev payload_field : Bytes → Fields c.Float → Result (Json c.Float)
  payload_field name m = as_object (field_at (codes "Payload") m) >>= λ p. ok (field_at name p)

  unfoldable pub get_tlog_entries : Layer → Result (List TlogEntry)
  unfolding first_fields second_fields as_object as_text_or_panic as_number as_text
  get_tlog_entries layer = do
    m ← first_fields (c.unmarshal (text_at (codes "dev.sigstore.cosign/bundle") layer.annotations))
    index ← payload_field (codes "logIndex") m
    log_index ← as_number (codes "error getting logIndex") index
    id ← payload_field (codes "logID") m
    li ← as_text (codes "error getting logID") id
    log_id ← from_option (library_error (codes "error decoding logID")) (decode_hex li)
    time ← payload_field (codes "integratedTime") m
    integrated_time ← as_number (codes "error getting integratedTime") time
    set ←
        as_text (codes "error getting SignedEntryTimestamp")
          (field_at (codes "SignedEntryTimestamp") m)
    signed ← from_option (library_error (codes "error decoding signedEntryTimestamp")) (decode set)
    raw ← payload_field (codes "body") m
    body ← as_text (codes "error getting body") raw
    body_bytes ← from_option (library_error (codes "error decoding body")) (decode body)
    m' ← second_fields m (c.unmarshal body_bytes)
    api_version ← as_text_or_panic (field_at (codes "apiVersion") m')
    kind ← as_text_or_panic (field_at (codes "kind") m')
    ok (
        record {
          log_index = c.to_int64 log_index;
          key_id = log_id;
          kind = kind;
          version = api_version;
          integrated_time = c.to_int64 integrated_time;
          signed_entry_timestamp = signed;
          canonicalized_body = body_bytes;
        }
        ∷ [])

  timestamp_in : Option Bytes → Result Bytes
  timestamp_in none =
      err (message (codes "error getting SignedRFC3161Timestamp from key/value pairs"))
  timestamp_in (some t) = ok t

  unfoldable pub get_timestamp_entries : Layer → Result (List Bytes)
  unfolding timestamp_in
  get_timestamp_entries layer = do
    pairs ← from_option (library_error (codes "error unmarshaling JSON blob into key/val map")) (
        c.unmarshal_strings
          (text_at (codes "dev.sigstore.cosign/rfc3161timestamp") layer.annotations))
    encoded ← timestamp_in (lookup (codes "SignedRFC3161Timestamp") pairs)
    der ←
        from_option (library_error (codes "error decoding base64 encoded timestamp"))
          (decode encoded)
    ok (der ∷ [])

  unfoldable pub get_certificate_chain : Layer → Result (List Bytes)
  get_certificate_chain layer = do
    block ←
        from_option (message (codes "failed to decode PEM block"))
          (c.pem_block (text_at (codes "dev.sigstore.cosign/certificate") layer.annotations))
    ok (block ∷ [])

  unfoldable pub tlog_if : Bool → Layer → Result (List TlogEntry)
  unfolding get_tlog_entries
  tlog_if false layer = ok []
  tlog_if true layer = wrap (codes "error getting tlog entries") (get_tlog_entries layer)

  unfoldable pub timestamps_if : Bool → Layer → Result (Option (List Bytes))
  unfolding get_timestamp_entries
  timestamps_if false layer = ok none
  timestamps_if true layer =
      wrap (codes "error getting timestamp entries") (get_timestamp_entries layer) >>= λ entries.
      ok (some entries)

  unfoldable pub get_verification_material : Layer → Bool → Bool → Result Material
  unfolding get_certificate_chain tlog_if timestamps_if
  get_verification_material layer has_tlog has_timestamp = do
    signing_cert ← wrap (codes "error getting signing certificate") (get_certificate_chain layer)
    entries ← tlog_if has_tlog layer
    timestamps ← timestamps_if has_timestamp layer
    ok (record { certificates = signing_cert; tlog_entries = entries; timestamps = timestamps })

-- The digest algorithm that is known.
unfoldable pub hash_algorithm : Bytes → Result HashAlgorithm
hash_algorithm name =
    if equal name (codes "sha256")
    then ok sha2_256
    else err (message (codes "unknown digest algorithm: " ++ name))

unfoldable pub get_message_signature : Layer → Result MessageSignature
unfolding hash_algorithm
get_message_signature layer = do
  algorithm ← hash_algorithm layer.digest.algorithm
  digest ← from_option (library_error (codes "error decoding digest")) (decode_hex layer.digest.hex)
  signature ←
      from_option (library_error (codes "error decoding manSig"))
        (decode (text_at (codes "dev.cosignproject.cosign/signature") layer.annotations))
  ok (record { algorithm = algorithm; digest = digest; signature = signature })
