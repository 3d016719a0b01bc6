-- ===== src/Registry/Auth.antt =====
-- Node authentication of registry/utils/utils.go: from the certificate of the TLS peer to the node
-- that the store knows, and the certificates that the registry issues to its nodes.
pub mod Laws
pub mod Known
use ssle_project.Prelude.{
  ℕ, ◌+◌, ◌*◌, Bool, Option, none, some, List, [], ◌∷◌, Bytes, codes, equal, if◌then◌else◌,
}
use ssle_project.Handler.{
  Error, auth_failure, raw, Outcome, ok, fail, panic, Handler, pure, raise, lift, or_fail,
  catch_error, unwrap, ◌>>=◌,
}
use ssle_project.Schemas.{NodeSchema}
use ssle_project.Keys.{node_key}
use ssle_project.Etcd.{Etcd, KeyValue}

abbrev pub agent_certificate_ou : Bytes
agent_certificate_ou = codes "Agents"

abbrev pub observer_certificate_ou : Bytes
observer_certificate_ou = codes "Observers"

-- Times and durations are numbers of nanoseconds.
abbrev pub second : ℕ
second = 1_000_000_000

abbrev pub node_certificate_expiry : ℕ
node_certificate_expiry = 7 * 24 * 3600 * second

-- What the code reads of an `x509.Certificate`.
pub record Certificate : Type 0 where
  pub organizational_unit : List Bytes
  pub common_name : Bytes
  pub not_after : ℕ

-- What `peer.FromContext` finds: nothing, credentials that are not TLS, or the TLS peer certificates
-- and the address of the peer.
pub data PeerInfo : Type 0 where
  no_peer : PeerInfo
  other_credentials : Bytes → PeerInfo
  tls_info : List Certificate → Bytes → PeerInfo

unfoldable pub extract_peer_certificate : PeerInfo → Outcome Certificate
extract_peer_certificate no_peer = fail auth_failure
extract_peer_certificate (other_credentials _) = fail auth_failure
extract_peer_certificate (tls_info [] _) = fail auth_failure
extract_peer_certificate (tls_info (cert ∷ _) _) = ok cert

-- The first and the second organizational unit, with the common name between them. The code reads
-- the units in two functions, behind the length test of the first.
pub record Identity : Type 0 where
  pub datacenter : Bytes
  pub name : Bytes
  pub role : Bytes

identity_of : List Bytes → Bytes → Option Identity
identity_of (first ∷ next ∷ []) name =
    some (record { datacenter = first; name = name; role = next })
identity_of _ name = none

unfoldable pub extract_peer_datacenter_node : Certificate → Option Identity
unfolding identity_of
extract_peer_datacenter_node cert = identity_of cert.organizational_unit cert.common_name

-- A failed read and an unknown node are both an authentication failure.
known : Option (Option NodeSchema) → Outcome NodeSchema
known none = fail auth_failure
known (some none) = fail auth_failure
known (some (some node)) = ok node

-- The error of `ExtractPeerCertificate` is overwritten before it is read, and the certificate that
-- goes with it is nil.
certificate_or_nil : Outcome Certificate → Outcome Certificate
certificate_or_nil (ok cert) = ok cert
certificate_or_nil (fail _) = panic
certificate_or_nil panic = panic

module _ (e : Etcd) where
  unfoldable pub decode_first : List (KeyValue e.Wire) → Outcome (Option NodeSchema)
  decode_first [] = ok none
  decode_first (kv ∷ _) = elim (e.node_json.unmarshal kv.value) [
    | none ↦ fail raw
    | some node ↦ ok (some node)
  ]

  unfoldable pub get_node_schema : Bytes → Bytes → Handler e.Store (Option NodeSchema)
  unfolding decode_first
  get_node_schema dc node_name = do
    kvs ←
        or_fail raw (e.range (record { key = node_key dc node_name; range_end = none; limit = 1 }))
    lift (decode_first kvs)

  unfoldable pub authenticate_node_from_certificate :
      Certificate → Handler e.Store (Bytes × NodeSchema)
  unfolding known
  authenticate_node_from_certificate cert = do
    id ← lift (unwrap auth_failure (extract_peer_datacenter_node cert))
    found ← catch_error (get_node_schema id.datacenter id.name)
    node ← lift (known found)
    pure (id.role, node)

  unfoldable pub authenticate_node : Bytes → PeerInfo → Handler e.Store NodeSchema
  unfolding certificate_or_nil
  authenticate_node implicit ctx = do
    cert ← lift (certificate_or_nil (extract_peer_certificate ctx))
    found ← authenticate_node_from_certificate cert
    if equal found.0 implicit then pure found.1 else raise auth_failure

  unfoldable pub authenticate_agent : PeerInfo → Handler e.Store NodeSchema
  authenticate_agent = authenticate_node agent_certificate_ou

  unfoldable pub authenticate_observer : PeerInfo → Handler e.Store NodeSchema
  authenticate_observer = authenticate_node observer_certificate_ou

-- The template of a node certificate, without its constant fields.
pub record Template : Type 0 where
  pub organization : List Bytes
  pub organizational_unit : List Bytes
  pub common_name : Bytes
  pub not_before : ℕ
  pub not_after : ℕ
  pub ip_addresses : List Bytes
  pub dns_names : List Bytes

unfoldable pub node_template : ℕ → Bytes → Bytes → Bytes → Template
node_template now datacenter node implicit = record {
  organization = codes "SSLE Project 01" ∷ [];
  organizational_unit = implicit ∷ datacenter ∷ [];
  common_name = node;
  not_before = now;
  not_after = now + node_certificate_expiry;
  ip_addresses = [];
  dns_names = [];
}

-- `ed25519` and `x509`: signing a template gives a certificate and its key, in PEM. `presents` is the
-- certificate that the TLS peer presents with them, as Go parses it.
pub record Signer : Type 1 where
  pub Pem : Type 0
  pub sign : Template → Pem × Pem
  pub presents : Pem → Certificate

unfoldable pub create_node_crt : (x : Signer) → ℕ → Bytes → Bytes → Bytes → x.Pem × x.Pem
create_node_crt x now datacenter node implicit = x.sign (node_template now datacenter node implicit)
