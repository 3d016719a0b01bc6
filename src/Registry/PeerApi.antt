-- ===== src/Registry/PeerApi.antt =====
-- `AddSelfPeer`, `AddNode` and `GetNodeCredentials` of registry/peer_api/peer_api.go.
pub mod Laws
use ssle_project.Prelude.{
  ℕ, Bool, true, false, Option, none, some, List, [], ◌∷◌, Bytes, if◌then◌else◌,
}
use ssle_project.Handler.{
  auth_failure, server_error, missing_advertise_url, invalid_advertise_url, agent_already_exists,
  Outcome, ok, fail, panic, Handler, pure, raise, lift, or_fail, unwrap, catch_error, Call, ◌>>=◌,
}
use ssle_project.Schemas.{NodeSchema}
use ssle_project.Keys.{node_key}
use ssle_project.Etcd.{Etcd, create_is, put}
use ssle_project.Registry.Auth.{
  agent_certificate_ou, observer_certificate_ou, PeerInfo, extract_peer_certificate,
  get_node_schema, Signer, create_node_crt,
}

pub data NodeType : Type 0 where
  agent observer : NodeType

pub record AddNodeRequest : Type 0 where
  pub name : Bytes
  pub datacenter : Bytes
  pub location : Bytes
  pub node_type : NodeType

unfoldable pub implicit_of : NodeType → Bytes
implicit_of agent = agent_certificate_ou
implicit_of observer = observer_certificate_ou

unfoldable pub node_of : AddNodeRequest → NodeSchema
unfolding implicit_of
node_of req = record {
  name = req.name;
  datacenter = req.datacenter;
  location = req.location;
  type = implicit_of req.node_type;
}

module _ (x : Signer) (e : Etcd) where
  unfoldable pub add_node : ℕ → AddNodeRequest → Handler e.Store (x.Pem × x.Pem)
  add_node now req = do
    let key = node_key req.datacenter req.name
    serialized ← lift (unwrap server_error (e.node_json.marshal (node_of req)))
    succeeded ←
        or_fail server_error
          (e.txn (record { compare = create_is key 0 ∷ []; success = put key serialized 0 ∷ [] }))
    if succeeded
        then pure (create_node_crt x now req.datacenter req.name (implicit_of req.node_type))
        else raise agent_already_exists

  -- The node is used with no test for nil.
  credentials_of : ℕ → Option (Option NodeSchema) → Outcome (x.Pem × x.Pem)
  credentials_of now none = fail server_error
  credentials_of now (some none) = panic
  credentials_of now (some (some node)) =
      ok (create_node_crt x now node.datacenter node.name node.type)

  unfoldable pub get_node_credentials : ℕ → Bytes → Bytes → Handler e.Store (x.Pem × x.Pem)
  unfolding credentials_of
  get_node_credentials now dc name = do
    found ← catch_error (get_node_schema e dc name)
    lift (credentials_of now found)

-- `url.Parse` on each advertised address; none is an error.
module _ {Url : Type 0} (parse_url : Bytes → Option Url) where
  unfoldable pub parse_all : List Bytes → Option (List Url)
  parse_all [] = some []
  parse_all (a ∷ rest) = elim (parse_url a) [
    | none ↦ none
    | some u ↦ elim (parse_all rest) [ none ↦ none | some urls ↦ some (u ∷ urls) ]
  ]

  -- `add_member` is `EtcdServer.AddMember` of a member with this name and these addresses.
  module _ {S : Type 0} (add_member : Bytes → List Url → Call S (Unit {0})) where
    add_parsed : Bytes → Option (List Url) → Handler S (Unit {0})
    add_parsed peer_name none = raise invalid_advertise_url
    add_parsed peer_name (some urls) = or_fail server_error (add_member peer_name urls)

    unfoldable pub add_self_peer : PeerInfo → List Bytes → Handler S (Unit {0})
    unfolding add_parsed parse_all
    add_self_peer ctx [] = raise missing_advertise_url
    add_self_peer ctx (a ∷ urls) = do
      cert ← lift (extract_peer_certificate ctx)
      add_parsed cert.common_name (parse_all (a ∷ urls))
