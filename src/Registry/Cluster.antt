-- ===== src/Registry/Cluster.antt =====
-- The start of a registry: its peers (`GetPeers` of registry/peer_api/peer_api.go, `main` of
-- registry/main.go) and its etcd server (registry/etcd/etcd.go).
pub mod Laws
pub mod Announced
use ssle_project.Prelude.{
  ℕ, ◌+◌, ◌-◌, ◌^◌, Bool, true, false, Option, none, some, List, [], ◌∷◌, ◌++◌, map, Bytes, codes,
  equal, if◌then◌else◌,
}
use ssle_project.Numbers.Decimal.{
  Parsed, parsed, invalid_syntax, out_of_range, parse_uint, format_uint,
}
use ssle_project.Numbers.Base64.{encode}
use ssle_project.Handler.{Call}
use ssle_project.Keys.{peer_agent_api_namespace, under}
use ssle_project.Config.{Addr}
use ssle_project.Config.Hosts.{
  Config, etcd_listen_urls, etcd_advertise_urls, etcd_client_listen_urls,
  etcd_client_advertise_urls, agent_api_advertise_host,
}

-- `membership.Member`, and the peer that stands for it in the peer API.
pub record Member : Type 0 where
  pub id : ℕ
  pub name : Bytes
  pub peer_urls : List Bytes
  pub client_urls : List Bytes
  pub is_learner : Bool

pub record Peer : Type 0 where
  pub id : Bytes
  pub name : Bytes
  pub peer_urls : List Bytes
  pub client_urls : List Bytes

unfoldable pub peer_of : Member → Peer
peer_of member = record {
  id = format_uint member.id;
  name = member.name;
  peer_urls = member.peer_urls;
  client_urls = member.client_urls;
}

unfoldable pub get_peers : List Member → List Peer
unfolding peer_of
get_peers members = map peer_of members

unfoldable pub member_of : Peer → Option Member
unfolding parse_uint
member_of peer = elim (parse_uint (2 ^ 64 - 1) peer.id) [
  | parsed id ↦ some (record {
    id = id;
    name = peer.name;
    peer_urls = peer.peer_urls;
    client_urls = peer.client_urls;
    is_learner = false;
  })
  | invalid_syntax ↦ none
  | out_of_range ↦ none
]

unfoldable pub members_of : List Peer → Option (List Member)
unfolding member_of
members_of [] = some []
members_of (peer ∷ peers) = elim (member_of peer) [
  | none ↦ none
  | some member ↦ elim (members_of peers) [ none ↦ none | some members ↦ some (member ∷ members) ]
]

-- The members that the server starts with; the answer of the joined registry is none for an error.
unfoldable pub starting_members : Config → Option (List Peer) → Option (List Member)
unfolding members_of
starting_members config answer =
    if equal config.join_url []
    then some []
    else elim answer [ none ↦ none | some peers ↦ members_of peers ]

-- The entries that one member adds to the initial cluster.
unfoldable pub append_urls : Bytes → Bytes → List Bytes → Bytes
append_urls cluster name [] = cluster
append_urls cluster name (url ∷ urls) =
    append_urls (cluster ++ (b',' ∷ (name ++ (b'=' ∷ url)))) name urls

unfoldable pub append_members : Bytes → Bytes → List Member → Bytes
unfolding append_urls
append_members own cluster [] = cluster
append_members own cluster (member ∷ members) =
    append_members own
      (if equal member.name own then cluster else append_urls cluster member.name member.peer_urls)
      members

pub data ClusterState : Type 0 where
  new existing : ClusterState

unfoldable pub cluster_state : List Member → ClusterState
cluster_state [] = new
cluster_state (member ∷ members) = existing

-- `transport.TLSInfo`, and what is read of the state.
pub record TlsInfo : Type 0 where
  pub server_name : Bytes
  pub cert_file : Bytes
  pub key_file : Bytes
  pub client_cert_auth : Bool
  pub trusted_ca_file : Bytes

pub record StateFiles : Type 0 where
  pub token : Bytes
  pub etcd_dir : Bytes
  pub ca_crt_file : Bytes
  pub server_crt_file : Bytes
  pub server_key_file : Bytes

unfoldable pub tls_info_of : StateFiles → TlsInfo
tls_info_of state = record {
  server_name = codes "registry.cluster.internal";
  cert_file = state.server_crt_file;
  key_file = state.server_key_file;
  client_cert_auth = true;
  trusted_ca_file = state.ca_crt_file;
}

-- The fields of `embed.Config` that are set.
pub record EtcdConfig (Url : Type 0) : Type 0 where
  pub name : Bytes
  pub dir : Bytes
  pub initial_cluster_token : Bytes
  pub peer_tls : TlsInfo
  pub client_tls : TlsInfo
  pub listen_peer_urls : List Url
  pub advertise_peer_urls : List Url
  pub listen_client_urls : List Url
  pub listen_client_http_urls : List Url
  pub advertise_client_urls : List Url
  pub initial_cluster : Bytes
  pub cluster_state : ClusterState

-- `hkdf.Expand`, `url.Parse` and `InitialClusterFromName` of etcd.
pub record Embed : Type 1 where
  pub Url : Type 0
  pub parse_url : Bytes → Option Url
  pub expand : Bytes → Bytes → Bytes
  pub from_name : List Url → Bytes → Bytes

infixl 5 ◌>>=◌
abbrev ◌>>=◌ {ℓ κ} : {A : Type ℓ} {B : Type κ} → Option A → (A → Option B) → Option B
none >>= f = none
some a >>= f = f a

module _ (print : Addr → Bytes) (m : Embed) where
  unfoldable pub with_urls :
      List Member
      → StateFiles
      → Config
      → List m.Url
      → List m.Url
      → List m.Url
      → List m.Url
      → EtcdConfig m.Url
  unfolding tls_info_of append_members cluster_state encode
  with_urls members state config listen advertise client_listen client_advertise = record {
    name = config.name;
    dir = state.etcd_dir;
    initial_cluster_token = encode (m.expand state.token (codes "etcd"));
    peer_tls = tls_info_of state;
    client_tls = tls_info_of state;
    listen_peer_urls = listen;
    advertise_peer_urls = advertise;
    listen_client_urls = client_listen;
    listen_client_http_urls = [];
    advertise_client_urls = client_advertise;
    initial_cluster = append_members config.name (m.from_name advertise config.name) members;
    cluster_state = cluster_state members;
  }

  -- None is the end of the process at a URL that does not parse.
  unfoldable pub create_etcd_config : List Member → StateFiles → Config → Option (EtcdConfig m.Url)
  unfolding with_urls etcd_listen_urls etcd_advertise_urls etcd_client_listen_urls
      etcd_client_advertise_urls
  create_etcd_config members state config = do
    listen ← etcd_listen_urls print config m.parse_url
    advertise ← etcd_advertise_urls print config m.parse_url
    client_listen ← etcd_client_listen_urls print config m.parse_url
    client_advertise ← etcd_client_advertise_urls print config m.parse_url
    some (with_urls members state config listen advertise client_listen client_advertise)

-- What `EtcdPostStartUpdate` reads and calls of the server. A call that fails is only logged.
pub record Server (S : Type 0) : Type 0 where
  pub name : Bytes
  pub member_id : ℕ
  pub advertise_peer_urls : List Bytes
  pub advertise_client_urls : List Bytes
  pub update_member : Member → Call S (Unit {0})
  pub put : Bytes → Bytes → Call S (Unit {0})

-- The member that is updated; its name is empty.
abbrev pub own_member : {S : Type 0} → Server S → Member
own_member server = record {
  id = server.member_id;
  name = [];
  peer_urls = server.advertise_peer_urls;
  client_urls = server.advertise_client_urls;
  is_learner = false;
}

unfoldable pub post_start_update : {S : Type 0} → (Addr → Bytes) → Config → Server S → S → S
unfolding agent_api_advertise_host
post_start_update print config server s =
    let updated = server.update_member (own_member server) s in
    (server.put (under peer_agent_api_namespace server.name) (agent_api_advertise_host print config)
      updated.1).1
