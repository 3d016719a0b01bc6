-- ===== src/Tests/Starts.antt =====
-- The start of a registry at concrete inputs.
use ssle_project.Prelude.{
  ◌-◌, ◌^◌, ◌≡◌, refl, inl, false, some, [], ◌∷◌, ◌++◌, All, Bytes, codes, arith,
}
use ssle_project.Numbers.Decimal.{parse_uint, parsed, format_uint}
use ssle_project.Keys.{split}
use ssle_project.Config.{hostname_from_addr, Addr, invalid, v4, v6, Hostname}
use ssle_project.Config.Hosts.{
  Config, host_with_port, etcd_listen_urls, etcd_advertise_urls, etcd_client_listen_urls,
  etcd_client_advertise_urls, etcd_listen_host, etcd_advertise_host, etcd_client_listen_host,
  etcd_client_advertise_host,
}
use ssle_project.Config.Hosts.Laws.{read_host_port, host_text, read_host_port-host_with_port}
use ssle_project.Registry.Cluster.{
  Member, get_peers, starting_members, existing, StateFiles, Embed, EtcdConfig, create_etcd_config,
}
use ssle_project.Registry.Cluster.Laws.{IsVoter, IsListed, entries, create_etcd_config-joined}

abbrev print : Addr → Bytes
print invalid = codes "invalid IP"
print (v4 ip) = codes "10.0.0.1"
print (v6 ip) = codes "fe::1"

abbrev sixth : Hostname
sixth = record { fqdn = []; addr = v6 [] }

read_host_port-host_with_port_example :
    (digits : Bytes) × (read_host_port (host_with_port print sixth 2380)
      ≡ some (host_text print sixth.addr sixth.fqdn, digits))
    × (parse_uint (2 ^ 16 - 1) digits ≡ parsed 2380)
read_host_port-host_with_port_example =
    read_host_port-host_with_port print sixth 2380 (inl ([], refl)) (omega arith)

abbrev embed : Embed
embed = record {
  Url = Bytes;
  parse_url = λ t. some t;
  expand = λ token label. label;
  from_name = λ urls name. name ++ codes "=u";
}

abbrev files : StateFiles
files = record {
  token = [];
  etcd_dir = codes "etcd";
  ca_crt_file = codes "ca.crt";
  server_crt_file = codes "peer.crt";
  server_key_file = codes "peer.key";
}

abbrev config : Config
config = record {
  name = codes "r2";
  dir = codes "state";
  initial_token = codes "t";
  initial_token_file = [];
  join_url = codes "r1:2382";
  peer_listen_addr = v4 [];
  peer_advertise_hostname = record { fqdn = []; addr = v4 [] };
  agent_api_listen_addr = v4 [];
  agent_api_advertise_hostname = record { fqdn = codes "r2.example"; addr = invalid };
  ports = record { etcd = 2380; etcd_client = 2381; peer_api = 2382; agent_api = 2383 };
}

abbrev founder : Member
founder = record {
  id = 18_446_744_073_709_551_615;
  name = codes "r1";
  peer_urls = codes "https://r1:2380" ∷ codes "https://r1:9" ∷ [];
  client_urls = [];
  is_learner = false;
}

abbrev self : Member
self = record {
  id = 4;
  name = codes "r2";
  peer_urls = codes "https://10.0.0.1:2380" ∷ [];
  client_urls = [];
  is_learner = false;
}

with_votes : All IsVoter (founder ∷ self ∷ [])
with_votes = ((omega arith, refl), ((omega arith, refl), tt))

without_commas : All IsListed (founder ∷ self ∷ [])
without_commas = ground arith

create_etcd_config-joined_example :
    (cfg : EtcdConfig Bytes) × (starting_members config (some (get_peers (founder ∷ self ∷ [])))
      ≡ some (founder ∷ self ∷ []))
    × (create_etcd_config print embed (founder ∷ self ∷ []) files config ≡ some cfg)
    × (cfg.cluster_state ≡ existing)
    × (split b',' cfg.initial_cluster
        ≡ split b',' (codes "r2=u") ++ entries (codes "r2") (founder ∷ self ∷ []))
unfolding etcd_listen_urls etcd_advertise_urls etcd_client_listen_urls etcd_client_advertise_urls
    etcd_listen_host etcd_advertise_host etcd_client_listen_host etcd_client_advertise_host
    host_with_port hostname_from_addr format_uint
create_etcd_config-joined_example =
    create_etcd_config-joined print embed files config founder (self ∷ [])
      (codes "https://10.0.0.1:2380" ∷ []) (codes "https://10.0.0.1:2380" ∷ [])
      (codes "https://10.0.0.1:2381" ∷ []) (codes "https://10.0.0.1:2381" ∷ []) (λ p. cc) with_votes
      without_commas refl refl refl refl
