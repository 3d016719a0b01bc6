-- ===== src/Config/Hosts.antt =====
-- `HostWithPort` of registry/schemas/schemas.go, and `Config` of registry/config/config.go with the hosts
-- and the URLs that it prints, and `LoadConfig`.
pub mod Laws
use ssle_project.Prelude.{
  ℕ, Bool, true, false, not, ◌||◌, Option, none, some, List, [], ◌∷◌, ◌++◌, Bytes, codes, equal,
  if◌then◌else◌,
}
use ssle_project.Files.{File, missing, unreadable, stored}
use ssle_project.Numbers.Decimal.{format_uint}
use ssle_project.Config.{
  Addr, invalid, v4, v6, InterfaceAddr, find_best_addr, Hostname, hostname_from_addr, Ports,
  load_ports,
}

-- The host in front of the port; an IPv6 address stands in brackets.
unfoldable pub printed_host : (Addr → Bytes) → Addr → Bytes → Bytes
printed_host print invalid fqdn = fqdn
printed_host print (v4 ip) fqdn = print (v4 ip)
printed_host print (v6 ip) fqdn = b'[' ∷ (print (v6 ip) ++ (b']' ∷ []))

-- `print` is the method `String` of `netip.Addr`.
unfoldable pub host_with_port : (Addr → Bytes) → Hostname → ℕ → Bytes
unfolding printed_host
host_with_port print hostname port =
    printed_host print hostname.addr hostname.fqdn ++ (b':' ∷ format_uint port)

-- `hostname != Hostname{}`
unfoldable pub is_valid : Hostname → Bool
is_valid hostname = elim hostname.addr [
  | invalid ↦ not (equal hostname.fqdn [])
  | v4 ip ↦ true
  | v6 ip ↦ true
]

pub record Config : Type 0 where
  pub name : Bytes
  pub dir : Bytes
  pub initial_token : Bytes
  pub initial_token_file : Bytes
  pub join_url : Bytes
  pub peer_listen_addr : Addr
  pub peer_advertise_hostname : Hostname
  pub agent_api_listen_addr : Addr
  pub agent_api_advertise_hostname : Hostname
  pub ports : Ports

module _ (print : Addr → Bytes) (config : Config) where
  unfoldable pub peer_api_listen_host : Bytes
  peer_api_listen_host =
      host_with_port print (hostname_from_addr config.peer_listen_addr) config.ports.peer_api

  unfoldable pub peer_api_advertise_host : Bytes
  peer_api_advertise_host =
      host_with_port print config.peer_advertise_hostname config.ports.peer_api

  unfoldable pub etcd_listen_host : Bytes
  etcd_listen_host =
      host_with_port print (hostname_from_addr config.peer_listen_addr) config.ports.etcd

  unfoldable pub etcd_client_listen_host : Bytes
  etcd_client_listen_host =
      host_with_port print (hostname_from_addr config.peer_listen_addr) config.ports.etcd_client

  unfoldable pub etcd_advertise_host : Bytes
  etcd_advertise_host = host_with_port print config.peer_advertise_hostname config.ports.etcd

  unfoldable pub etcd_client_advertise_host : Bytes
  etcd_client_advertise_host =
      host_with_port print config.peer_advertise_hostname config.ports.etcd_client

  unfoldable pub agent_api_listen_host : Bytes
  agent_api_listen_host =
      host_with_port print (hostname_from_addr config.agent_api_listen_addr) config.ports.agent_api

  unfoldable pub agent_api_advertise_host : Bytes
  agent_api_advertise_host =
      host_with_port print config.agent_api_advertise_hostname config.ports.agent_api

  -- `parse_url` is `url.Parse`; none is the end of the process.
  module _ {Url : Type 0} (parse_url : Bytes → Option Url) where
    https : Bytes → Option (List Url)
    https host = elim (parse_url (codes "https://" ++ host)) [
      | none ↦ none
      | some url ↦ some (url ∷ [])
    ]

    unfoldable pub etcd_advertise_urls : Option (List Url)
    unfolding https
    etcd_advertise_urls = https etcd_advertise_host

    unfoldable pub etcd_client_advertise_urls : Option (List Url)
    unfolding https
    etcd_client_advertise_urls = https etcd_client_advertise_host

    unfoldable pub etcd_listen_urls : Option (List Url)
    unfolding https
    etcd_listen_urls = https etcd_listen_host

    unfoldable pub etcd_client_listen_urls : Option (List Url)
    unfolding https
    etcd_client_listen_urls = https etcd_client_listen_host

-- What `LoadConfig` asks of the packages net, os and strings. `split_host` is the host that
-- `net.SplitHostPort` finds.
pub record Machine : Type 0 where
  pub lookup_ip : Bytes → Option (List Bytes)
  pub interface_addrs : List InterfaceAddr
  pub split_host : Bytes → Option Bytes
  pub read_file : Bytes → File
  pub trim_space : Bytes → Bytes

-- A registry that is joined asks for a token.
can_join : Config → Bool
can_join config = equal config.join_url [] || not (equal config.initial_token [])

agent_hostname : Hostname → Hostname → Hostname
agent_hostname given peer = if is_valid given then given else peer

module _ (m : Machine) where
  -- The steps of `LoadConfig`; none is the end of the process.
  given_token : Config → Option Config
  given_token config =
      if equal config.initial_token_file []
      then some config
      else elim (m.read_file config.initial_token_file) [
        | missing ↦ none
        | unreadable ↦ none
        | stored text ↦ some (record config { initial_token = m.trim_space text })
      ]

  -- The host of the registry that is joined.
  join_host : Bytes → Option Bytes
  join_host [] = some []
  join_host (c ∷ url) = m.split_host (c ∷ url)

  unfoldable pub found_hostname : Config → Option Hostname
  unfolding join_host
  found_hostname config = elim (join_host config.join_url) [
    | none ↦ none
    | some host ↦ elim (find_best_addr m.lookup_ip m.interface_addrs host) [
      | none ↦ none
      | some addr ↦ some (hostname_from_addr addr)
    ]
  ]

  peer_hostname : Config → Option Hostname
  unfolding found_hostname
  peer_hostname config =
      if is_valid config.peer_advertise_hostname
      then some config.peer_advertise_hostname
      else found_hostname config

  -- `parsed` is what the environment gives.
  unfoldable pub load_config : Option Config → Option Config
  unfolding given_token can_join peer_hostname agent_hostname
  load_config parsed = elim parsed [
    | none ↦ none
    | some env ↦ elim (given_token env) [
      | none ↦ none
      | some config ↦
          if can_join config
          then elim (peer_hostname config) [
            | none ↦ none
            | some peer ↦ some (record config {
              peer_advertise_hostname = peer;
              agent_api_advertise_hostname =
                  agent_hostname config.agent_api_advertise_hostname peer;
              ports = load_ports config.ports;
            })
          ]
          else none
    ]
  ]
