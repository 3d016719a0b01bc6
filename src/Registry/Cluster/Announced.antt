-- ===== src/Registry/Cluster/Announced.antt =====
-- The address that a started registry announces: `EtcdPostStartUpdate` and `Config`.
use mathlib.Core.Path.{subst}
use mathlib.Core.List.{Mem}
use ssle_project.Prelude.{
  ℕ, ◌≡◌, refl, sym, true, some, List, map, Bytes, codes, in_range, has_prefix, arith,
}
use ssle_project.Handler.{ok}
use ssle_project.Schemas.{NodeSchema}
use ssle_project.Keys.{peer_agent_api_namespace, prefix_end, under}
use ssle_project.Keys.Range.{prefix_end-exact}
use ssle_project.Etcd.{Etcd, IsHealthy, KeyValue}
use ssle_project.Config.{Addr}
use ssle_project.Config.Hosts.{Config, agent_api_advertise_host}
use ssle_project.Registry.Auth.{
  Certificate, PeerInfo, extract_peer_certificate, authenticate_node_from_certificate, Signer,
}
use ssle_project.Registry.Auth.Known.{from_certificate_keeps}
use ssle_project.Registry.NodeApi.{ConfigResponse, config, renewal, renew_at}
use ssle_project.Registry.NodeApi.Laws.{addrs_request}
use ssle_project.Registry.Cluster.{Server, own_member, post_start_update}

announced_in_range :
    (name : Bytes)
    → in_range peer_agent_api_namespace
        (prefix_end peer_agent_api_namespace)
        (under peer_agent_api_namespace name)
      ≡ true
unfolding has_prefix
announced_in_range name =
    prefix_end-exact (codes "peer_agent_ap") b'i' (under peer_agent_api_namespace name)
      (omega arith)

module _ (e : Etcd) (h : IsHealthy e) where
  open h use {contents}

  -- A range request with no limit lists the text at a key in its range that has just been put.
  pub record Announces (server : Server e.Store) : Type 0 where
    pub put_lists :
        (key range_end k v : Bytes) (s : e.Store)
        → in_range key range_end k ≡ true
        → (server.put k v s).0 ≡ some tt
        → (kvs : List (KeyValue e.Wire)) × ((e.range
              (record { key = key; range_end = some range_end; limit = 0 })
              (server.put k v s).1).0
            ≡ some kvs)
          × Mem v (map (λ kv. e.text kv.value) kvs)

  module _ (server : Server e.Store) (a : Announces server) where
    config_lists :
        (x : Signer) (now later : ℕ) (ctx : PeerInfo) (cert : Certificate) (role : Bytes)
        (node : NodeSchema) (s : e.Store) (kvs : List (KeyValue e.Wire))
        → extract_peer_certificate ctx ≡ ok cert
        → (authenticate_node_from_certificate e cert s).0 ≡ ok (role, node)
        → (e.range addrs_request s).0 ≡ some kvs
        → (res : ConfigResponse x.Pem) × ((config x e now later ctx s).0 ≡ ok res)
          × (res.registry_addrs ≡ map (λ kv. e.text kv.value) kvs)
    unfolding config
    config_lists x now later ctx cert role node s kvs shown known ranged =
        let res : ConfigResponse x.Pem = renewal x later role node (renew_at cert now) in
        (
          record res { registry_addrs = map (λ kv. e.text kv.value) kvs },
          ground (arith, from_certificate_keeps e h cert s),
          refl,
        )

    -- On a server that answers, and whose unlimited range requests succeed and list a text that has
    -- just been put into their range: in the state right after the update of a starting registry, if
    -- the put of its address went well, a node that the certificate of its connection and the store
    -- authenticate gets an answer to `Config`, and the answer lists the address of the registry.
    pub config-post_start_update :
        (print : Addr → Bytes) (c : Config) (x : Signer) (now later : ℕ) (ctx : PeerInfo)
        (cert : Certificate) (role : Bytes) (node : NodeSchema) (s s' : e.Store)
        → (server.put
            (under peer_agent_api_namespace server.name)
            (agent_api_advertise_host print c)
            (server.update_member (own_member server) s).1).0
          ≡ some tt
        → post_start_update print c server s ≡ s'
        → extract_peer_certificate ctx ≡ ok cert
        → (authenticate_node_from_certificate e cert s').0 ≡ ok (role, node)
        → (res : ConfigResponse x.Pem) × ((config x e now later ctx s').0 ≡ ok res)
          × Mem (agent_api_advertise_host print c) res.registry_addrs
    unfolding post_start_update
    config-post_start_update print c x now later ctx cert role node s s' puts done shown known =
        let key = under peer_agent_api_namespace server.name in
        let host = agent_api_advertise_host print c in
        let s1 = (server.update_member (own_member server) s).1 in
        let (kvs, ranged, member) =
          a.put_lists peer_agent_api_namespace (prefix_end peer_agent_api_namespace) key host s1
            (announced_in_range server.name) puts in
        let (res, answered, addrs) =
          config_lists x now later ctx cert role node s' kvs shown known
            (subst (λ t. (e.range addrs_request t).0 ≡ some kvs) done ranged) in
        (res, answered, subst (Mem host) (sym addrs) member)
