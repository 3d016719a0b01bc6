-- ===== src/Registry/NodeApi.antt =====
-- `Config` and `Heartbeat` of registry/agent_api/node_api.go.
pub mod Laws
use ssle_project.Prelude.{
  ℕ, suc, ◌+◌, ◌-◌, ◌/◌, Bool, Option, none, some, List, [], ◌∷◌, map, Bytes, leb, if◌then◌else◌,
}
use ssle_project.Prelude.Int.{ℤ, pos, negsuc, sub_ℕ}
use ssle_project.Handler.{server_error, Handler, pure, lift, or_fail, catch_error, ◌>>=◌}
use ssle_project.Schemas.{NodeSchema}
use ssle_project.Keys.{peer_agent_api_namespace, prefix_end}
use ssle_project.Etcd.{Etcd, KeyValue}
use ssle_project.Registry.Auth.{
  second, node_certificate_expiry, Certificate, PeerInfo, extract_peer_certificate,
  authenticate_node_from_certificate, Signer, create_node_crt,
}
use ssle_project.Registry.Lease.{node_keepalive_ttl, get_node_lease}

pub record ConfigResponse (P : Type 0) : Type 0 where
  pub certificate : Option P
  pub key : Option P
  pub heartbeat_period : ℕ
  pub renew_period : ℕ
  pub registry_addrs : List Bytes

abbrev pub renew_period_ns : ℕ
renew_period_ns = node_certificate_expiry / 2

-- `cert.NotAfter.Sub(now) - renewPeriod`
unfoldable pub renew_at : Certificate → ℕ → ℤ
renew_at cert now = sub_ℕ cert.not_after (now + renew_period_ns)

module _ (x : Signer) where
  -- The response with no registry addresses; `now` is the time at which a new certificate starts.
  unfoldable pub renewal : ℕ → Bytes → NodeSchema → ℤ → ConfigResponse x.Pem
  renewal now role node (negsuc _) =
      let issued = create_node_crt x now node.datacenter node.name role in
      record {
        certificate = some issued.0;
        key = some issued.1;
        heartbeat_period = node_keepalive_ttl / 2;
        renew_period = renew_period_ns / second;
        registry_addrs = [];
      }
  renewal now role node (pos left) = record {
    certificate = none;
    key = none;
    heartbeat_period = node_keepalive_ttl / 2;
    renew_period = left / second;
    registry_addrs = [];
  }

  module _ (e : Etcd) where
    -- `now` is read for the test and `later` for the new certificate.
    unfoldable pub config : ℕ → ℕ → PeerInfo → Handler e.Store (ConfigResponse x.Pem)
    config now later ctx = do
      cert ← lift (extract_peer_certificate ctx)
      found ← authenticate_node_from_certificate e cert
      let res = renewal later found.0 found.1 (renew_at cert now)
      kvs ← or_fail server_error (
          e.range (record {
            key = peer_agent_api_namespace;
            range_end = some (prefix_end peer_agent_api_namespace);
            limit = 0;
          }))
      pure (record res { registry_addrs = map (λ kv. e.text kv.value) kvs })

-- The result of `GetNodeLease` is dropped, its error too.
unfoldable pub heartbeat : (e : Etcd) → PeerInfo → Handler e.Store (Unit {0})
heartbeat e ctx = do
  cert ← lift (extract_peer_certificate ctx)
  found ← authenticate_node_from_certificate e cert
  ignored ← catch_error (get_node_lease e found.1.datacenter found.1.name)
  pure tt
