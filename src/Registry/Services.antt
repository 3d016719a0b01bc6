-- ===== src/Registry/Services.antt =====
-- `Register` of registry/agent_api/register.go, `Deregister` and `Reset` of
-- registry/agent_api/delete.go.
pub mod Laws
pub mod Stored
use ssle_project.Prelude.{ℕ, Bool, Option, none, some, List, [], ◌∷◌, Bytes, if◌then◌else◌}
use ssle_project.Handler.{
  auth_failure, server_error, Outcome, ok, fail, Handler, pure, raise, lift, or_fail, unwrap, ◌>>=◌,
}
use ssle_project.Schemas.{NodeSchema, ServiceSpec, RegisterServiceRequest, DeregisterServiceRequest}
use ssle_project.Keys.{service_key, dc_service_key, lease_key}
use ssle_project.Etcd.{
  Etcd, KeyValue, RequestOp, put, delete, TxnRequest, Revoked, revoked, lease_not_found, failed,
}
use ssle_project.Registry.Auth.{PeerInfo, no_peer, other_credentials, tls_info, authenticate_agent}
use ssle_project.Registry.Lease.{get_node_lease, stored_lease}

-- `p.Addr.String()` of the peer that `peer.FromContext` finds.
unfoldable pub peer_addr : PeerInfo → Option Bytes
peer_addr no_peer = none
peer_addr (other_credentials addr) = some addr
peer_addr (tls_info _ addr) = some addr

unfoldable pub service_spec : NodeSchema → RegisterServiceRequest → List Bytes → ServiceSpec
service_spec node req addresses = record {
  service_name = req.service;
  instance' = req.instance';
  location = node.location;
  datacenter = node.datacenter;
  node = node.name;
  addresses = addresses;
  ports = req.ports;
  metrics_port = req.metrics_port;
}

-- The two keys of a service of a node.
unfoldable pub keys_of : NodeSchema → Bytes → Bytes → Bytes × Bytes
keys_of node service instance' = (
  service_key service node.location node.datacenter node.name instance',
  dc_service_key node.datacenter node.name service instance',
)

-- The addresses of the request, or else the host of the peer. `split_host_port` is
-- `net.SplitHostPort`, without the port.
unfoldable pub registered_addresses :
    (Bytes → Option Bytes) → List Bytes → Bytes → Outcome (List Bytes)
registered_addresses split_host_port [] addr = elim (split_host_port addr) [
  | none ↦ fail server_error
  | some ip ↦ ok (ip ∷ [])
]
registered_addresses split_host_port (a ∷ addresses) addr = ok (a ∷ addresses)

-- A lease that is not there any more is no error.
revoke_outcome : Revoked → Outcome (Unit {0})
revoke_outcome revoked = ok tt
revoke_outcome lease_not_found = ok tt
revoke_outcome failed = fail server_error

module _ (e : Etcd) where
  unfoldable pub put_both : Bytes × Bytes → e.Wire → ℕ → TxnRequest e.Wire
  put_both keys serialized lease = record {
    compare = [];
    success = put keys.0 serialized lease ∷ put keys.1 serialized lease ∷ [];
  }

  unfoldable pub delete_both : Bytes × Bytes → TxnRequest e.Wire
  delete_both keys = record { compare = []; success = delete keys.0 ∷ delete keys.1 ∷ [] }

  -- The spec is written at both keys, under the lease of the node.
  unfoldable pub store_spec : NodeSchema → ServiceSpec → Handler e.Store ServiceSpec
  unfolding put_both keys_of
  store_spec node spec = do
    serialized ← lift (unwrap server_error (e.spec_json.marshal spec))
    lease ← get_node_lease e node.datacenter node.name
    succeeded ←
        or_fail server_error
          (e.txn (put_both (keys_of node spec.service_name spec.instance') serialized lease))
    if succeeded then pure spec else raise server_error

  unfoldable pub register :
      (Bytes → Option Bytes) → PeerInfo → RegisterServiceRequest → Handler e.Store ServiceSpec
  unfolding peer_addr registered_addresses service_spec store_spec
  register split_host_port ctx req = do
    node ← authenticate_agent e ctx
    addr ← lift (unwrap auth_failure (peer_addr ctx))
    addresses ← lift (registered_addresses split_host_port req.addresses addr)
    store_spec node (service_spec node req addresses)

  unfoldable pub delete_spec : NodeSchema → Bytes → Bytes → Handler e.Store (Unit {0})
  unfolding delete_both keys_of
  delete_spec node service instance' = do
    succeeded ← or_fail server_error (e.txn (delete_both (keys_of node service instance')))
    if succeeded then pure tt else raise server_error

  unfoldable pub deregister : PeerInfo → DeregisterServiceRequest → Handler e.Store (Unit {0})
  unfolding delete_spec
  deregister ctx req = do
    node ← authenticate_agent e ctx
    delete_spec node req.service req.instance'

  revoke_stored : Option ℕ → Handler e.Store (Unit {0})
  unfolding revoke_outcome
  revoke_stored none s = (ok tt, s)
  revoke_stored (some lease_id) s =
      (revoke_outcome (e.lease_revoke lease_id s).0, (e.lease_revoke lease_id s).1)

  unfoldable pub revoke_lease : NodeSchema → Handler e.Store (Unit {0})
  unfolding revoke_stored stored_lease
  revoke_lease node = do
    kvs ← or_fail server_error (
        e.range (record { key = lease_key node.datacenter node.name; range_end = none; limit = 0 }))
    revoke_stored (stored_lease e kvs)

  unfoldable pub reset : PeerInfo → Handler e.Store (Unit {0})
  unfolding revoke_lease
  reset ctx = do node ← authenticate_agent e ctx; revoke_lease node
