-- ===== src/Registry/Lease.antt =====
-- `GetNodeLease` of registry/utils/utils.go.
pub mod Recorded
pub mod Laws
pub mod Concurrent
use ssle_project.Prelude.{
  ℕ, zero, suc, Bool, true, false, Option, none, some, List, [], ◌∷◌, Bytes, if◌then◌else◌,
}
use ssle_project.Handler.{
  server_error, Outcome, Handler, pure, raise, lift, or_fail, try, unwrap, ◌>>=◌,
}
use ssle_project.Keys.{lease_key}
use ssle_project.Etcd.{Etcd, KeyValue, Compare, version_is, create_is, put}

abbrev pub node_keepalive_ttl : ℕ
node_keepalive_ttl = 30

renewed : ℕ → Option ℕ → Option ℕ
renewed lease_id none = none
renewed lease_id (some _) = some lease_id

module _ (e : Etcd) where
  -- The lease id that the first pair holds, if there is one and it can be decoded.
  unfoldable pub stored_lease : List (KeyValue e.Wire) → Option ℕ
  stored_lease [] = none
  stored_lease (kv ∷ _) = e.lease_json.unmarshal kv.value

  -- The stored lease, if it could be renewed.
  renew : Option ℕ → Handler e.Store (Option ℕ)
  unfolding renewed
  renew none = pure none
  renew (some lease_id) = do answer ← try (e.lease_renew lease_id); pure (renewed lease_id answer)

  -- The key was not modified, or not created, since it was read.
  unfoldable pub unchanged : Bytes → List (KeyValue e.Wire) → Compare
  unchanged key [] = create_is key 0
  unchanged key (kv ∷ _) = version_is key kv.version

  -- A new lease, recorded under the key; none if another writer came first.
  grant : Bytes → List (KeyValue e.Wire) → Handler e.Store (Option ℕ)
  unfolding unchanged
  grant key kvs = do
    lease ← or_fail server_error (e.lease_grant node_keepalive_ttl)
    serialized ← lift (unwrap server_error (e.lease_json.marshal lease))
    succeeded ←
        or_fail server_error
          (e.txn (record { compare = unchanged key kvs ∷ []; success = put key serialized 0 ∷ [] }))
    pure (if succeeded then some lease else none)

  grant_unless : Bytes → List (KeyValue e.Wire) → Option ℕ → Handler e.Store (Option ℕ)
  unfolding grant
  grant_unless key kvs (some lease_id) = pure (some lease_id)
  grant_unless key kvs none = grant key kvs

  -- One round of the loop: the lease, or none if the round has to be retried.
  unfoldable pub lease_round : Bytes → Handler e.Store (Option ℕ)
  unfolding stored_lease renew grant_unless
  lease_round key = do
    kvs ← or_fail server_error (e.range (record { key = key; range_end = none; limit = 0 }))
    live ← renew (stored_lease kvs)
    grant_unless key kvs live

  or_retry : Handler e.Store ℕ → Option ℕ → Handler e.Store ℕ
  or_retry retry none = retry
  or_retry retry (some lease_id) = pure lease_id

  unfoldable pub lease_rounds : ℕ → Bytes → Handler e.Store ℕ
  unfolding or_retry
  lease_rounds zero key = raise server_error
  lease_rounds (suc n) key =
      let retry = lease_rounds n key in do found ← lease_round key; or_retry retry found

  unfoldable pub get_node_lease : Bytes → Bytes → Handler e.Store ℕ
  get_node_lease dc node_name = lease_rounds 5 (lease_key dc node_name)
