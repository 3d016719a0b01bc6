-- ===== src/Registry/Lease/Laws.antt =====
-- `GetNodeLease` against a server that answers, and its bound on retries.
use ssle_project.Prelude.{ℕ, zero, suc, ◌≡◌, ◌≢◌, refl, false, none, some, Bytes, equal, arith}
use ssle_project.Handler.{server_error, ok, fail}
use ssle_project.Keys.{lease_key}
use ssle_project.Etcd.{Etcd, IsHealthy, RoundTrips}
use ssle_project.Registry.Lease.{lease_round, lease_rounds, get_node_lease}
use ssle_project.Registry.Lease.Recorded.{
  lease_at, lease_rounds_lem, lease_rounds_frame, lease_round_total,
}

module _ (e : Etcd) (h : IsHealthy e) (dc name : Bytes) (s : e.Store) where
  -- On a server that answers, with a coder of lease ids that reads back what it wrote: when
  -- `GetNodeLease` returns a lease, that lease is the one recorded at the node's lease key.
  pub get_node_lease-recorded :
      (s' : e.Store) (lease : ℕ)
      → RoundTrips e.lease_json
      → get_node_lease e dc name s ≡ (ok lease, s')
      → lease_at e h (lease_key dc name) s' ≡ some lease
  unfolding get_node_lease
  get_node_lease-recorded s' lease rt = lease_rounds_lem e h rt 5 (lease_key dc name) s s' lease

  -- On a server that answers, `GetNodeLease` changes what is stored at no other key, whether it
  -- succeeds or fails.
  pub get_node_lease-frame :
      (k : Bytes)
      → equal (lease_key dc name) k ≡ false
      → h.contents (get_node_lease e dc name s).1 k ≡ h.contents s k
  unfolding get_node_lease
  get_node_lease-frame k ne = lease_rounds_frame e h 5 (lease_key dc name) k s ne

  -- On a server that answers, grants every lease, and whose lease ids can all be encoded,
  -- `GetNodeLease` returns a lease, and it does so in its first round.
  pub get_node_lease-total :
      ((t : e.Store) → (e.lease_grant 30 t).0 ≢ none)
      → ((lease : ℕ) → e.lease_json.marshal lease ≢ none)
      → (lease : ℕ) × ((get_node_lease e dc name s).0 ≡ ok lease)
        × (get_node_lease e dc name s ≡ lease_rounds e 1 (lease_key dc name) s)
  unfolding get_node_lease lease_rounds
  get_node_lease-total grants marshals =
      let (lease, first) = lease_round_total e h grants marshals (lease_key dc name) s in
      (lease, ground arith, ground arith)

losing_rounds :
    (e : Etcd) (key : Bytes)
    → ((t : e.Store) → (lease_round e key t).0 ≡ ok none)
    → (n : ℕ) (s : e.Store) → (lease_rounds e n key s).0 ≡ fail server_error
unfolding lease_rounds
losing_rounds e key loses zero s = refl
losing_rounds e key loses (suc n) s =
    ground (arith, loses s, losing_rounds e key loses n (lease_round e key s).1)

-- If every round finds that another writer came first, then `GetNodeLease` gives up with a server
-- error.
pub get_node_lease-gives_up :
    (e : Etcd) (dc name : Bytes) (s : e.Store)
    → ((t : e.Store) → (lease_round e (lease_key dc name) t).0 ≡ ok none)
    → (get_node_lease e dc name s).0 ≡ fail server_error
unfolding get_node_lease
get_node_lease-gives_up e dc name s loses = losing_rounds e (lease_key dc name) loses 5 s
