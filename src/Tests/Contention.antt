-- ===== src/Tests/Contention.antt =====
-- Two calls of `GetNodeLease` at once, on the server in memory when lease 7 has run out.
use ssle_project.Prelude.{
  ℕ, ◌+◌, ◌≡◌, ◌≢◌, refl, List, [], ◌∷◌, none, some, Bytes, codes, equal, ◌==◌, if◌then◌else◌,
  arith,
}
use ssle_project.Keys.{lease_key}
use ssle_project.Etcd.{Etcd, all_hold, IsHealthy}
use ssle_project.Registry.Lease.{stored_lease, unchanged, get_node_lease}
use ssle_project.Registry.Lease.Recorded.{lease_at}
use ssle_project.Registry.Lease.Concurrent.{
  returned, next_round, looked_up, was_renewed, was_granted, was_recorded, advance, advances, moved,
  System, begun, requests, Reach, at_once, later,
}
use ssle_project.Registry.Lease.Concurrent.Alone.{end_of, get_node_lease-advances}
use ssle_project.Registry.Lease.Concurrent.Laws.{get_node_lease_agree}
use ssle_project.Tests.Memory.{Memory, lease_value, memory, applies, lease_RoundTrips}

-- Lease 7 has run out, and is not granted again.
abbrev aging : Etcd
aging = record memory {
  lease_grant = λ ttl s. (some (s.next_lease + 8), record s { next_lease = s.next_lease + 1 });
  lease_renew = λ lease s. (if lease == 7 then none else some 30, s);
}

abbrev aging-IsHealthy : IsHealthy aging
aging-IsHealthy = record {
  contents = λ s. s.contents;
  revision = λ s. s.revision + 1;
  range_key = λ k limit s. refl;
  txn_succeeds = λ t s. refl;
  txn_applies = λ t s k. applies t s (all_hold t.compare s.contents) k;
  grant_keeps = λ ttl s k. refl;
  renew_keeps = λ lease s k. refl;
  revoke_removes = λ lease s k h. refl;
}

abbrev key : Bytes
key = codes "node_lease/dc01/n1"

-- Lease 7 is recorded for the node.
abbrev aged : Memory
aged = record {
  contents = λ k.
      if equal k key
      then some (record { value = lease_value 7; lease = 0; version = 1; create_index = 0 })
      else none;
  keys = key ∷ [];
  revision = 1;
  next_lease = 0;
}

-- The system after the calls of a list have made their requests in turn.
unfoldable after : List ℕ → System aging → System aging
unfolding advance
after [] x = x
after (i ∷ calls) x = after calls (record {
  store = (advance aging key (x.calls i) x.store).1;
  calls = moved aging i (advance aging key (x.calls i) x.store).0 x.calls;
})

after-Reach :
    (calls : List ℕ) (x y : System aging)
    → Reach aging aging-IsHealthy key x y
    → Reach aging aging-IsHealthy key x (after calls y)
unfolding after
after-Reach [] x y r = r
after-Reach (i ∷ calls) x y r = after-Reach calls x _ (later r (requests i))

abbrev turns : List ℕ
turns = 0 ∷ 1 ∷ 0 ∷ 1 ∷ 0 ∷ 1 ∷ 0 ∷ 1 ∷ 1 ∷ 1 ∷ []

-- Both calls read lease 7, fail to renew it and get a lease; the first records its lease, and the
-- second finds it.
abbrev contended : System aging
contended = after turns (begun aging aged)

both_returned : (contended.calls 0 ≡ returned 8) × (contended.calls 1 ≡ returned 8)
unfolding after advance next_round looked_up stored_lease was_renewed was_granted was_recorded
    unchanged equal
both_returned = (refl, refl)

get_node_lease_agree_example :
    (◌≡◌ {A = ℕ} 8 8)
    × (◌≢◌ {A = ℕ} 8 7)
    × (lease_at aging aging-IsHealthy key contended.store ≡ some 8)
unfolding after advance next_round looked_up stored_lease was_renewed was_granted was_recorded
    unchanged equal
get_node_lease_agree_example =
    get_node_lease_agree aging aging-IsHealthy key 7 aged contended lease_RoundTrips (λ t. refl)
      (λ l t alive. ground arith) (λ t same. ground arith)
      (after-Reach turns (begun aging aged) (begun aging aged) at_once) 0 1 8 8 refl refl

get_node_lease-advances_example : advances aging 20 key (next_round aging 5) aged ≡ (
  end_of (get_node_lease aging (codes "dc01") (codes "n1") aged).0,
  (get_node_lease aging (codes "dc01") (codes "n1") aged).1,
)
unfolding lease_key
get_node_lease-advances_example = get_node_lease-advances aging (codes "dc01") (codes "n1") aged
