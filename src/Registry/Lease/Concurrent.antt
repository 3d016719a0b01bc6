-- ===== src/Registry/Lease/Concurrent.antt =====
-- Several calls of `GetNodeLease` of registry/utils/utils.go for one node at the same time. Each step
-- is one request to the server; the calls and the rest of the system take turns in any order.
pub mod Alone
pub mod Laws
use ssle_project.Prelude.{
  ℕ, zero, suc, ◌≡◌, Bool, true, false, Option, none, some, List, [], ◌∷◌, Bytes, ◌==◌,
  if◌then◌else◌,
}
use ssle_project.Etcd.{Etcd, KeyValue, put, IsHealthy}
use ssle_project.Registry.Lease.{node_keepalive_ttl, stored_lease, unchanged}

-- Where a call stands, with the local variables that are live there: before the range request,
-- the renewal, the grant and the transaction, each with the number of rounds behind this one, and
-- behind the return.
pub data Pc (W : Type 0) : Type 0 where
  reading : ℕ → Pc W
  renewing : ℕ → List (KeyValue W) → ℕ → Pc W
  granting : ℕ → List (KeyValue W) → Pc W
  recording : ℕ → List (KeyValue W) → ℕ → W → Pc W
  returned : ℕ → Pc W
  failed : Pc W

module _ (e : Etcd) where
  -- A stored lease is renewed, and none, or one that cannot be decoded, is replaced.
  unfoldable pub looked_up : ℕ → Option (List (KeyValue e.Wire)) → Pc e.Wire
  unfolding stored_lease
  looked_up n none = failed
  looked_up n (some kvs) = elim (stored_lease e kvs) [
    | none ↦ granting n kvs
    | some lease_id ↦ renewing n kvs lease_id
  ]

  unfoldable pub was_renewed : ℕ → List (KeyValue e.Wire) → ℕ → Option ℕ → Pc e.Wire
  was_renewed n kvs lease_id none = granting n kvs
  was_renewed n kvs lease_id (some _) = returned lease_id

  unfoldable pub was_granted : ℕ → List (KeyValue e.Wire) → Option ℕ → Pc e.Wire
  was_granted n kvs none = failed
  was_granted n kvs (some lease) = elim (e.lease_json.marshal lease) [
    | none ↦ failed
    | some serialized ↦ recording n kvs lease serialized
  ]

  -- The head of the loop.
  unfoldable pub next_round : ℕ → Pc e.Wire
  next_round zero = failed
  next_round (suc n) = reading n

  unfoldable pub was_recorded : ℕ → ℕ → Option Bool → Pc e.Wire
  unfolding next_round
  was_recorded n lease none = failed
  was_recorded n lease (some false) = next_round n
  was_recorded n lease (some true) = returned lease

  -- The next request of a call, and what it does with the answer.
  unfoldable pub advance : Bytes → Pc e.Wire → e.Store → Pc e.Wire × e.Store
  unfolding looked_up was_renewed was_granted was_recorded unchanged
  advance key (reading n) s =
      let (found, s') = e.range (record { key = key; range_end = none; limit = 0 }) s in
      (looked_up n found, s')
  advance key (renewing n kvs lease_id) s =
      let (ttl, s') = e.lease_renew lease_id s in (was_renewed n kvs lease_id ttl, s')
  advance key (granting n kvs) s =
      let (lease, s') = e.lease_grant node_keepalive_ttl s in (was_granted n kvs lease, s')
  advance key (recording n kvs lease serialized) s =
      let (succeeded, s') =
        e.txn (record { compare = unchanged e key kvs ∷ []; success = put key serialized 0 ∷ [] })
          s in
      (was_recorded n lease succeeded, s')
  advance key (returned lease) s = (returned lease, s)
  advance key failed s = (failed, s)

  -- A call that is alone, for a number of requests.
  unfoldable pub advances : ℕ → Bytes → Pc e.Wire → e.Store → Pc e.Wire × e.Store
  unfolding advance
  advances zero key p s = (p, s)
  advances (suc n) key p s = let (p', s') = advance key p s in advances n key p' s'

  -- The server, and where each call stands.
  pub record System : Type 0 where
    pub store : e.Store
    pub calls : ℕ → Pc e.Wire

  abbrev pub moved : ℕ → Pc e.Wire → (ℕ → Pc e.Wire) → ℕ → Pc e.Wire
  moved i p calls j = if j == i then p else calls j

  -- Every call is at its first round.
  abbrev pub begun : e.Store → System
  begun s = record { store = s; calls = λ i. next_round 5 }

  -- A step of one call, or a step of another part of the system, which leaves the key alone.
  pub data Step (h : IsHealthy e) (key : Bytes) (x : System) : System → Type 0 where
    requests :
        (i : ℕ)
        → Step h key x (record {
          store = (advance key (x.calls i) x.store).1;
          calls = moved i (advance key (x.calls i) x.store).0 x.calls;
        })
    elsewhere :
        (s' : e.Store)
        → h.contents s' key ≡ h.contents x.store key
        → Step h key x (record { store = s'; calls = x.calls })

  pub data Reach (h : IsHealthy e) (key : Bytes) (x : System) : System → Type 0 where
    at_once : Reach h key x x
    later : {y z : System} → Reach h key x y → Step h key y z → Reach h key x z
