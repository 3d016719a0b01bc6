-- ===== src/Registry/Services/Laws.antt =====
-- The contracts of `Register`, `Deregister` and `Reset`.
use ssle_project.Prelude.{
  ℕ, ◌≡◌, ◌≢◌, refl, ◌||◌, Option, none, some, Option-cases, inl, inr, List, [], ◌∷◌, Bytes, equal,
  arith, if◌then◌else◌, ◌⊎◌,
}
use ssle_project.Handler.{ok, Outcome-cases}
use ssle_project.Schemas.{NodeSchema, ServiceSpec, RegisterServiceRequest, DeregisterServiceRequest}
use ssle_project.Keys.{lease_key}
use ssle_project.Etcd.{Etcd, IsHealthy, RoundTrips, Entry, found_at, revoked, kept}
use ssle_project.Registry.Auth.{PeerInfo, authenticate_agent}
use ssle_project.Registry.Lease.{stored_lease}
use ssle_project.Registry.Services.{
  peer_addr, service_spec, registered_addresses, register, deregister, keys_of, delete_both,
  revoke_lease, reset, revoke_outcome,
}
use ssle_project.Registry.Services.Stored.{Serves, IsServed, store_spec_lem, delete_both-contents}

-- The addresses are those of the request, or else the host of the peer's address.
abbrev pub Chosen : (Bytes → Option Bytes) → PeerInfo → List Bytes → List Bytes → Type 0
Chosen split_host_port ctx asked addresses =
    ((asked ≢ []) × (addresses ≡ asked))
    ⊎ ((addr : Bytes) × (ip : Bytes) × (asked ≡ [])
        × (peer_addr ctx ≡ some addr)
        × (split_host_port addr ≡ some ip)
        × (addresses ≡ ip ∷ []))

registered_addresses-Chosen :
    (split_host_port : Bytes → Option Bytes) (ctx : PeerInfo) (asked addresses : List Bytes)
    (addr : Bytes)
    → peer_addr ctx ≡ some addr
    → registered_addresses split_host_port asked addr ≡ ok addresses
    → Chosen split_host_port ctx asked addresses
unfolding registered_addresses
registered_addresses-Chosen split_host_port ctx [] addresses addr from eq =
    elim (Option-cases (split_host_port addr)) [
      | inl bad ↦ ground arith
      | inr (ip, split) ↦ inr (addr, ip, refl, from, split, ground arith)
    ]
registered_addresses-Chosen split_host_port ctx (a ∷ asked) addresses addr from eq =
    inl (ground arith, ground arith)

module _ (e : Etcd) (h : IsHealthy e) where
  open h use {contents}

  -- On a server that answers, with coders that read back what they wrote: a registration that
  -- returns a spec authenticated the node of the spec. The spec has the fields of the request and of
  -- the node; its addresses are those of the request, or the host of the peer if the request has
  -- none. The store then serves the spec at the service key and at the datacenter key of the node,
  -- both attached to the lease that is recorded for the node.
  pub register-IsServed :
      (split_host_port : Bytes → Option Bytes) (ctx : PeerInfo) (req : RegisterServiceRequest)
      (spec : ServiceSpec) (s s' : e.Store)
      → RoundTrips e.spec_json
      → RoundTrips e.lease_json
      → register e split_host_port ctx req s ≡ (ok spec, s')
      → (node : NodeSchema) × (addresses : List Bytes) × ((authenticate_agent e ctx s).0 ≡ ok node)
        × Chosen split_host_port ctx req.addresses addresses
        × (spec ≡ service_spec node req addresses)
        × IsServed e h node spec s'
  unfolding register
  register-IsServed split_host_port ctx req spec s s' rt rt' eq =
      elim (Outcome-cases (authenticate_agent e ctx s).0) [
        | inl (node, known) ↦ elim (Option-cases (peer_addr ctx)) [
          | inl no_addr ↦ ground arith
          | inr (addr, from) ↦
              elim (Outcome-cases (registered_addresses split_host_port req.addresses addr)) [
                | inl (addresses, chosen) ↦
                    let (same, served) =
                      store_spec_lem e h rt rt' node (service_spec node req addresses) spec
                        (authenticate_agent e ctx s).1 s' (ground arith) in
                    (
                      node,
                      addresses,
                      known,
                      registered_addresses-Chosen split_host_port ctx req.addresses addresses addr
                          from chosen,
                      same,
                      rw same served,
                    )
                | inr (inl (err, p)) ↦ ground arith
                | inr (inr p) ↦ ground arith
              ]
        ]
        | inr (inl (err, p)) ↦ ground arith
        | inr (inr p) ↦ ground arith
      ]

  -- On a server that answers, an authenticated agent that deregisters a service succeeds. Exactly the
  -- service key and the datacenter key of that service of that node are then absent, and every other
  -- key is as before.
  pub deregister_exact :
      (ctx : PeerInfo) (req : DeregisterServiceRequest) (node : NodeSchema) (s : e.Store)
      (k : Bytes)
      → authenticate_agent e ctx s ≡ (ok node, s)
      → ((deregister e ctx req s).0 ≡ ok tt)
        × (contents (deregister e ctx req s).1 k ≡ (
            if equal (keys_of node req.service req.instance').0 k
              || equal (keys_of node req.service req.instance').1 k
            then none
            else contents s k))
  unfolding deregister
  deregister_exact ctx req node s k known =
      let t = delete_both e (keys_of node req.service req.instance') in
      (
        ground (arith, h.txn_succeeds t s),
        ground (
          arith,
          h.txn_succeeds t s,
          delete_both-contents e h node req.service req.instance' s k,
        ),
      )

  stored_value :
      (node : NodeSchema) (s : e.Store) (lease : ℕ)
      → stored_lease e (
          found_at
            (lease_key node.datacenter node.name)
            (contents s (lease_key node.datacenter node.name)))
        ≡ some lease
      → revoke_lease e node s
        ≡ (revoke_outcome (e.lease_revoke lease s).0, (e.lease_revoke lease s).1)
  unfolding revoke_lease
  stored_value node s lease found =
      ground (arith, h.range_key (lease_key node.datacenter node.name) 0 s)

  Serves-kept :
      (entry : Option (Entry e.Wire)) (spec : ServiceSpec) (lease : ℕ)
      → Serves e entry spec lease
      → kept lease entry ≡ none
  Serves-kept none spec lease st = absurd st
  Serves-kept (some entry) spec lease st = ground arith

  -- On a server that answers: if the store serves a spec for a node under the node's lease, and etcd
  -- revokes that lease, then a reset by that node succeeds and both keys of the service are absent
  -- after it.
  pub reset_clears :
      (ctx : PeerInfo) (node : NodeSchema) (spec : ServiceSpec) (s : e.Store)
      → authenticate_agent e ctx s ≡ (ok node, s)
      → (served : IsServed e h node spec s) → (e.lease_revoke served.lease s).0 ≡ revoked
      → ((reset e ctx s).0 ≡ ok tt)
        × (contents (reset e ctx s).1 (keys_of node spec.service_name spec.instance').0 ≡ none)
        × (contents (reset e ctx s).1 (keys_of node spec.service_name spec.instance').1 ≡ none)
  unfolding reset revoke_outcome
  reset_clears ctx node spec s known served can =
      let lease = served.lease in
      let keys = keys_of node spec.service_name spec.instance' in
      let run = stored_value node s lease served.leased in
      (
        ground (arith, can),
        ground (
          arith,
          can,
          h.revoke_removes lease s keys.0,
          Serves-kept (contents s keys.0) spec lease served.at_service,
        ),
        ground (
          arith,
          can,
          h.revoke_removes lease s keys.1,
          Serves-kept (contents s keys.1) spec lease served.at_datacenter,
        ),
      )
