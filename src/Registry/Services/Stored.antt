-- ===== src/Registry/Services/Stored.antt =====
-- What registering, deregistering and resetting leave in the store.
use ssle_project.Prelude.{
  ℕ, ◌≡◌, refl, true, false, ◌||◌, Option, none, some, Option-cases, inl, inr, Bytes, equal,
  equal_refl, arith, if◌then◌else◌,
}
use ssle_project.Handler.{ok, Outcome-cases}
use ssle_project.Schemas.{NodeSchema, ServiceSpec}
use ssle_project.Keys.{lease_key}
use ssle_project.Keys.Apart.{dc_service-ne-service, service-ne-lease, dc_service-ne-lease}
use ssle_project.Etcd.{Etcd, IsHealthy, RoundTrips, Entry}
use ssle_project.Registry.Lease.{get_node_lease}
use ssle_project.Registry.Lease.Recorded.{lease_at}
use ssle_project.Registry.Lease.Laws.{get_node_lease-recorded}
use ssle_project.Registry.Services.{store_spec, keys_of, put_both, delete_both}

-- The entry decodes to the spec and is attached to the lease.
abbrev pub Serves : (e : Etcd) → Option (Entry e.Wire) → ServiceSpec → ℕ → Type 0
Serves e none spec lease = ⊥
Serves e (some entry) spec lease =
    (e.spec_json.unmarshal entry.value ≡ some spec) × (entry.lease ≡ lease)

module _ (e : Etcd) (h : IsHealthy e) where
  open h use {contents}

  -- Both keys of the service serve the spec under one lease, which is the node's.
  pub record IsServed (node : NodeSchema) (spec : ServiceSpec) (s : e.Store) : Type 0 where
    pub lease : ℕ
    pub leased : lease_at e h (lease_key node.datacenter node.name) s ≡ some lease
    pub at_service :
        Serves e (contents s (keys_of node spec.service_name spec.instance').0) spec lease
    pub at_datacenter :
        Serves e (contents s (keys_of node spec.service_name spec.instance').1) spec lease

  module _ (node : NodeSchema) (service instance' : Bytes) where
    abbrev both : Bytes × Bytes
    both = keys_of node service instance'

    put_both-Serves :
        (spec : ServiceSpec) (w : e.Wire) (lease : ℕ) (s : e.Store)
        → e.spec_json.unmarshal w ≡ some spec
        → Serves e (contents (e.txn (put_both e both w lease) s).1 both.0) spec lease
          × Serves e (contents (e.txn (put_both e both w lease) s).1 both.1) spec lease
    unfolding put_both keys_of
    put_both-Serves spec w lease s decodes = (
      rw (h.txn_applies (put_both e both w lease) s both.0) (
          rw
            (dc_service-ne-service service node.location node.datacenter node.name instance'
              node.datacenter node.name service instance')
            (rw (equal_refl both.0) (decodes, refl))),
      rw (h.txn_applies (put_both e both w lease) s both.1)
          (rw (equal_refl both.1) (decodes, refl)),
    )

    put_both_frame :
        (w : e.Wire) (lease : ℕ) (s : e.Store) (k : Bytes)
        → equal both.0 k ≡ false
        → equal both.1 k ≡ false
        → contents (e.txn (put_both e both w lease) s).1 k ≡ contents s k
    unfolding put_both
    put_both_frame w lease s k ne ne' = ground (arith, h.txn_applies (put_both e both w lease) s k)

    not_lease_key :
        (dc name : Bytes)
        → (equal both.0 (lease_key dc name) ≡ false) × (equal both.1 (lease_key dc name) ≡ false)
    unfolding keys_of
    not_lease_key dc name = (
      service-ne-lease service node.location node.datacenter node.name instance' dc name,
      dc_service-ne-lease node.datacenter node.name service instance' dc name,
    )

    pub delete_both-contents :
        (s : e.Store) (k : Bytes)
        → contents (e.txn (delete_both e both) s).1 k
          ≡ (if equal both.0 k || equal both.1 k then none else contents s k)
    unfolding delete_both
    delete_both-contents s k = ground (arith, h.txn_applies (delete_both e both) s k)

  pub store_spec_lem :
      RoundTrips e.spec_json
      → RoundTrips e.lease_json
      → (node : NodeSchema) (spec spec' : ServiceSpec) (s s' : e.Store)
      → store_spec e node spec s ≡ (ok spec', s')
      → (spec' ≡ spec) × IsServed node spec s'
  unfolding store_spec
  store_spec_lem rt rt' node spec spec' s s' eq = elim (Option-cases (e.spec_json.marshal spec)) [
    | inl bad ↦ ground arith
    | inr (w, coded) ↦
        let key = lease_key node.datacenter node.name in
        let both = keys_of node spec.service_name spec.instance' in
        let s1 = (get_node_lease e node.datacenter node.name s).1 in
        elim (Outcome-cases (get_node_lease e node.datacenter node.name s).0) [
          | inl (lease, leased) ↦
              let t = put_both e both w lease in
              let recorded =
                get_node_lease-recorded e h node.datacenter node.name s s1 lease rt'
                  (ground arith) in
              let (apart, apart') =
                not_lease_key node spec.service_name spec.instance' node.datacenter node.name in
              let (at, at') =
                put_both-Serves node spec.service_name spec.instance' spec w lease s1
                  (rt spec w coded) in
              elim (Option-cases (e.txn t s1).0) [
                | inl down ↦ ground arith
                | inr (false, lost) ↦ ground arith
                | inr (true, done) ↦
                    let here : (e.txn t s1).1 ≡ s' = ground arith in
                    let served : IsServed node spec (e.txn t s1).1 = record {
                      lease = lease;
                      leased =
                          rw
                            (put_both_frame node spec.service_name spec.instance' w lease s1 key
                              apart apart')
                            recorded;
                      at_service = at;
                      at_datacenter = at';
                    } in
                    (ground arith, rw here at served)
              ]
          | inr (inl (err, p)) ↦ ground arith
          | inr (inr p) ↦ ground arith
        ]
  ]
