-- ===== src/Registry/Catalog/Steps.antt =====
-- What one transaction and one call do to the listing that the store shows.
use mathlib.Core.Path.{subst}
use ssle_project.Prelude.{
  ℕ, ◌≡◌, refl, sym, ap, ◌∙◌, ◌||◌, Option, none, some, Option-cases, inl, inr, List, Bytes, equal,
  arith, if◌then◌else◌,
}
use ssle_project.Handler.{server_error, Outcome, ok, fail, panic, Outcome-cases}
use ssle_project.Schemas.{NodeSchema, ServiceSpec, RegisterServiceRequest}
use ssle_project.Keys.{node_key}
use ssle_project.Keys.Parts.{IsPart}
use ssle_project.Keys.Apart.{
  dc_service-ne-service, service-ne-dc_service, lease-ne-node, lease-ne-service,
  lease-ne-dc_service, service-ne-node, dc_service-ne-node,
}
use ssle_project.Etcd.{Etcd, IsHealthy, RoundTrips}
use ssle_project.Registry.Auth.Laws.{Stores}
use ssle_project.Registry.Lease.{get_node_lease}
use ssle_project.Registry.Lease.Laws.{get_node_lease-frame}
use ssle_project.Registry.Services.{
  keys_of, put_both, delete_both, service_spec, store_spec, delete_spec,
}
use ssle_project.Registry.Services.Stored.{delete_both-contents}
use ssle_project.Registry.Catalog.{
  Place, same_place, place_of, Listing, insert, erase, registered, offered, IsNode, IsPlace,
  by_service, by_datacenter, Shows,
}
use ssle_project.Registry.Catalog.Places.{same_place_lem, equal-service_key, equal-dc_service_key}

module _ (e : Etcd) (h : IsHealthy e) (locate : Bytes → Bytes → Bytes) where
  open h use {contents}

  node-IsPlace :
      (node : NodeSchema) (service instance' : Bytes)
      → IsNode e h locate node
      → IsPart service
      → IsPart instance'
      → IsPlace e h locate (place_of node service instance')
  node-IsPlace node service instance' n ps pi = (n.0, n.1, ps, pi, subst IsPart n.3 n.2)

  -- Where no key of a node or of a place changes, the listing is the same.
  kept-Shows :
      (d : Listing) (s s' : e.Store)
      → ((dc name : Bytes) → contents s' (node_key dc name) ≡ contents s (node_key dc name))
      → ((p : Place) → contents s' (by_service e h locate p) ≡ contents s (by_service e h locate p))
      → ((p : Place)
          → contents s' (by_datacenter e h locate p) ≡ contents s (by_datacenter e h locate p))
      → Shows e h locate d s
      → Shows e h locate d s'
  kept-Shows d s s' nodes at at' shown = record {
    nodes = λ dc name node st.
        shown.nodes dc name node (subst (λ x. Stores e x node) (nodes dc name) st);
    at_service = λ p parts. ap (offered e h locate) (at p) ∙ shown.at_service p parts;
    at_datacenter = λ p parts. ap (offered e h locate) (at' p) ∙ shown.at_datacenter p parts;
  }

  lease-Shows :
      (dc name : Bytes) (d : Listing) (s : e.Store)
      → Shows e h locate d s
      → Shows e h locate d (get_node_lease e dc name s).1
  lease-Shows dc name d s =
      kept-Shows d s (get_node_lease e dc name s).1
        (λ dc' name'.
          get_node_lease-frame e h dc name s (node_key dc' name') (lease-ne-node dc name dc' name'))
        (λ p. get_node_lease-frame e h dc name s (by_service e h locate p) (
          lease-ne-service dc name p.service (locate p.datacenter p.node) p.datacenter p.node
            p.instance'))
        (λ p.
          get_node_lease-frame e h dc name s (by_datacenter e h locate p)
            (lease-ne-dc_service dc name p.datacenter p.node p.service p.instance'))

  -- A transaction that gives both keys of a place one value changes the listing there.
  module _ (node : NodeSchema) (service instance' : Bytes) (n : IsNode e h locate node)
      (ps : IsPart service) (pi : IsPart instance') where
    abbrev here : Place
    here = place_of node service instance'

    abbrev both : Bytes × Bytes
    both = keys_of node service instance'

    service_key_same :
        (p : Place)
        → IsPlace e h locate p
        → (equal both.0 (by_service e h locate p) || equal both.1 (by_service e h locate p))
          ≡ same_place here p
    unfolding keys_of
    service_key_same p q = ground (
      arith,
      equal-service_key here p node.location (locate p.datacenter p.node) (n.0, n.1, ps, pi)
          (q.0, q.1, q.2, q.3) n.2 q.4 (λ same. let e = same_place_lem here p same in cc),
      dc_service-ne-service p.service (locate p.datacenter p.node) p.datacenter p.node p.instance'
          node.datacenter node.name service instance',
    )

    datacenter_key_same :
        (p : Place)
        → IsPlace e h locate p
        → (equal both.0 (by_datacenter e h locate p) || equal both.1 (by_datacenter e h locate p))
          ≡ same_place here p
    unfolding keys_of
    datacenter_key_same p q = ground (
      arith,
      equal-dc_service_key here p (n.0, n.1, ps, pi) (q.0, q.1, q.2, q.3),
      service-ne-dc_service service node.location node.datacenter node.name instance' p.datacenter
          p.node p.service p.instance',
    )

    changed-Shows :
        (value : Option ServiceSpec) (d : Listing) (s s' : e.Store)
        → ((dc name : Bytes) → contents s' (node_key dc name) ≡ contents s (node_key dc name))
        → ((k : Bytes)
            → offered e h locate (contents s' k) ≡ (
                if equal both.0 k || equal both.1 k
                then value
                else offered e h locate (contents s k)))
        → Shows e h locate d s
        → Shows e h locate (λ p. if same_place here p then value else d p) s'
    changed-Shows value d s s' nodes at shown = record {
      nodes = λ dc name found st.
          shown.nodes dc name found (subst (λ x. Stores e x found) (nodes dc name) st);
      at_service = λ p q.
          at (by_service e h locate p) ∙ rw (service_key_same p q, shown.at_service p q) refl;
      at_datacenter = λ p q.
          at (by_datacenter e h locate p)
          ∙ rw (datacenter_key_same p q, shown.at_datacenter p q) refl;
    }

    put-Shows :
        (spec : ServiceSpec) (w : e.Wire) (lease : ℕ) (d : Listing) (s : e.Store)
        → e.spec_json.unmarshal w ≡ some spec
        → Shows e h locate d s
        → Shows e h locate
            (λ p. if same_place here p then some spec else d p)
            (e.txn (put_both e both w lease) s).1
    unfolding put_both keys_of
    put-Shows spec w lease d s decodes =
        changed-Shows (some spec) d s (e.txn (put_both e both w lease) s).1
          (λ dc name. ground (
            arith,
            h.txn_applies (put_both e both w lease) s (node_key dc name),
            service-ne-node dc name service node.location node.datacenter node.name instance',
            dc_service-ne-node dc name node.datacenter node.name service instance',
          ))
          (λ k. ground (arith, h.txn_applies (put_both e both w lease) s k))

    pub delete-Shows :
        (d : Listing) (s : e.Store)
        → Shows e h locate d s
        → Shows e h locate (erase here d) (delete_spec e node service instance' s).1
    unfolding delete_spec erase keys_of
    delete-Shows d s shown =
        let t = delete_both e both in
        let after : (delete_spec e node service instance' s).1 ≡ (e.txn t s).1 =
          ground (arith, h.txn_succeeds t s) in
        let at = delete_both-contents e h node service instance' s in
        subst (Shows e h locate (erase here d)) (sym after) (
          changed-Shows none d s (e.txn t s).1
            (λ dc name. ground (
              arith,
              at (node_key dc name),
              service-ne-node dc name service node.location node.datacenter node.name instance',
              dc_service-ne-node dc name node.datacenter node.name service instance',
            ))
            (λ k. ground (arith, at k)) shown)

  pub store-Shows :
      RoundTrips e.spec_json
      → (node : NodeSchema) (req : RegisterServiceRequest) (addresses : List Bytes)
      → IsNode e h locate node
      → IsPart req.service
      → IsPart req.instance'
      → (d : Listing) (s : e.Store) → Shows e h locate d s
      → Shows e h locate
          (registered (store_spec e node (service_spec node req addresses) s).0 d)
          (store_spec e node (service_spec node req addresses) s).1
  unfolding store_spec registered insert service_spec
  store-Shows rt node req addresses n ps pi d s shown =
      let spec = service_spec node req addresses in
      let s1 = (get_node_lease e node.datacenter node.name s).1 in
      let leased = lease-Shows node.datacenter node.name d s shown in
      let IsShown : Outcome ServiceSpec × e.Store → Type 0 =
        λ r. Shows e h locate (registered r.0 d) r.1 in
      elim (Option-cases (e.spec_json.marshal spec)) [
        | inl bad ↦
            let done : store_spec e node spec s ≡ (fail server_error, s) = ground arith in
            subst IsShown (sym done) shown
        | inr (w, coded) ↦ elim (Outcome-cases (get_node_lease e node.datacenter node.name s).0) [
          | inl (lease, held) ↦
              let t = put_both e (keys_of node req.service req.instance') w lease in
              let done : store_spec e node spec s ≡ (ok spec, (e.txn t s1).1) =
                ground (arith, h.txn_succeeds t s1) in
              subst IsShown (sym done) (
                put-Shows node req.service req.instance' n ps pi spec w lease d s1 (rt spec w coded)
                  leased)
          | inr (inl (err, p)) ↦
              let done : store_spec e node spec s ≡ (fail err, s1) = ground arith in
              subst IsShown (sym done) leased
          | inr (inr p) ↦
              let done : store_spec e node spec s ≡ (panic, s1) = ground arith in
              subst IsShown (sym done) leased
        ]
      ]
