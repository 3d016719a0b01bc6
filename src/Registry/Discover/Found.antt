-- ===== src/Registry/Discover/Found.antt =====
-- A registered service in the answer of a discovery.
use mathlib.Core.Path.{subst}
use ssle_project.Prelude.{
  ℕ, ◌++◌, ◌≤◌, ◌≡◌, refl, sym, true, ◌⊎◌, inl, inr, Option, none, some, Option-cases, [], ◌∷◌,
  length, Bytes, Bool-cases, has_prefix, arith, ltb,
}
use ssle_project.Handler.{ok, Outcome-cases}
use ssle_project.Schemas.{NodeSchema, ServiceSpec, DiscoverRequest, RegisterServiceRequest}
use ssle_project.Keys.{under, service_namespace, service_key, prefix_end}
use ssle_project.Etcd.{Etcd, IsHealthy, RoundTrips, Entry, RangeRequest}
use ssle_project.Registry.Services.{keys_of, register}
use ssle_project.Registry.Services.Laws.{register-IsServed}
use ssle_project.Registry.Auth.{PeerInfo, authenticate_agent}
use ssle_project.Registry.Services.Stored.{Serves}
use ssle_project.Registry.Discover.{
  Services, Runtime, fill, decode_services, get_services, fill_services, widen, first_query,
  or_default, prefixes, discover_map,
}
use ssle_project.Registry.Discover.Maps.{has_key, fill_complete}
use ssle_project.Registry.Discover.Widening.{RespectsRange, Iterates}
use ssle_project.Registry.Discover.Complete.{
  ListsRange, AllDecode, length-le, get_services_complete,
}
use ssle_project.Registry.Discover.Levels.{
  has_prefix-service_key, top_prefix, name_prefix, has_prefix-name,
}

present :
    (e : Etcd) (found : Option (Entry e.Wire)) (spec : ServiceSpec) (lease : ℕ)
    → Serves e found spec lease
    → (entry : Entry e.Wire) × (found ≡ some entry)
present e none spec lease serves = absurd serves
present e (some entry) spec lease serves = (entry, refl)

module _ (e : Etcd) (h : IsHealthy e) (ranges : RespectsRange e) (rt : Runtime) (iter : Iterates rt)
    (s : e.Store) (lists : ListsRange e h s) where
  open h use {contents}

  get_services_store : (prefix : Bytes) (limit : ℕ) → (get_services e prefix limit s).1 ≡ s
  unfolding get_services
  get_services_store prefix limit =
      let r : RangeRequest = record {
        key = prefix;
        range_end = some (prefix_end prefix);
        limit = limit;
      } in
      let (kvs, answer) = lists.answers r in
      elim (Option-cases (decode_services e kvs [])) [
        | inl bad ↦ ground arith
        | inr (m, decoded) ↦ ground arith
      ]

  -- The wider queries leave the answer as it was if they fail.
  widen_total :
      (n : ℕ) (asked : Option Bytes) (prefix : Bytes) (svcs : Services)
      → (result : Services) × (widen e rt n asked prefix svcs s ≡ (ok result, s))
  unfolding widen fill_services get_services
  widen_total n asked prefix svcs =
      let r : RangeRequest = record {
        key = prefix;
        range_end = some (prefix_end prefix);
        limit = 3;
      } in
      let (kvs, answer) = lists.answers r in
      elim (Bool-cases (ltb (length svcs) 3)) [
        | inr full ↦ (svcs, ground arith)
        | inl room ↦ elim (Option-cases asked) [
          | inr (named, given) ↦ (svcs, ground arith)
          | inl unnamed ↦ elim (Option-cases (decode_services e kvs [])) [
            | inl bad ↦ (svcs, ground arith)
            | inr (m, decoded) ↦ (fill (rt.order n m) svcs, ground arith)
          ]
        ]
      ]

  widen_store :
      (n : ℕ) (asked : Option Bytes) (prefix : Bytes) (svcs : Services)
      → (widen e rt n asked prefix svcs s).1 ≡ s
  unfolding widen fill_services
  widen_store n asked prefix svcs =
      let same = get_services_store prefix 3 in
      elim (Outcome-cases (get_services e prefix 3 s).0) [
        | inl (m, got) ↦ ground arith
        | inr (inl (err, bad)) ↦ ground arith
        | inr (inr bad) ↦ ground arith
      ]

  -- The last step of the widening: the answer is full, or has everything under the prefix.
  widen_complete :
      (n : ℕ) (q k : Bytes) (svcs : Services) (entry : Entry e.Wire)
      → AllDecode e h s (q ++ b'/' ∷ [])
      → has_prefix (q ++ b'/' ∷ []) k ≡ true
      → contents s k ≡ some entry
      → (result : Services) × ((widen e rt n none (q ++ b'/' ∷ []) svcs s).0 ≡ ok result)
        × ((3 ≤ length result) ⊎ (has_key k result ≡ true))
  unfolding widen fill_services
  widen_complete n q k svcs entry good under_prefix there =
      elim (Bool-cases (ltb (length svcs) 3)) [
        | inr full ↦ (svcs, ground arith, inl (ground arith))
        | inl room ↦
            let (m, kvs, got, apart, keys, all) = get_services_complete e h ranges s lists q good in
            let result = fill (rt.order n m) svcs in
            (
              result,
              ground arith,
              elim (Bool-cases (ltb (length result) 3)) [
                | inr full ↦ inl (ground arith)
                | inl space ↦
                    let few = length-le kvs result apart (λ j here. ground (
                      arith,
                      fill_complete (rt.order n m) svcs j,
                      iter.has_key-order n m j,
                      keys j,
                    )) in
                    inr (
                      ground (
                        arith,
                        few,
                        all k entry under_prefix there,
                        fill_complete (rt.order n m) svcs k,
                        iter.has_key-order n m k,
                      ))
              ],
            )
      ]

  first_query_store :
      (name_prefix : Bytes) (asked : Option Bytes) → (first_query e rt name_prefix asked s).1 ≡ s
  unfolding first_query
  first_query_store name_prefix none = get_services_store name_prefix 3
  first_query_store name_prefix (some i) = get_services_store (name_prefix ++ rt.pointer) 1

  -- A discovery that names no instance.
  discover_map_total :
      (node : NodeSchema) (req : DiscoverRequest)
      → req.instance' ≡ none
      → AllDecode e h s (under service_namespace req.service ++ b'/' ∷ [])
      → (svcs : Services) × (discover_map e rt node req s ≡ (ok svcs, s))
  unfolding discover_map first_query
  discover_map_total node req unnamed good =
      let p = prefixes node req in
      let q = p.dc ++ or_default req.node node.name in
      let below : AllDecode e h s (q ++ b'/' ∷ []) = λ k entry there inside. good k entry there (
        subst (λ prefix. has_prefix prefix k ≡ true) (top_prefix node req)
          (has_prefix-name node req k
            (subst (λ prefix. has_prefix prefix k ≡ true) (sym (name_prefix node req)) inside))) in
      let (m, kvs, got, distinct, keys, all) = get_services_complete e h ranges s lists q below in
      let first : get_services e p.name 3 s ≡ (ok m, s) =
        subst (λ prefix. get_services e prefix 3 s ≡ (ok m, s)) (sym (name_prefix node req)) got in
      let (near, got_near) = widen_total 0 req.node p.dc m in
      let (far, got_far) = widen_total 1 req.datacenter p.loc near in
      let (last, got_last) = widen_total 2 req.location p.svc far in (last, ground arith)

  -- A discovery that names no location.
  discover_map_complete :
      (node : NodeSchema) (req : DiscoverRequest) (s' : e.Store) (svcs : Services) (k : Bytes)
      (entry : Entry e.Wire)
      → req.location ≡ none
      → AllDecode e h s (under service_namespace req.service ++ b'/' ∷ [])
      → has_prefix (under service_namespace req.service ++ b'/' ∷ []) k ≡ true
      → contents s k ≡ some entry
      → discover_map e rt node req s ≡ (ok svcs, s')
      → (3 ≤ length svcs) ⊎ (has_key k svcs ≡ true)
  unfolding discover_map
  discover_map_complete node req s' svcs k entry anywhere good under_prefix there eq =
      let p = prefixes node req in
      elim (Outcome-cases (first_query e rt p.name req.instance' s).0) [
        | inr (inl (err, bad)) ↦ ground arith
        | inr (inr bad) ↦ ground arith
        | inl (first, got) ↦ elim (Outcome-cases (widen e rt 0 req.node p.dc first s).0) [
          | inr (inl (err, bad)) ↦ ground (arith, first_query_store p.name req.instance')
          | inr (inr bad) ↦ ground (arith, first_query_store p.name req.instance')
          | inl (near, got') ↦ elim (Outcome-cases (widen e rt 1 req.datacenter p.loc near s).0) [
            | inr (inl (err, bad)) ↦
                ground
                  (arith, first_query_store p.name req.instance', widen_store 0 req.node p.dc first)
            | inr (inr bad) ↦
                ground
                  (arith, first_query_store p.name req.instance', widen_store 0 req.node p.dc first)
            | inl (far, got2) ↦
                let (result, last, found) =
                  widen_complete 2 (under service_namespace req.service) k far entry good
                    under_prefix there in
                let same : result ≡ svcs = ground (
                  arith,
                  top_prefix node req,
                  first_query_store p.name req.instance',
                  widen_store 0 req.node p.dc first,
                  widen_store 1 req.datacenter p.loc near,
                ) in
                subst (λ m. (3 ≤ length m) ⊎ (has_key k m ≡ true)) same found
          ]
        ]
      ]

module _ (e : Etcd) (h : IsHealthy e) (ranges : RespectsRange e) (rt : Runtime)
    (iter : Iterates rt) where
  open h use {contents}

  -- On a server that answers, whose range requests list what they should, with coders that read back
  -- what they wrote: after a registration, a discovery of that service by any node that names neither
  -- a location nor an instance succeeds and leaves the server as it is, and the map that it builds has
  -- at least three services, or the service key of the registration. Everything that is stored below
  -- the name of the service has to be the JSON of a service.
  pub discover_map-register :
      (split_host_port : Bytes → Option Bytes) (ctx : PeerInfo) (asked : RegisterServiceRequest)
      (spec : ServiceSpec) (asker : NodeSchema) (req : DiscoverRequest) (s s1 : e.Store)
      → RoundTrips e.spec_json
      → RoundTrips e.lease_json
      → register e split_host_port ctx asked s ≡ (ok spec, s1)
      → req.service ≡ spec.service_name
      → req.location ≡ none
      → req.instance' ≡ none
      → ListsRange e h s1
      → AllDecode e h s1 (under service_namespace req.service ++ b'/' ∷ [])
      → (node : NodeSchema) × (svcs : Services) × ((authenticate_agent e ctx s).0 ≡ ok node)
        × (discover_map e rt asker req s1 ≡ (ok svcs, s1))
        × ((3 ≤ length svcs)
            ⊎ (has_key (keys_of node spec.service_name spec.instance').0 svcs ≡ true))
  unfolding keys_of
  discover_map-register split_host_port ctx asked spec asker req s s1 rt1 rt2 registered named
        anywhere unnamed lists good =
      let (node, addresses, known, chosen, same, served) =
        register-IsServed e h split_host_port ctx asked spec s s1 rt1 rt2 registered in
      let k =
        service_key spec.service_name node.location node.datacenter node.name spec.instance' in
      let (entry, there) = present e (contents s1 k) spec served.lease served.at_service in
      let under_prefix =
        subst (λ name. has_prefix (under service_namespace name ++ b'/' ∷ []) k ≡ true) (sym named)
          (has_prefix-service_key spec.service_name node.location node.datacenter node.name
            spec.instance') in
      let (svcs, found) = discover_map_total e h ranges rt iter s1 lists asker req unnamed good in
      (
        node,
        svcs,
        known,
        found,
        discover_map_complete e h ranges rt iter s1 lists asker req s1 svcs k entry anywhere good
            under_prefix there found,
      )
