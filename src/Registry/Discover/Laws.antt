-- ===== src/Registry/Discover/Laws.antt =====
-- Which services a discovery can return, and how many.
use mathlib.Core.List.{append_assoc, append-nil}
use ssle_project.Prelude.{
  ◌≤◌, ◌≡◌, refl, sym, ap, ◌∙◌, true, Option, none, some, [], ◌∷◌, ◌++◌, length, Bytes, inl, inr,
  arith,
}
use ssle_project.Handler.{ok, Outcome-cases}
use ssle_project.Schemas.{NodeSchema, DiscoverRequest}
use ssle_project.Keys.{below, under, service_namespace}
use ssle_project.Etcd.{Etcd}
use ssle_project.Registry.Discover.{
  Services, max_get_service_limit, Runtime, Prefixes, prefixes, get_services, widen, first_query,
  discover_map, or_default,
}
use ssle_project.Registry.Discover.Maps.{has_key}
use ssle_project.Registry.Discover.Widening.{
  RespectsRange, Iterates, Within, IsBelow, get_services_lem, widen_lem,
}

-- The narrowest prefix that the request names outright: a level counts if all the wider ones are
-- given too.
abbrev pub scope : Prefixes → Option Bytes → Option Bytes → Option Bytes → Bytes
scope p none _ _ = p.svc
scope p (some _) none _ = p.loc
scope p (some _) (some _) none = p.dc
scope p (some _) (some _) (some _) = p.name

deeper : (base p x : Bytes) → IsBelow base p → IsBelow base (below p x)
deeper base p x (q, r, ends, extends) = (
  p ++ x,
  r ++ (x ++ b'/' ∷ []),
  sym (append_assoc p x (b'/' ∷ [])),
  ap (λ t. t ++ (x ++ b'/' ∷ [])) extends ∙ append_assoc base r (x ++ b'/' ∷ []),
)

itself : (p x : Bytes) → IsBelow (below p x) (below p x)
itself p x = (p ++ x, [], sym (append_assoc p x (b'/' ∷ [])), sym (append-nil (below p x)))

record Nested (p : Prefixes) : Type 0 where
  svc : IsBelow p.svc p.svc
  loc : IsBelow p.svc p.loc × IsBelow p.loc p.loc
  dc : IsBelow p.svc p.dc × IsBelow p.loc p.dc × IsBelow p.dc p.dc
  name : IsBelow p.svc p.name × IsBelow p.loc p.name × IsBelow p.dc p.name × IsBelow p.name p.name

nested : (node : NodeSchema) (req : DiscoverRequest) → Nested (prefixes node req)
unfolding prefixes
nested node req =
    let top = under service_namespace (req.service ++ b'/' ∷ []) in
    let x = or_default req.location node.location in
    let y = or_default req.datacenter node.datacenter in
    let z = or_default req.node node.name in
    let at_svc : IsBelow top top = (
      under service_namespace req.service,
      [],
      sym (append_assoc (service_namespace ++ b'/' ∷ []) req.service (b'/' ∷ [])),
      sym (append-nil top),
    ) in
    let at_loc = deeper top top x at_svc in
    let at_dc = deeper top (below top x) y at_loc in
    record {
      svc = at_svc;
      loc = (at_loc, itself top x);
      dc = (at_dc, deeper (below top x) (below top x) y (itself top x), itself (below top x) y);
      name = (
        deeper top (below (below top x) y) z at_dc,
        deeper (below top x) (below (below top x) y) z
            (deeper (below top x) (below top x) y (itself top x)),
        deeper (below (below top x) y) (below (below top x) y) z (itself (below top x) y),
        itself (below (below top x) y) z,
      );
    }

-- Each level that the request leaves open lies below the scope.
record Levels (p : Prefixes) (location dc name : Option Bytes) (base : Bytes) : Type 0 where
  at_name : IsBelow base p.name
  at_dc : name ≡ none → IsBelow base p.dc
  at_loc : dc ≡ none → IsBelow base p.loc
  at_svc : location ≡ none → IsBelow base p.svc

levels :
    (p : Prefixes) (location dc name : Option Bytes)
    → Nested p
    → Levels p location dc name (scope p location dc name)
levels p none dc name n = record {
  at_name = n.name.0;
  at_dc = λ _. n.dc.0;
  at_loc = λ _. n.loc.0;
  at_svc = λ _. n.svc;
}
levels p (some l) none name n = record {
  at_name = n.name.1;
  at_dc = λ _. n.dc.1;
  at_loc = λ _. n.loc.1;
  at_svc = λ h. cc;
}
levels p (some l) (some d) none n = record {
  at_name = n.name.2;
  at_dc = λ _. n.dc.2;
  at_loc = λ h. cc;
  at_svc = λ h. cc;
}
levels p (some l) (some d) (some m) n = record {
  at_name = n.name.3;
  at_dc = λ h. cc;
  at_loc = λ h. cc;
  at_svc = λ h. cc;
}

module _ (e : Etcd) (ranges : RespectsRange e) (rt : Runtime) (iter : Iterates rt)
    (node : NodeSchema) (req : DiscoverRequest) where
  read :
      (s s' : e.Store) (svcs : Services)
      → req.instance' ≡ none
      → discover_map e rt node req s ≡ (ok svcs, s')
      → (first : Services) × ((get_services e (prefixes node req).name 3 s).0 ≡ ok first)
  unfolding discover_map first_query
  read s s' svcs open_instance eq =
      elim (Outcome-cases (get_services e (prefixes node req).name 3 s).0) [
        | inl found ↦ found
        | inr (inl (err, p)) ↦ ground arith
        | inr (inr p) ↦ ground arith
      ]

  from_first :
      (s s' : e.Store) (first svcs : Services) (base : Bytes)
      → req.instance' ≡ none
      → Levels (prefixes node req) req.location req.datacenter req.node base
      → (get_services e (prefixes node req).name 3 s).0 ≡ ok first
      → discover_map e rt node req s ≡ (ok svcs, s')
      → Within base svcs
        × (length svcs ≤ max_get_service_limit)
        × ((k : Bytes) → has_key k first ≡ true → has_key k svcs ≡ true)
  unfolding discover_map first_query
  from_first s s' first svcs base open_instance l got eq =
      let p = prefixes node req in
      let s1 = (get_services e p.name 3 s).1 in
      let (w0, b0) =
        get_services_lem e ranges base p.name 3 s s1 first l.at_name (omega arith) (ground arith) in
      let near = widen_lem e ranges rt iter base 0 req.node p.dc first s1 w0 b0 l.at_dc in
      let s2 = (widen e rt 0 req.node p.dc first s1).1 in
      let far =
        widen_lem e ranges rt iter base 1 req.datacenter p.loc near.result s2 near.within
          near.bounded l.at_loc in
      let s3 = (widen e rt 1 req.datacenter p.loc near.result s2).1 in
      let all =
        widen_lem e ranges rt iter base 2 req.location p.svc far.result s3 far.within far.bounded
          l.at_svc in
      let same : all.result ≡ svcs = ground (arith, near.returned, far.returned, all.returned) in
      (
        rw same at all.within,
        rw same at all.bounded,
        λ k h. rw (← same) (all.keeps k (far.keeps k (near.keeps k h))),
      )

  -- Range requests respect their bounds, and iterations visit each pair once. A discovery with no
  -- instance that succeeds has read the services of the named node, and returns a map of at most three
  -- services. The map keeps every key that was read for the node, and each of its keys has the
  -- narrowest prefix that the request names outright, which begins with the asked service.
  pub discover_map-scope :
      (s s' : e.Store) (svcs : Services)
      → req.instance' ≡ none
      → discover_map e rt node req s ≡ (ok svcs, s')
      → (first : Services) × ((get_services e (prefixes node req).name max_get_service_limit s).0
          ≡ ok first)
        × Within (scope (prefixes node req) req.location req.datacenter req.node) svcs
        × (length svcs ≤ max_get_service_limit)
        × ((k : Bytes) → has_key k first ≡ true → has_key k svcs ≡ true)
  discover_map-scope s s' svcs open_instance eq =
      let (first, got) = read s s' svcs open_instance eq in
      let l = levels (prefixes node req) req.location req.datacenter req.node (nested node req) in
      let (within, few, keeps) =
        from_first s s' first svcs (scope (prefixes node req) req.location req.datacenter req.node)
          open_instance l got eq in
      (first, got, within, few, keeps)

-- Two requests that differ only in the instance they name get the same answer: the key that is looked
-- up does not depend on the instance.
pub discover_map_any_instance :
    (e : Etcd) (rt : Runtime) (node : NodeSchema) (req : DiscoverRequest) (a b : Bytes)
    (s : e.Store)
    → discover_map e rt node (record req { instance' = some a }) s
      ≡ discover_map e rt node (record req { instance' = some b }) s
unfolding discover_map first_query prefixes
discover_map_any_instance e rt node req a b s = refl
