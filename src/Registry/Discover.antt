-- ===== src/Registry/Discover.antt =====
-- `Discover` of registry/agent_api/discover.go.
pub mod Widening
pub mod Laws
pub mod Maps
pub mod Complete
pub mod Levels
pub mod Found
use ssle_project.Prelude.{
  ℕ, Bool, true, false, ◌&&◌, Option, none, some, List, [], ◌∷◌, ◌++◌, map, length, Bytes, equal,
  ltb, leb, if◌then◌else◌,
}
use ssle_project.Handler.{
  raw, Outcome, ok, fail, Handler, pure, lift, or_fail, unwrap, catch_error, ◌>>=◌,
}
use ssle_project.Schemas.{NodeSchema, ServiceSpec, DiscoverRequest}
use ssle_project.Keys.{service_namespace, under, below, prefix_end}
use ssle_project.Etcd.{Etcd, KeyValue}
use ssle_project.Registry.Auth.{PeerInfo, authenticate_agent}

abbrev pub max_get_service_limit : ℕ
max_get_service_limit = 3

-- A Go map from the keys of the store to services.
abbrev pub Services : Type 0
Services = List (Bytes × ServiceSpec)

-- `svcs[k] = v`
unfoldable pub assign : Bytes → ServiceSpec → Services → Services
assign k v [] = (k, v) ∷ []
assign k v ((j, w) ∷ svcs) = if equal j k then (k, v) ∷ svcs else (j, w) ∷ assign k v svcs

-- What the Go runtime chooses: the order of each iteration over a map, and the text that `fmt` prints
-- for the pointer to the instance of a request.
pub record Runtime : Type 0 where
  pub order : ℕ → Services → Services
  pub pointer : Bytes

-- The loop of `fillServices`, over the pairs in the order of the iteration.
unfoldable pub fill : Services → Services → Services
unfolding assign
fill [] svcs = svcs
fill ((k, v) ∷ extra) svcs =
    let rest = fill extra (assign k v svcs) in
    if leb max_get_service_limit (length svcs) then svcs else rest

-- The prefixes, from the widest to the narrowest.
pub record Prefixes : Type 0 where
  pub svc : Bytes
  pub loc : Bytes
  pub dc : Bytes
  pub name : Bytes

abbrev pub or_default : Option Bytes → Bytes → Bytes
or_default none d = d
or_default (some v) d = v

unfoldable pub prefixes : NodeSchema → DiscoverRequest → Prefixes
prefixes node req =
    let svc_prefix = under service_namespace (req.service ++ b'/' ∷ []) in
    let loc_prefix = below svc_prefix (or_default req.location node.location) in
    let dc_prefix = below loc_prefix (or_default req.datacenter node.datacenter) in
    let name_prefix = below dc_prefix (or_default req.node node.name) in
    record { svc = svc_prefix; loc = loc_prefix; dc = dc_prefix; name = name_prefix }

is_nil : Option Bytes → Bool
is_nil none = true
is_nil (some _) = false

-- The response lists the values of the map.
unfoldable pub values : Services → List ServiceSpec
values = map (λ kv. kv.1)

-- An error of the read leaves the map as it was.
filled : Runtime → ℕ → Services → Option Services → Services
unfolding fill
filled rt n svcs none = svcs
filled rt n svcs (some extra) = fill (rt.order n extra) svcs

module _ (e : Etcd) where
  decode_services : List (KeyValue e.Wire) → Services → Option Services
  unfolding assign
  decode_services [] svcs = some svcs
  decode_services (kv ∷ kvs) svcs = elim (e.spec_json.unmarshal kv.value) [
    | none ↦ none
    | some spec ↦ decode_services kvs (assign kv.key spec svcs)
  ]

  -- `getServiceInternal`
  unfoldable pub get_services : Bytes → ℕ → Handler e.Store Services
  unfolding decode_services
  get_services prefix limit = do
    kvs ←
        or_fail raw
          (e.range (record { key = prefix; range_end = some (prefix_end prefix); limit = limit }))
    lift (unwrap raw (decode_services kvs []))

  module _ (rt : Runtime) where
    -- `fillServices`; `n` is the number of the iteration.
    unfoldable pub fill_services : ℕ → Bytes → Services → Handler e.Store Services
    unfolding filled
    fill_services n prefix svcs = do
      extra ← catch_error (get_services prefix max_get_service_limit)
      pure (filled rt n svcs extra)

    -- One step of the widening, if there is room and the request leaves this level open.
    unfoldable pub widen : ℕ → Option Bytes → Bytes → Services → Handler e.Store Services
    unfolding is_nil
    widen n asked prefix svcs =
        if ltb (length svcs) max_get_service_limit && is_nil asked
        then fill_services n prefix svcs
        else pure svcs

    -- The first query: by the printed pointer of the instance, or by the node.
    unfoldable pub first_query : Bytes → Option Bytes → Handler e.Store Services
    first_query name_prefix none = get_services name_prefix max_get_service_limit
    first_query name_prefix (some instance') = get_services (name_prefix ++ rt.pointer) 1

    unfoldable pub discover_map : NodeSchema → DiscoverRequest → Handler e.Store Services
    discover_map node req = do
      let p = prefixes node req
      svcs ← first_query p.name req.instance'
      near ← widen 0 req.node p.dc svcs
      far ← widen 1 req.datacenter p.loc near
      widen 2 req.location p.svc far

    unfoldable pub discover : PeerInfo → DiscoverRequest → Handler e.Store (List ServiceSpec)
    unfolding values
    discover ctx req = do
      node ← authenticate_agent e ctx
      svcs ← discover_map node req
      pure (values (rt.order 3 svcs))
