-- ===== src/Registry/Catalog.antt =====
-- What the agent API promises of its store: a listing of services by place. `Register` inserts and
-- `Deregister` erases, as `Register` of registry/agent_api/register.go and `Deregister` of
-- registry/agent_api/delete.go do in the two indexes of the store.
pub mod Places
pub mod Steps
pub mod Laws
use ssle_project.Prelude.{
  ◌≡◌, Bool, ◌&&◌, Option, none, some, List, [], ◌∷◌, Bytes, equal, if◌then◌else◌,
}
use ssle_project.Handler.{Outcome, ok, fail, panic}
use ssle_project.Schemas.{NodeSchema, ServiceSpec, RegisterServiceRequest, DeregisterServiceRequest}
use ssle_project.Keys.{node_key, service_key, dc_service_key}
use ssle_project.Keys.Parts.{IsPart}
use ssle_project.Etcd.{Etcd, IsHealthy, Entry}
use ssle_project.Registry.Auth.{PeerInfo, authenticate_agent}
use ssle_project.Registry.Auth.Laws.{Stores}
use ssle_project.Registry.Services.{register, deregister}

-- An instance of a service on a node of a datacenter.
pub record Place : Type 0 where
  pub datacenter : Bytes
  pub node : Bytes
  pub service : Bytes
  pub instance' : Bytes

unfoldable pub same_place : Place → Place → Bool
same_place p q =
    equal p.datacenter q.datacenter
    && (equal p.node q.node && (equal p.service q.service && equal p.instance' q.instance'))

abbrev pub place_of : NodeSchema → Bytes → Bytes → Place
place_of node service instance' = record {
  datacenter = node.datacenter;
  node = node.name;
  service = service;
  instance' = instance';
}

abbrev pub place_of_spec : ServiceSpec → Place
place_of_spec spec = record {
  datacenter = spec.datacenter;
  node = spec.node;
  service = spec.service_name;
  instance' = spec.instance';
}

-- What is offered at each place.
abbrev pub Listing : Type 0
Listing = Place → Option ServiceSpec

unfoldable pub insert : ServiceSpec → Listing → Listing
insert spec d p = if same_place (place_of_spec spec) p then some spec else d p

unfoldable pub erase : Place → Listing → Listing
erase q d p = if same_place q p then none else d p

-- Only a call that succeeds has an effect.
unfoldable pub registered : Outcome ServiceSpec → Listing → Listing
unfolding insert
registered (ok spec) d = insert spec d
registered (fail err) d = d
registered panic d = d

unfoldable pub deregistered : Outcome NodeSchema → DeregisterServiceRequest → Listing → Listing
unfolding erase
deregistered (ok node) req d = erase (place_of node req.service req.instance') d
deregistered (fail err) req d = d
deregistered panic req d = d

-- The calls of agents.
pub data AgentCall : Type 0 where
  registration : PeerInfo → RegisterServiceRequest → AgentCall
  deregistration : PeerInfo → DeregisterServiceRequest → AgentCall

abbrev pub IsCall : AgentCall → Type 0
IsCall (registration ctx req) = IsPart req.service × IsPart req.instance'
IsCall (deregistration ctx req) = IsPart req.service × IsPart req.instance'

module _ (e : Etcd) (split_host_port : Bytes → Option Bytes) where
  unfoldable pub handle_call : AgentCall → e.Store → e.Store
  handle_call (registration ctx req) s = (register e split_host_port ctx req s).1
  handle_call (deregistration ctx req) s = (deregister e ctx req s).1

  -- What the call does to a listing, by its outcome.
  unfoldable pub listed_after : AgentCall → e.Store → Listing → Listing
  unfolding registered deregistered
  listed_after (registration ctx req) s d = registered (register e split_host_port ctx req s).0 d
  listed_after (deregistration ctx req) s d = deregistered (authenticate_agent e ctx s).0 req d

  unfoldable pub handle_calls : List AgentCall → e.Store → e.Store
  unfolding handle_call
  handle_calls [] s = s
  handle_calls (call ∷ calls) s = handle_calls calls (handle_call call s)

  unfoldable pub listed_after_all : List AgentCall → e.Store → Listing → Listing
  unfolding listed_after handle_call
  listed_after_all [] s d = d
  listed_after_all (call ∷ calls) s d =
      listed_after_all calls (handle_call call s) (listed_after call s d)

-- `locate` is the location of a node.
module _ (e : Etcd) (h : IsHealthy e) (locate : Bytes → Bytes → Bytes) where
  open h use {contents}

  abbrev pub offered : Option (Entry e.Wire) → Option ServiceSpec
  offered none = none
  offered (some entry) = e.spec_json.unmarshal entry.value

  abbrev pub IsNode : NodeSchema → Type 0
  IsNode node =
      IsPart node.datacenter
      × IsPart node.name
      × IsPart node.location
      × (node.location ≡ locate node.datacenter node.name)

  abbrev pub IsPlace : Place → Type 0
  IsPlace p =
      IsPart p.datacenter
      × IsPart p.node
      × IsPart p.service
      × IsPart p.instance'
      × IsPart (locate p.datacenter p.node)

  abbrev pub by_service : Place → Bytes
  by_service p = service_key p.service (locate p.datacenter p.node) p.datacenter p.node p.instance'

  abbrev pub by_datacenter : Place → Bytes
  by_datacenter p = dc_service_key p.datacenter p.node p.service p.instance'

  -- Both indexes of the store hold the listing, and its nodes have names that fit in a key.
  pub record Shows (d : Listing) (s : e.Store) : Type 0 where
    pub nodes :
        (dc name : Bytes) (node : NodeSchema)
        → Stores e (contents s (node_key dc name)) node
        → IsNode node
    pub at_service : (p : Place) → IsPlace p → offered (contents s (by_service p)) ≡ d p
    pub at_datacenter : (p : Place) → IsPlace p → offered (contents s (by_datacenter p)) ≡ d p
