-- ===== src/Tests/Listings.antt =====
-- A run of agent calls on the server in memory, and the listing that it shows.
use ssle_project.Prelude.{
  refl, Option, none, some, List, [], ◌∷◌, All, Bytes, codes, equal, arith, Bool-cases, inl, inr,
}
use ssle_project.Schemas.{NodeSchema, RegisterServiceRequest}
use ssle_project.Keys.{node_key, service_key, dc_service_key}
use ssle_project.Registry.PeerApi.{add_node, implicit_of, node_of}
use ssle_project.Registry.Auth.Laws.{Stores}
use ssle_project.Registry.Catalog.{
  Listing, AgentCall, registration, deregistration, IsCall, handle_calls, listed_after_all, Shows,
  IsNode,
}
use ssle_project.Registry.Catalog.Laws.{handle_calls-Shows}
use ssle_project.Tests.Memory.{memory, memory-IsHealthy, spec_RoundTrips}
use ssle_project.Tests.Nodes.{one_node, caller}

abbrev host : Bytes → Option Bytes
host addr = some addr

abbrev locate : Bytes → Bytes → Bytes
locate dc name = codes "eu"

abbrev nothing : Listing
nothing p = none

abbrev shop : RegisterServiceRequest
shop = record {
  service = codes "shop";
  instance' = codes "a";
  addresses = [];
  ports = [];
  metrics_port = none;
}

abbrev calls : List AgentCall
calls =
    registration caller shop
    ∷ registration caller (record shop { instance' = codes "b" })
    ∷ deregistration caller (record { service = codes "shop"; instance' = codes "a" })
    ∷ []

calls-IsCall : All IsCall calls
calls-IsCall = ground arith

stored-IsNode :
    (dc name : Bytes) (node : NodeSchema)
    → Stores memory (one_node.contents (node_key dc name)) node
    → IsNode memory memory-IsHealthy locate node
unfolding add_node implicit_of node_of
stored-IsNode dc name node st =
    elim (Bool-cases (equal (node_key (codes "dc01") (codes "n1")) (node_key dc name))) [
      | inl same ↦ ground arith
      | inr other ↦ ground arith
    ]

fresh-Shows : Shows memory memory-IsHealthy locate nothing one_node
unfolding add_node implicit_of node_of node_key service_key dc_service_key equal
fresh-Shows = record {
  nodes = stored-IsNode;
  at_service = λ p q. refl;
  at_datacenter = λ p q. refl;
}

handle_calls-Shows_example :
    Shows memory memory-IsHealthy locate
      (listed_after_all memory host calls one_node nothing)
      (handle_calls memory host calls one_node)
handle_calls-Shows_example =
    handle_calls-Shows memory memory-IsHealthy locate spec_RoundTrips host calls nothing one_node
      calls-IsCall fresh-Shows
