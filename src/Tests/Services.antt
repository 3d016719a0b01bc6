-- ===== src/Tests/Services.antt =====
-- Registering, resetting and discovering services on the server in memory.
use ssle_project.Prelude.{
  ◌≤◌, ◌≡◌, refl, true, ◌||◌, Option, none, some, List, [], ◌∷◌, Bytes, codes, equal, in_range,
  if◌then◌else◌, length,
}
use ssle_project.Handler.{ok}
use ssle_project.Schemas.{NodeSchema, ServiceSpec, RegisterServiceRequest, DiscoverRequest}
use ssle_project.Keys.{node_key, lease_key, service_key, dc_service_key, prefix_end}
use ssle_project.Registry.Auth.{
  authenticate_agent, authenticate_node, authenticate_node_from_certificate,
  extract_peer_certificate, extract_peer_datacenter_node, get_node_schema, decode_first,
}
use ssle_project.Registry.Lease.{get_node_lease, lease_round, lease_rounds}
use ssle_project.Registry.PeerApi.{add_node, implicit_of, node_of}
use ssle_project.Registry.Services.{register, service_spec, deregister, reset, keys_of}
use ssle_project.Registry.Services.Stored.{IsServed}
use ssle_project.Registry.Services.Laws.{Chosen, register-IsServed, deregister_exact, reset_clears}
use ssle_project.Registry.Discover.{
  Services, Runtime, prefixes, get_services, discover_map, first_query, widen, fill_services,
  max_get_service_limit,
}
use ssle_project.Registry.Discover.Maps.{has_key}
use ssle_project.Registry.Discover.Widening.{Within, Iterates}
use ssle_project.Registry.Discover.Laws.{scope, discover_map-scope}
use ssle_project.Tests.Memory.{
  Memory, memory, memory-IsHealthy, memory-RespectsRange, spec_RoundTrips, lease_RoundTrips,
}
use ssle_project.Tests.Nodes.{one_node, caller}

abbrev pub node : NodeSchema
node = record {
  name = codes "n1";
  datacenter = codes "dc01";
  location = codes "eu";
  type = codes "Agents";
}

-- A host name with no port gives itself.
abbrev pub same_host : Bytes → Option Bytes
same_host addr = some addr

abbrev pub shop : RegisterServiceRequest
shop = record {
  service = codes "shop";
  instance' = codes "a";
  addresses = [];
  ports = [];
  metrics_port = some 9100;
}

abbrev pub shop_spec : ServiceSpec
shop_spec = record {
  service_name = codes "shop";
  instance' = codes "a";
  location = codes "eu";
  datacenter = codes "dc01";
  node = codes "n1";
  addresses = codes "10.0.0.1:9" ∷ [];
  ports = [];
  metrics_port = some 9100;
}

abbrev pub serving : Memory
serving = (register memory same_host caller shop one_node).1

known : authenticate_agent memory caller one_node ≡ (ok node, one_node)
unfolding authenticate_agent authenticate_node authenticate_node_from_certificate
    extract_peer_certificate extract_peer_datacenter_node get_node_schema add_node implicit_of
    node_of node_key equal decode_first
known = refl

pub registered : register memory same_host caller shop one_node ≡ (ok shop_spec, serving)
unfolding register authenticate_agent authenticate_node authenticate_node_from_certificate
    extract_peer_certificate extract_peer_datacenter_node get_node_schema add_node implicit_of
    node_of node_key lease_key service_key dc_service_key equal decode_first get_node_lease
    lease_rounds lease_round
registered = refl

register-IsServed_example :
    (n : NodeSchema) × (addresses : List Bytes) × ((authenticate_agent memory caller one_node).0
      ≡ ok n)
    × Chosen same_host caller [] addresses
    × (shop_spec ≡ service_spec n shop addresses)
    × IsServed memory memory-IsHealthy n shop_spec serving
register-IsServed_example =
    register-IsServed memory memory-IsHealthy same_host caller shop shop_spec one_node serving
      spec_RoundTrips lease_RoundTrips registered

deregister_exact_example :
    ((deregister memory caller
        (record { service = codes "shop"; instance' = codes "a" })
        one_node).0
      ≡ ok tt)
    × (memory-IsHealthy.contents
          (deregister memory caller
            (record { service = codes "shop"; instance' = codes "a" })
            one_node).1
          (codes "nodes/dc01/n1")
        ≡ (if equal (keys_of node (codes "shop") (codes "a")).0 (codes "nodes/dc01/n1")
              || equal (keys_of node (codes "shop") (codes "a")).1 (codes "nodes/dc01/n1")
            then none
            else memory-IsHealthy.contents one_node (codes "nodes/dc01/n1")))
deregister_exact_example =
    deregister_exact memory memory-IsHealthy caller
      (record { service = codes "shop"; instance' = codes "a" }) node one_node
      (codes "nodes/dc01/n1") known

known_serving : authenticate_agent memory caller serving ≡ (ok node, serving)
unfolding register authenticate_agent authenticate_node authenticate_node_from_certificate
    extract_peer_certificate extract_peer_datacenter_node get_node_schema add_node implicit_of
    node_of node_key lease_key service_key dc_service_key equal decode_first get_node_lease
    lease_rounds lease_round
known_serving = refl

served : IsServed memory memory-IsHealthy node shop_spec serving
unfolding register authenticate_agent authenticate_node authenticate_node_from_certificate
    extract_peer_certificate extract_peer_datacenter_node get_node_schema add_node implicit_of
    node_of node_key lease_key service_key dc_service_key equal decode_first get_node_lease
    lease_rounds lease_round keys_of
served = record {
  lease = 7;
  leased = refl;
  at_service = (refl, refl);
  at_datacenter = (refl, refl);
}

reset_clears_example :
    ((reset memory caller serving).0 ≡ ok tt)
    × (memory-IsHealthy.contents
          (reset memory caller serving).1
          (keys_of node (codes "shop") (codes "a")).0
        ≡ none)
    × (memory-IsHealthy.contents
          (reset memory caller serving).1
          (keys_of node (codes "shop") (codes "a")).1
        ≡ none)
reset_clears_example =
    reset_clears memory memory-IsHealthy caller node shop_spec serving known_serving served refl

-- A runtime that visits the pairs in their order.
abbrev pub in_order : Runtime
in_order = record { order = λ n svcs. svcs; pointer = codes "0xc0001" }

pub in_order-Iterates : Iterates in_order
in_order-Iterates = record { length-order = λ n svcs. refl; has_key-order = λ n svcs k. refl }

abbrev shops : DiscoverRequest
shops = record {
  service = codes "shop";
  location = some (codes "eu");
  datacenter = none;
  node = none;
  instance' = none;
}

abbrev discovered : Services
discovered = (codes "svc/shop/eu/dc01/n1/a", shop_spec) ∷ []

found : discover_map memory in_order node shops serving ≡ (ok discovered, serving)
unfolding discover_map prefixes first_query get_services widen fill_services prefix_end in_range
    register authenticate_agent authenticate_node authenticate_node_from_certificate
    extract_peer_certificate extract_peer_datacenter_node get_node_schema add_node implicit_of
    node_of node_key lease_key service_key dc_service_key equal decode_first get_node_lease
    lease_rounds lease_round keys_of
found = refl

discover_map-scope_example :
    (first : Services) × ((get_services memory
        (prefixes node shops).name
        max_get_service_limit
        serving).0
      ≡ ok first)
    × Within (scope (prefixes node shops) (some (codes "eu")) none none) discovered
    × (length discovered ≤ max_get_service_limit)
    × ((k : Bytes) → has_key k first ≡ true → has_key k discovered ≡ true)
discover_map-scope_example =
    discover_map-scope memory memory-RespectsRange in_order in_order-Iterates node shops serving
      serving discovered refl found
