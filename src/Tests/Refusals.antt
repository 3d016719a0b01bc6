-- ===== src/Tests/Refusals.antt =====
-- The calls of a peer that shows no certificate, on the server in memory.
use ssle_project.Prelude.{none, codes}
use ssle_project.Schemas.{DeregisterServiceRequest, DiscoverRequest}
use ssle_project.Registry.Auth.{PeerInfo, other_credentials}

abbrev insecure : PeerInfo
insecure = other_credentials (codes "insecure")

abbrev shop_instance : DeregisterServiceRequest
shop_instance = record { service = codes "shop"; instance' = codes "a" }

abbrev shops : DiscoverRequest
shops = record {
  service = codes "shop";
  location = none;
  datacenter = none;
  node = none;
  instance' = none;
}
