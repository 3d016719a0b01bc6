-- ===== src/Registry.antt =====
-- The registry: authentication and leases of registry/utils/utils.go, the agent, node and observer
-- handlers of registry/agent_api, the handlers of registry/peer_api/peer_api.go, and the stored state of
-- registry/state/state.go.
pub mod Auth
pub mod Lease
pub mod Services
pub mod Discover
pub mod NodeApi
pub mod Observer
pub mod PeerApi
pub mod State
pub mod Catalog
pub mod Cluster
pub mod Uncertified
