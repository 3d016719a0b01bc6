-- ===== src/Keys.antt =====
-- The key layout of the etcd store: the namespaces and `PrefixEnd` of registry/utils/utils.go, and
-- the keys that the handlers print with `fmt.Appendf`.
pub mod Range
pub mod Parts
pub mod Apart
use mathlib.Core.List.{reverse}
use ssle_project.Prelude.{
  ℕ, ◌+◌, Bool, List, [], ◌∷◌, ◌++◌, map, Bytes, codes, ltb, ◌==◌, if◌then◌else◌,
}

abbrev pub service_namespace : Bytes
service_namespace = codes "svc"

abbrev pub dc_services_namespace : Bytes
dc_services_namespace = codes "dcsvc"

abbrev pub nodes_namespace : Bytes
nodes_namespace = codes "nodes"

abbrev pub nodes_leases_namespace : Bytes
nodes_leases_namespace = codes "node_lease"

abbrev pub peer_agent_api_namespace : Bytes
peer_agent_api_namespace = codes "peer_agent_api"

-- `fmt.Appendf(key, "/%s", part)`
abbrev pub under : Bytes → Bytes → Bytes
under key part = key ++ (b'/' ∷ part)

-- `fmt.Appendf(key, "%s/", part)`, for a key that ends in a slash.
abbrev pub below : Bytes → Bytes → Bytes
below key part = key ++ (part ++ (b'/' ∷ []))

unfoldable pub node_key : Bytes → Bytes → Bytes
node_key dc name = under (under nodes_namespace dc) name

unfoldable pub lease_key : Bytes → Bytes → Bytes
lease_key dc name = under (under nodes_leases_namespace dc) name

unfoldable pub service_key : Bytes → Bytes → Bytes → Bytes → Bytes → Bytes
service_key service location dc node instance' =
    under (under (under (under (under service_namespace service) location) dc) node) instance'

unfoldable pub dc_service_key : Bytes → Bytes → Bytes → Bytes → Bytes
dc_service_key dc node service instance' =
    under (under (under (under dc_services_namespace dc) node) service) instance'

-- The loop of `PrefixEnd`, over the bytes from the last to the first.
unfoldable pub bump : Bytes → Bytes
bump [] = []
bump (v ∷ rest) = if ltb v 0xff then (v + 1) ∷ rest else v ∷ bump rest

unfoldable pub prefix_end : Bytes → Bytes
unfolding bump
prefix_end prefix = reverse (bump (reverse prefix))

-- `bytes.Split(key, sep)` and `strings.Split`, for a separator of one byte.
unfoldable pub push_byte : ℕ → List Bytes → List Bytes
push_byte c [] = (c ∷ []) ∷ []
push_byte c (part ∷ parts) = (c ∷ part) ∷ parts

unfoldable pub split : ℕ → Bytes → List Bytes
unfolding push_byte
split sep [] = [] ∷ []
split sep (c ∷ key) = let rest = split sep key in if c == sep then [] ∷ rest else push_byte c rest
