-- ===== src/Registry/Discover/Levels.antt =====
-- The prefixes of a discovery, each a prefix of the next, and of the keys of the services.
use mathlib.Core.List.{append_assoc}
use ssle_project.Prelude.{◌++◌, ◌≡◌, refl, sym, true, [], ◌∷◌, Bytes, has_prefix, arith}
use ssle_project.Schemas.{NodeSchema, DiscoverRequest}
use ssle_project.Keys.{under, service_namespace, service_key}
use ssle_project.Registry.Discover.{or_default, prefixes}

has_prefix_longer : (p k r : Bytes) → has_prefix p k ≡ true → has_prefix p (k ++ r) ≡ true
unfolding has_prefix
has_prefix_longer [] k r h = refl
has_prefix_longer (x ∷ p) [] r h = cc
has_prefix_longer (x ∷ p) (y ∷ k) r h = ground (arith, has_prefix_longer p k r)

has_prefix_shorter : (p r k : Bytes) → has_prefix (p ++ r) k ≡ true → has_prefix p k ≡ true
unfolding has_prefix
has_prefix_shorter [] r k h = refl
has_prefix_shorter (x ∷ p) r [] h = cc
has_prefix_shorter (x ∷ p) r (y ∷ k) h = ground (arith, has_prefix_shorter p r k)

has_prefix-under : (q x : Bytes) → has_prefix (q ++ b'/' ∷ []) (under q x) ≡ true
unfolding has_prefix
has_prefix-under [] x = refl
has_prefix-under (y ∷ q) x = ground (arith, has_prefix-under q x)

-- The key of a service has the prefix of its name.
pub has_prefix-service_key :
    (service location dc node instance' : Bytes)
    → has_prefix
        (under service_namespace service ++ b'/' ∷ [])
        (service_key service location dc node instance')
      ≡ true
unfolding service_key
has_prefix-service_key service location dc node instance' =
    let q = under service_namespace service in
    let p = q ++ b'/' ∷ [] in
    has_prefix_longer p (under (under (under q location) dc) node) (b'/' ∷ instance') (
      has_prefix_longer p (under (under q location) dc) (b'/' ∷ node)
        (has_prefix_longer p (under q location) (b'/' ∷ dc) (has_prefix-under q location)))

pub top_prefix :
    (node : NodeSchema) (req : DiscoverRequest)
    → (prefixes node req).svc ≡ under service_namespace req.service ++ b'/' ∷ []
unfolding prefixes
top_prefix node req = sym (append_assoc (service_namespace ++ b'/' ∷ []) req.service (b'/' ∷ []))

pub name_prefix :
    (node : NodeSchema) (req : DiscoverRequest)
    → (prefixes node req).name
      ≡ ((prefixes node req).dc ++ or_default req.node node.name) ++ b'/' ∷ []
unfolding prefixes
name_prefix node req =
    sym (append_assoc (prefixes node req).dc (or_default req.node node.name) (b'/' ∷ []))

pub has_prefix-name :
    (node : NodeSchema) (req : DiscoverRequest) (k : Bytes)
    → has_prefix (prefixes node req).name k ≡ true
    → has_prefix (prefixes node req).svc k ≡ true
unfolding prefixes
has_prefix-name node req k inside =
    let p = prefixes node req in
    has_prefix_shorter p.svc (or_default req.location node.location ++ b'/' ∷ []) k (
      has_prefix_shorter p.loc (or_default req.datacenter node.datacenter ++ b'/' ∷ []) k
        (has_prefix_shorter p.dc (or_default req.node node.name ++ b'/' ∷ []) k inside))
