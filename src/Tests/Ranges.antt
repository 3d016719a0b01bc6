-- ===== src/Tests/Ranges.antt =====
-- The ranges of the server in memory, and a discovery of a registered service there.
use mathlib.Core.Path.{subst}
use ssle_project.Prelude.{
  ℕ, zero, suc, ◌≤◌, ◌<◌, ◌≡◌, ◌∙◌, refl, sym, ap, Bool, true, false, ◌||◌, ◌⊎◌, inl, inr, Option,
  none, some, Option-cases, List, [], ◌∷◌, ◌++◌, Bytes, codes, Bool-cases, All, equal, equal_iff,
  has_prefix, in_range, take, length, arith,
}
use ssle_project.Handler.{ok}
use ssle_project.Schemas.{NodeSchema, ServiceSpec, DiscoverRequest}
use ssle_project.Etcd.{KeyValue, Entry, Contents, store_at}
use ssle_project.Keys.{node_key, lease_key, service_key, dc_service_key, under, service_namespace}
use ssle_project.Registry.Auth.{
  authenticate_agent, authenticate_node, authenticate_node_from_certificate,
  extract_peer_certificate, extract_peer_datacenter_node, get_node_schema, decode_first,
}
use ssle_project.Registry.Lease.{get_node_lease, lease_round, lease_rounds}
use ssle_project.Registry.PeerApi.{add_node, implicit_of, node_of}
use ssle_project.Registry.Services.{keys_of, register}
use ssle_project.Registry.Discover.{Services, discover_map}
use ssle_project.Registry.Discover.Maps.{has_key}
use ssle_project.Registry.Discover.Complete.{listed, Distinct, ListsRange, AllDecode}
use ssle_project.Registry.Discover.Found.{discover_map-register}
use ssle_project.Tests.Nodes.{one_node, caller}
use ssle_project.Tests.Services.{
  node, same_host, shop, shop_spec, serving, registered, in_order, in_order-Iterates,
}
use ssle_project.Tests.Memory.{
  Memory, memory, memory-IsHealthy, memory-RespectsRange, spec_RoundTrips, lease_RoundTrips,
  collect, range_to, some_inj, Value, spec_value, lease_value, node_value,
}

abbrev member : Bytes → List Bytes → Bool
member k [] = false
member k (j ∷ keys) = equal j k || member k keys

abbrev Unique : List Bytes → Type 0
Unique [] = Unit
Unique (k ∷ keys) = (member k keys ≡ false) × Unique keys

abbrev HeldIn : Contents Value → List (KeyValue Value) → Type 0
HeldIn c = All (λ kv. (entry : Entry Value) × (c kv.key ≡ some entry) × (kv.value ≡ entry.value))

module _ (c : Contents Value) (a b : Bytes) where
  listed-collect :
      (k : Bytes) (keys : List Bytes)
      → member k keys ≡ false
      → listed k (collect c a b keys) ≡ false
  listed-collect k [] h = refl
  listed-collect k (j ∷ keys) h = elim (Option-cases (c j)) [
    | inl absent ↦ ground (arith, listed-collect k keys)
    | inr (entry, there) ↦ ground (arith, listed-collect k keys)
  ]

  collect-Distinct : (keys : List Bytes) → Unique keys → Distinct (collect c a b keys)
  collect-Distinct [] h = tt
  collect-Distinct (j ∷ keys) h = elim (Bool-cases (in_range a b j)) [
    | inr outside ↦ rw outside (collect-Distinct keys h.1)
    | inl inside ↦ elim (Option-cases (c j)) [
      | inl absent ↦ rw inside (rw absent (collect-Distinct keys h.1))
      | inr (entry, there) ↦
          rw inside (rw there (listed-collect j keys h.0, collect-Distinct keys h.1))
    ]
  ]

  collect-HeldIn : (keys : List Bytes) → HeldIn c (collect c a b keys)
  collect-HeldIn [] = tt
  collect-HeldIn (j ∷ keys) = elim (Bool-cases (in_range a b j)) [
    | inr outside ↦ rw outside (collect-HeldIn keys)
    | inl inside ↦ elim (Option-cases (c j)) [
      | inl absent ↦ rw inside (rw absent (collect-HeldIn keys))
      | inr (entry, there) ↦
          let done : collect c a b (j ∷ keys)
              ≡ (record { key = j; value = entry.value; version = entry.version })
                ∷ collect c a b keys =
            ground arith in
          subst (HeldIn c) (sym done) ((entry, there, refl), collect-HeldIn keys)
    ]
  ]

  collect_complete :
      (k : Bytes) (entry : Entry Value) (keys : List Bytes)
      → c k ≡ some entry
      → in_range a b k ≡ true
      → member k keys ≡ true
      → listed k (collect c a b keys) ≡ true
  collect_complete k entry [] there inside h = cc
  collect_complete k entry (j ∷ keys) there inside h = elim (Option-cases (c j)) [
    | inl absent ↦ ground (arith, collect_complete k entry keys, equal_iff j k)
    | inr (other, found) ↦ ground (arith, collect_complete k entry keys, equal_iff j k)
  ]

listed-take :
    (k : Bytes) (n : ℕ) (kvs : List (KeyValue Value))
    → listed k kvs ≡ false
    → listed k (take n kvs) ≡ false
listed-take k zero kvs h = refl
listed-take k (suc n) [] h = refl
listed-take k (suc n) (kv ∷ kvs) h = ground (arith, listed-take k n kvs)

take-Distinct : (n : ℕ) (kvs : List (KeyValue Value)) → Distinct kvs → Distinct (take n kvs)
take-Distinct zero kvs h = tt
take-Distinct (suc n) [] h = tt
take-Distinct (suc n) (kv ∷ kvs) h = (listed-take kv.key n kvs h.0, take-Distinct n kvs h.1)

take-HeldIn :
    (c : Contents Value) (n : ℕ) (kvs : List (KeyValue Value))
    → HeldIn c kvs
    → HeldIn c (take n kvs)
take-HeldIn c zero kvs h = tt
take-HeldIn c (suc n) [] h = tt
take-HeldIn c (suc n) (kv ∷ kvs) h = (h.0, take-HeldIn c n kvs h.1)

take_all : (n : ℕ) (kvs : List (KeyValue Value)) → length (take n kvs) < n → take n kvs ≡ kvs
take_all zero kvs h = absurd (omega arith)
take_all (suc n) [] h = refl
take_all (suc n) (kv ∷ kvs) h = ap (◌∷◌ kv) (take_all n kvs (omega arith))

module _ (s : Memory) where
  abbrev Full : Type 0
  Full = (k : Bytes) (entry : Entry Value) → s.contents k ≡ some entry → member k s.keys ≡ true

  range_to-HeldIn :
      (key : Bytes) (range_end : Option Bytes) (limit : ℕ)
      → HeldIn s.contents (range_to key range_end limit s)
  range_to-HeldIn key none limit = elim (Option-cases (s.contents key)) [
    | inl absent ↦ rw absent tt
    | inr (entry, there) ↦
        let done : range_to key none limit s
            ≡ (record { key = key; value = entry.value; version = entry.version }) ∷ [] =
          ground arith in
        subst (HeldIn s.contents) (sym done) ((entry, there, refl), tt)
  ]
  range_to-HeldIn key (some b) zero = collect-HeldIn s.contents key b s.keys
  range_to-HeldIn key (some b) (suc n) =
      take-HeldIn s.contents (suc n) (collect s.contents key b s.keys)
        (collect-HeldIn s.contents key b s.keys)

  range_to-Distinct :
      (key : Bytes) (range_end : Option Bytes) (limit : ℕ)
      → Unique s.keys
      → Distinct (range_to key range_end limit s)
  range_to-Distinct key none limit unique = elim (Option-cases (s.contents key)) [
    | inl absent ↦ rw absent tt
    | inr (entry, there) ↦ rw there (refl, tt)
  ]
  range_to-Distinct key (some b) zero unique = collect-Distinct s.contents key b s.keys unique
  range_to-Distinct key (some b) (suc n) unique =
      take-Distinct (suc n) (collect s.contents key b s.keys)
        (collect-Distinct s.contents key b s.keys unique)

  range_to_complete :
      (key b k : Bytes) (limit : ℕ) (entry : Entry Value)
      → Full
      → in_range key b k ≡ true
      → s.contents k ≡ some entry
      → length (range_to key (some b) limit s) < limit
      → listed k (range_to key (some b) limit s) ≡ true
  range_to_complete key b k zero entry full inside there few = absurd (omega arith)
  range_to_complete key b k (suc n) entry full inside there few =
      subst (λ kvs. listed k kvs ≡ true)
        (sym (take_all (suc n) (collect s.contents key b s.keys) few))
        (collect_complete s.contents key b k entry s.keys there inside (full k entry there))

  memory-ListsRange : Unique s.keys → Full → ListsRange memory memory-IsHealthy s
  memory-ListsRange unique full = record {
    answers = λ r. (range_to r.key r.range_end r.limit s, refl);
    stored = λ r kvs h.
        subst (HeldIn s.contents) (some_inj h) (range_to-HeldIn r.key r.range_end r.limit);
    distinct =
        λ r kvs h. subst Distinct (some_inj h) (range_to-Distinct r.key r.range_end r.limit unique);
    complete = λ r b kvs k entry e h inside there few.
        let done : range_to r.key (some b) r.limit s ≡ kvs =
          ap (λ x. range_to r.key x r.limit s) (sym e) ∙ some_inj h in
        subst (λ m. listed k m ≡ true) done
          (range_to_complete r.key b k r.limit entry full inside there
            (subst (λ m. length m < r.limit) (sym done) few));
  }

-- Four pairs: two of a service, and two of other values.
module _ (a b c d : Bytes) (spec : ServiceSpec) (x y : Value) where
  abbrev entry_of : Value → ℕ → ℕ → Entry Value
  entry_of value lease index = record {
    value = value;
    lease = lease;
    version = 1;
    create_index = index;
  }

  abbrev four : Contents Value
  four = store_at a (some (entry_of (spec_value spec) 7 4)) (
      store_at b (some (entry_of (spec_value spec) 7 4))
        (store_at c (some (entry_of x 0 3)) (store_at d (some (entry_of y 0 2)) (λ j. none))))

  four-member :
      (k : Bytes) (entry : Entry Value) → four k ≡ some entry → member k (b ∷ a ∷ c ∷ d ∷ []) ≡ true
  four-member k entry there = ground arith

  four_decodes :
      (p k : Bytes) (entry : Entry Value)
      → has_prefix p c ≡ false
      → has_prefix p d ≡ false
      → has_prefix p k ≡ true
      → four k ≡ some entry
      → memory.spec_json.unmarshal entry.value ≡ some spec
  four_decodes p k entry off_c off_d inside there = ground (arith, equal_iff c k, equal_iff d k)

abbrev service_at : Bytes
service_at = codes "svc/shop/eu/dc01/n1/a"

abbrev datacenter_at : Bytes
datacenter_at = codes "dcsvc/dc01/n1/shop/a"

abbrev lease_at : Bytes
lease_at = codes "node_lease/dc01/n1"

abbrev node_at : Bytes
node_at = codes "nodes/dc01/n1"

abbrev serving_four : Contents Value
serving_four =
    four datacenter_at service_at lease_at node_at shop_spec (lease_value 7) (node_value node)

serving_contents : (k : Bytes) → serving.contents k ≡ serving_four k
unfolding register authenticate_agent authenticate_node authenticate_node_from_certificate
    extract_peer_certificate extract_peer_datacenter_node get_node_schema add_node implicit_of
    node_of node_key lease_key service_key dc_service_key equal decode_first get_node_lease
    lease_rounds lease_round
serving_contents k = refl

serving_keys : serving.keys ≡ service_at ∷ datacenter_at ∷ lease_at ∷ node_at ∷ []
unfolding register authenticate_agent authenticate_node authenticate_node_from_certificate
    extract_peer_certificate extract_peer_datacenter_node get_node_schema add_node implicit_of
    node_of node_key lease_key service_key dc_service_key equal decode_first get_node_lease
    lease_rounds lease_round
serving_keys = refl

serving-Unique : Unique serving.keys
unfolding register authenticate_agent authenticate_node authenticate_node_from_certificate
    extract_peer_certificate extract_peer_datacenter_node get_node_schema add_node implicit_of
    node_of node_key lease_key service_key dc_service_key equal decode_first get_node_lease
    lease_rounds lease_round
serving-Unique = (refl, (refl, (refl, (refl, tt))))

serving-Full : Full serving
serving-Full k entry there =
    subst (λ keys. member k keys ≡ true) (sym serving_keys)
      (four-member datacenter_at service_at lease_at node_at shop_spec (lease_value 7)
        (node_value node) k entry (sym (serving_contents k) ∙ there))

abbrev shop_prefix : Bytes
shop_prefix = under service_namespace (codes "shop") ++ b'/' ∷ []

serving-AllDecode : AllDecode memory memory-IsHealthy serving shop_prefix
unfolding has_prefix
serving-AllDecode k entry there inside bad =
    let decodes : memory.spec_json.unmarshal entry.value ≡ some shop_spec =
      four_decodes datacenter_at service_at lease_at node_at shop_spec (lease_value 7)
        (node_value node) shop_prefix k entry refl refl inside (sym (serving_contents k) ∙ there) in
    cc

abbrev anywhere : DiscoverRequest
anywhere = record {
  service = codes "shop";
  location = none;
  datacenter = none;
  node = none;
  instance' = none;
}

discover_map-register_example :
    (n : NodeSchema) × (svcs : Services) × ((authenticate_agent memory caller one_node).0 ≡ ok n)
    × (discover_map memory in_order node anywhere serving ≡ (ok svcs, serving))
    × ((3 ≤ length svcs) ⊎ (has_key (keys_of n (codes "shop") (codes "a")).0 svcs ≡ true))
discover_map-register_example =
    discover_map-register memory memory-IsHealthy memory-RespectsRange in_order in_order-Iterates
      same_host caller shop shop_spec node anywhere one_node serving spec_RoundTrips
      lease_RoundTrips registered refl refl refl
      (memory-ListsRange serving serving-Unique serving-Full) serving-AllDecode
