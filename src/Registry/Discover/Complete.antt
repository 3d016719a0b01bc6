-- ===== src/Registry/Discover/Complete.antt =====
-- What a discovery finds if there is room left in its answer.
use ssle_project.Prelude.{
  ◌++◌, ◌∙◌, has_prefix, in_range, All, ◌+◌, ◌≤◌, ◌<◌, ◌≡◌, ◌≢◌, refl, sym, Bool, true, false, ◌||◌,
  inl, inr, none, some, Option-cases, List, [], ◌∷◌, length, Bytes, equal, equal_iff, equal_refl,
  arith, if◌then◌else◌,
}
use ssle_project.Etcd.{Etcd, KeyValue, RangeRequest, IsHealthy, Entry}
use ssle_project.Keys.{prefix_end}
use ssle_project.Keys.Range.{prefix_end-exact}
use ssle_project.Handler.{ok}
use ssle_project.Registry.Discover.Widening.{RespectsRange}
use ssle_project.Registry.Discover.{Services, assign, decode_services, get_services}
use ssle_project.Registry.Discover.Maps.{has_key, has_key-assign}

erase : Bytes → Services → Services
erase k [] = []
erase k ((j, v) ∷ svcs) = let rest = erase k svcs in if equal j k then svcs else (j, v) ∷ rest

has_key-erase :
    (j k : Bytes) (svcs : Services) → equal k j ≡ false → has_key j (erase k svcs) ≡ has_key j svcs
unfolding erase
has_key-erase j k [] ne = refl
has_key-erase j k ((i, v) ∷ svcs) ne =
    ground (arith, has_key-erase j k svcs ne, equal_iff i k, equal_iff i j, equal_iff k j)

length-erase :
    (k : Bytes) (svcs : Services) → has_key k svcs ≡ true → length (erase k svcs) + 1 ≡ length svcs
unfolding erase
length-erase k [] h = cc
length-erase k ((i, v) ∷ svcs) h = ground (arith, length-erase k svcs)

abbrev pub listed : {W : Type 0} → Bytes → List (KeyValue W) → Bool
listed k [] = false
listed k (kv ∷ kvs) = equal kv.key k || listed k kvs

-- No key is listed twice.
abbrev pub Distinct : {W : Type 0} → List (KeyValue W) → Type 0
Distinct [] = Unit
Distinct (kv ∷ kvs) = (listed kv.key kvs ≡ false) × Distinct kvs

-- A map that has all the keys of a list has no fewer of them.
pub length-le :
    {W : Type 0} (kvs : List (KeyValue W)) (svcs : Services)
    → Distinct kvs
    → ((k : Bytes) → listed k kvs ≡ true → has_key k svcs ≡ true)
    → length kvs ≤ length svcs
length-le [] svcs apart sub = omega arith
length-le (kv ∷ kvs) svcs apart sub =
    let here : has_key kv.key svcs ≡ true = sub kv.key (ground (arith, equal_refl kv.key)) in
    let rest =
      length-le kvs (erase kv.key svcs) apart.1
        (λ j h. ground (arith, has_key-erase j kv.key svcs, sub j, equal_iff kv.key j, apart.0)) in
    omega (arith, length-erase kv.key svcs here, rest)

-- What etcd documents of the range requests that are answered in a state of the server: they change
-- nothing, and list what is stored, no key twice, and every key of the range if they list fewer than
-- the limit.
pub record ListsRange (e : Etcd) (h : IsHealthy e) (s : e.Store) : Type 0 where
  pub answers : (r : RangeRequest) → (kvs : List (KeyValue e.Wire)) × (e.range r s ≡ (some kvs, s))
  pub stored :
      (r : RangeRequest) (kvs : List (KeyValue e.Wire))
      → (e.range r s).0 ≡ some kvs
      → All
          (λ kv.
            (entry : Entry e.Wire) × (h.contents s kv.key ≡ some entry) × (kv.value ≡ entry.value))
          kvs
  pub distinct :
      (r : RangeRequest) (kvs : List (KeyValue e.Wire)) → (e.range r s).0 ≡ some kvs → Distinct kvs
  pub complete :
      (r : RangeRequest) (range_end : Bytes) (kvs : List (KeyValue e.Wire)) (k : Bytes)
      (entry : Entry e.Wire)
      → r.range_end ≡ some range_end
      → (e.range r s).0 ≡ some kvs
      → in_range r.key range_end k ≡ true
      → h.contents s k ≡ some entry
      → length kvs < r.limit
      → listed k kvs ≡ true

module _ (e : Etcd) (h : IsHealthy e) (s : e.Store) where
  -- Everything that is stored under a prefix is the JSON of a service.
  abbrev pub AllDecode : Bytes → Type 0
  AllDecode prefix =
      (k : Bytes) (entry : Entry e.Wire)
      → h.contents s k ≡ some entry
      → has_prefix prefix k ≡ true
      → e.spec_json.unmarshal entry.value ≢ none

module _ (e : Etcd) (h : IsHealthy e) (ranges : RespectsRange e) (s : e.Store)
    (lists : ListsRange e h s) where
  open h use {contents}

  abbrev Decodes : List (KeyValue e.Wire) → Type 0
  Decodes = All (λ kv. e.spec_json.unmarshal kv.value ≢ none)

  stored-Decodes :
      (q : Bytes) (kvs : List (KeyValue e.Wire))
      → (let prefix = q ++ b'/' ∷ [] in
          AllDecode e h s prefix
          → All (λ kv. in_range prefix (prefix_end prefix) kv.key ≡ true) kvs
          → All
              (λ kv.
                (entry : Entry e.Wire) × (contents s kv.key ≡ some entry)
                × (kv.value ≡ entry.value))
              kvs
          → Decodes kvs)
  stored-Decodes q [] good ins held = tt
  stored-Decodes q (kv ∷ kvs) good ins held =
      let (entry, there, same) = held.0 in
      (
        λ bad.
            good kv.key entry there (sym (prefix_end-exact q b'/' kv.key (omega arith)) ∙ ins.0)
              (ground arith),
        stored-Decodes q kvs good ins.1 held.1,
      )

  decode_services_total :
      (kvs : List (KeyValue e.Wire)) (svcs : Services)
      → Decodes kvs
      → (m : Services) × (decode_services e kvs svcs ≡ some m)
        × ((k : Bytes) → has_key k m ≡ (listed k kvs || has_key k svcs))
  unfolding decode_services
  decode_services_total [] svcs good = (svcs, refl, λ k. refl)
  decode_services_total (kv ∷ kvs) svcs good =
      elim (Option-cases (e.spec_json.unmarshal kv.value)) [
        | inl bad ↦ absurd (good.0 bad)
        | inr (spec, decoded) ↦
            let (m, done, keys) = decode_services_total kvs (assign kv.key spec svcs) good.1 in
            (m, ground arith, λ k. ground (arith, keys k, has_key-assign k kv.key spec svcs))
      ]

  -- The services under a prefix: all of them, if there are fewer than three.
  pub get_services_complete :
      (q : Bytes)
      → (let prefix = q ++ b'/' ∷ [] in
          AllDecode e h s prefix
          → (m : Services) × (kvs : List (KeyValue e.Wire)) × (get_services e prefix 3 s
              ≡ (ok m, s))
            × Distinct kvs
            × ((k : Bytes) → has_key k m ≡ listed k kvs)
            × ((k : Bytes) (entry : Entry e.Wire)
                → has_prefix prefix k ≡ true
                → contents s k ≡ some entry
                → length kvs < 3
                → has_key k m ≡ true))
  unfolding get_services
  get_services_complete q good =
      let prefix = q ++ b'/' ∷ [] in
      let r : RangeRequest = record {
        key = prefix;
        range_end = some (prefix_end prefix);
        limit = 3;
      } in
      let (kvs, answer) = lists.answers r in
      let found : (e.range r s).0 ≡ some kvs = ground arith in
      let decodes =
        stored-Decodes q kvs good (ranges.inside r (prefix_end prefix) s kvs refl found)
          (lists.stored r kvs found) in
      let (m, done, keys) = decode_services_total kvs [] decodes in
      (
        m,
        kvs,
        ground arith,
        lists.distinct r kvs found,
        λ k. ground (arith, keys k),
        λ k entry under_prefix there few.
            let in_it : in_range prefix (prefix_end prefix) k ≡ true =
              prefix_end-exact q b'/' k (omega arith) ∙ under_prefix in
            ground (
              arith,
              keys k,
              lists.complete r (prefix_end prefix) kvs k entry refl found in_it there few,
            ),
      )
