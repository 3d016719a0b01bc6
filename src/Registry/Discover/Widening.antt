-- ===== src/Registry/Discover/Widening.antt =====
-- What each step of the widening of `Discover` does to the map of services.
use ssle_project.Prelude.{
  ℕ, ◌+◌, ◌≤◌, ◌≡◌, ◌≢◌, refl, sym, ◌∙◌, true, inl, inr, Option, none, some, Option-cases, List, [],
  ◌∷◌, ◌++◌, length, Bytes, All, Bool-cases, equal_iff, has_prefix, in_range, arith, ltb,
}
use ssle_project.Handler.{Outcome, ok, panic, Outcome-cases}
use ssle_project.Keys.{prefix_end}
use ssle_project.Keys.Range.{prefix_end-exact}
use ssle_project.Etcd.{Etcd, KeyValue, RangeRequest}
use ssle_project.Registry.Discover.{
  Services, assign, fill, max_get_service_limit, Runtime, decode_services, get_services, filled,
  fill_services, widen,
}
use ssle_project.Registry.Discover.Maps.{
  has_key, has_key-assign, length-assign, length-fill, fill_from, fill_keeps,
}

-- What etcd documents of a range request: the keys lie in the range, and a limit other than 0 bounds
-- their number.
pub record RespectsRange (e : Etcd) : Type 0 where
  pub inside :
      (r : RangeRequest) (range_end : Bytes) (s : e.Store) (kvs : List (KeyValue e.Wire))
      → r.range_end ≡ some range_end
      → (e.range r s).0 ≡ some kvs
      → All (λ kv. in_range r.key range_end kv.key ≡ true) kvs
  pub limited :
      (r : RangeRequest) (s : e.Store) (kvs : List (KeyValue e.Wire))
      → (e.range r s).0 ≡ some kvs
      → r.limit ≢ 0
      → length kvs ≤ r.limit

-- An iteration over a map visits each of its pairs once.
pub record Iterates (rt : Runtime) : Type 0 where
  pub length-order : (n : ℕ) (svcs : Services) → length (rt.order n svcs) ≡ length svcs
  pub has_key-order :
      (n : ℕ) (svcs : Services) (k : Bytes) → has_key k (rt.order n svcs) ≡ has_key k svcs

-- Every key of the map has the prefix.
abbrev pub Within : Bytes → Services → Type 0
Within base svcs = (k : Bytes) → has_key k svcs ≡ true → has_prefix base k ≡ true

-- The prefix ends in a slash and extends the base.
abbrev pub IsBelow : Bytes → Bytes → Type 0
IsBelow base prefix = (q : Bytes) × (r : Bytes) × (prefix ≡ q ++ b'/' ∷ []) × (prefix ≡ base ++ r)

has_prefix-append : (p r k : Bytes) → has_prefix (p ++ r) k ≡ true → has_prefix p k ≡ true
unfolding has_prefix
has_prefix-append [] r k h = refl
has_prefix-append (x ∷ p) r [] h = cc
has_prefix-append (x ∷ p) r (y ∷ k) h = ground (arith, has_prefix-append p r k)

below_range :
    (base prefix k : Bytes)
    → IsBelow base prefix
    → in_range prefix (prefix_end prefix) k ≡ true
    → has_prefix base k ≡ true
below_range base prefix k (q, r, ends, extends) h = has_prefix-append base r k (
    rw extends at
      (rw (sym ends) at (sym (prefix_end-exact q b'/' k (omega arith)) ∙ (rw ends at h))))

module _ (e : Etcd) (ranges : RespectsRange e) where
  decode_services-Within :
      (base a b : Bytes) (kvs : List (KeyValue e.Wire)) (svcs svcs' : Services)
      → ((k : Bytes) → in_range a b k ≡ true → has_prefix base k ≡ true)
      → All (λ kv. in_range a b kv.key ≡ true) kvs
      → Within base svcs
      → decode_services e kvs svcs ≡ some svcs'
      → Within base svcs'
  unfolding decode_services
  decode_services-Within base a b [] svcs svcs' covers ins old eq = λ k. ground (arith, old k)
  decode_services-Within base a b (kv ∷ kvs) svcs svcs' covers ins old eq =
      elim (Option-cases (e.spec_json.unmarshal kv.value)) [
        | inl bad ↦ ground arith
        | inr (spec, decoded) ↦
            decode_services-Within base a b kvs (assign kv.key spec svcs) svcs' covers ins.1
              (λ k.
                ground
                  (arith, has_key-assign k kv.key spec svcs, equal_iff kv.key k, covers k, old k))
              (ground arith)
      ]

  length-decode_services :
      (kvs : List (KeyValue e.Wire)) (svcs svcs' : Services)
      → decode_services e kvs svcs ≡ some svcs'
      → length svcs' ≤ length svcs + length kvs
  unfolding decode_services
  length-decode_services [] svcs svcs' eq = ground arith
  length-decode_services (kv ∷ kvs) svcs svcs' eq =
      elim (Option-cases (e.spec_json.unmarshal kv.value)) [
        | inl bad ↦ ground arith
        | inr (spec, decoded) ↦ ground (
          arith,
          length-assign kv.key spec svcs,
          length-decode_services kvs (assign kv.key spec svcs) svcs',
        )
      ]

  pub get_services_lem :
      (base prefix : Bytes) (limit : ℕ) (s s' : e.Store) (svcs : Services)
      → IsBelow base prefix
      → limit ≢ 0
      → get_services e prefix limit s ≡ (ok svcs, s')
      → Within base svcs × (length svcs ≤ limit)
  unfolding get_services
  get_services_lem base prefix limit s s' svcs dir some_limit eq =
      let r : RangeRequest = record {
        key = prefix;
        range_end = some (prefix_end prefix);
        limit = limit;
      } in
      elim (Option-cases (e.range r s).0) [
        | inl down ↦ ground arith
        | inr (kvs, found) ↦ elim (Option-cases (decode_services e kvs [])) [
          | inl bad ↦ ground arith
          | inr (m, decoded) ↦
              let same : m ≡ svcs = ground arith in
              (
                rw same at (
                    decode_services-Within base prefix (prefix_end prefix) kvs [] m
                      (λ k. below_range base prefix k dir)
                      (ranges.inside r (prefix_end prefix) s kvs refl found) (λ k h. cc) decoded),
                omega (
                  arith,
                  rw same at (length-decode_services kvs [] m decoded),
                  ranges.limited r s kvs found some_limit,
                ),
              )
        ]
      ]

  no_panic : (prefix : Bytes) (limit : ℕ) (s : e.Store) → (get_services e prefix limit s).0 ≢ panic
  unfolding get_services
  no_panic prefix limit s =
      let r : RangeRequest = record {
        key = prefix;
        range_end = some (prefix_end prefix);
        limit = limit;
      } in
      elim (Option-cases (e.range r s).0) [
        | inl down ↦ ground arith
        | inr (kvs, found) ↦ elim (Option-cases (decode_services e kvs [])) [
          | inl bad ↦ ground arith
          | inr (m, decoded) ↦ ground arith
        ]
      ]

  module _ (rt : Runtime) (iter : Iterates rt) where
    filled-Within :
        (base : Bytes) (n : ℕ) (svcs m : Services)
        → Within base svcs
        → Within base m
        → Within base (filled rt n svcs (some m))
    unfolding filled
    filled-Within base n svcs m old new k h =
        ground (arith, fill_from (rt.order n m) svcs k h, iter.has_key-order n m k, old k, new k)

    -- What one step of the widening guarantees: it returns a map, of at most three services, with all
    -- the keys that were there, and with keys under the base only.
    pub record Widened (base : Bytes) (svcs : Services) (r : Outcome Services) : Type 0 where
      pub result : Services
      pub returned : r ≡ ok result
      pub bounded : length result ≤ max_get_service_limit
      pub within : Within base result
      pub keeps : (k : Bytes) → has_key k svcs ≡ true → has_key k result ≡ true

    fill_services_lem :
        (base : Bytes) (n : ℕ) (prefix : Bytes) (svcs : Services) (s : e.Store)
        → Within base svcs
        → length svcs ≤ max_get_service_limit
        → IsBelow base prefix
        → Widened base svcs (fill_services e rt n prefix svcs s).0
    unfolding fill_services
    fill_services_lem base n prefix svcs s old fits dir =
        elim (Outcome-cases (get_services e prefix 3 s).0) [
          | inl (m, got) ↦
              let (new, few) =
                get_services_lem base prefix 3 s (get_services e prefix 3 s).1 m dir (omega arith)
                  (ground arith) in
              record {
                result = fill (rt.order n m) svcs;
                returned = ground arith;
                bounded = length-fill (rt.order n m) svcs fits;
                within = filled-Within base n svcs m old new;
                keeps = fill_keeps (rt.order n m) svcs;
              }
          | inr (inl (err, p)) ↦ record {
            result = svcs;
            returned = ground arith;
            bounded = fits;
            within = old;
            keeps = λ k h. h;
          }
          | inr (inr p) ↦ absurd (no_panic prefix 3 s p)
        ]

    pub widen_lem :
        (base : Bytes) (n : ℕ) (asked : Option Bytes) (prefix : Bytes) (svcs : Services)
        (s : e.Store)
        → Within base svcs
        → length svcs ≤ max_get_service_limit
        → (asked ≡ none → IsBelow base prefix)
        → Widened base svcs (widen e rt n asked prefix svcs s).0
    unfolding widen
    widen_lem base n (some asked) prefix svcs s old fits dir = record {
      result = svcs;
      returned = ground arith;
      bounded = fits;
      within = old;
      keeps = λ k h. h;
    }
    widen_lem base n none prefix svcs s old fits dir = elim (Bool-cases (ltb (length svcs) 3)) [
      | inl room ↦ rw room (fill_services_lem base n prefix svcs s old fits (dir refl))
      | inr full ↦ rw full (record {
        result = svcs;
        returned = refl;
        bounded = fits;
        within = old;
        keeps = λ k h. h;
      })
    ]
