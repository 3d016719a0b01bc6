-- ===== src/Tests/Memory.antt =====
-- An etcd server in memory that keeps the laws that the registry relies on, and a signer whose
-- certificates list the datacenter before the role.
use mathlib.Core.Path.{subst}
use ssle_project.Prelude.{
  ℕ, zero, suc, ◌+◌, ◌≤◌, ◌≡◌, ◌≢◌, refl, Bool, true, false, Option, none, some, List, [], ◌∷◌,
  ◌++◌, Bytes, in_range, take, length, All, arith, if◌then◌else◌, Bool-cases, inl, inr,
}
use ssle_project.Schemas.{NodeSchema, ServiceSpec}
use ssle_project.Etcd.{
  Etcd, Entry, Contents, KeyValue, RequestOp, put, delete, TxnRequest, revoked, all_hold, apply_ops,
  found_at, kept, IsHealthy, RoundTrips,
}
use ssle_project.Registry.Auth.{Template, Signer}
use ssle_project.Registry.Discover.Widening.{RespectsRange}

pub some_inj {ℓ} : {A : Type ℓ} {x y : A} → some x ≡ some y → x ≡ y
some_inj h = cc

pub data Value : Type 0 where
  node_value : NodeSchema → Value
  spec_value : ServiceSpec → Value
  lease_value : ℕ → Value
  text_value : Bytes → Value

abbrev node_of : Value → Option NodeSchema
node_of (node_value n) = some n
node_of _ = none

abbrev spec_of : Value → Option ServiceSpec
spec_of (spec_value s) = some s
spec_of _ = none

abbrev pub lease_of : Value → Option ℕ
lease_of (lease_value l) = some l
lease_of _ = none

abbrev text_of : Value → Bytes
text_of (text_value t) = t
text_of _ = []

pub record Memory : Type 0 where
  pub contents : Contents Value
  pub keys : List Bytes
  pub revision : ℕ
  pub next_lease : ℕ

abbrev pub collect : Contents Value → Bytes → Bytes → List Bytes → List (KeyValue Value)
collect c a b [] = []
collect c a b (k ∷ keys) =
    if in_range a b k then found_at k (c k) ++ collect c a b keys else collect c a b keys

abbrev pub limited : ℕ → List (KeyValue Value) → List (KeyValue Value)
limited zero kvs = kvs
limited (suc n) kvs = take (suc n) kvs

abbrev pub range_to : Bytes → Option Bytes → ℕ → Memory → List (KeyValue Value)
range_to key none limit s = found_at key (s.contents key)
range_to key (some range_end) limit s = limited limit (collect s.contents key range_end s.keys)

abbrev pub written : List (RequestOp Value) → List Bytes
written [] = []
written (put k v lease ∷ ops) = k ∷ written ops
written (delete k ∷ ops) = written ops

abbrev pub commit : TxnRequest Value → Memory → Bool → Memory
commit t s true = record {
  contents = apply_ops (s.revision + 1) t.success s.contents;
  keys = written t.success ++ s.keys;
  revision = s.revision + 1;
  next_lease = s.next_lease;
}
commit t s false = s

abbrev pub memory : Etcd
memory = record {
  Store = Memory;
  Wire = Value;
  range = λ r s. (some (range_to r.key r.range_end r.limit s), s);
  txn = λ t s. (some (all_hold t.compare s.contents), commit t s (all_hold t.compare s.contents));
  lease_grant = λ ttl s. (some s.next_lease, record s { next_lease = s.next_lease + 1 });
  lease_renew = λ lease s. (some 30, s);
  lease_revoke = λ lease s. (revoked, record s { contents = λ k. kept lease (s.contents k) });
  node_json = record { marshal = λ n. some (node_value n); unmarshal = node_of };
  spec_json = record { marshal = λ n. some (spec_value n); unmarshal = spec_of };
  lease_json = record { marshal = λ n. some (lease_value n); unmarshal = lease_of };
  text = text_of;
}

pub applies :
    (t : TxnRequest Value) (s : Memory) (b : Bool) (k : Bytes)
    → (commit t s b).contents k
      ≡ (if b then apply_ops (s.revision + 1) t.success s.contents k else s.contents k)
applies t s true k = refl
applies t s false k = refl

abbrev pub memory-IsHealthy : IsHealthy memory
memory-IsHealthy = record {
  contents = λ s. s.contents;
  revision = λ s. s.revision + 1;
  range_key = λ k limit s. refl;
  txn_succeeds = λ t s. refl;
  txn_applies = λ t s k. applies t s (all_hold t.compare s.contents) k;
  grant_keeps = λ ttl s k. refl;
  renew_keeps = λ lease s k. refl;
  revoke_removes = λ lease s k h. refl;
}

pub node_RoundTrips : RoundTrips memory.node_json
node_RoundTrips a w h = ground arith

pub spec_RoundTrips : RoundTrips memory.spec_json
spec_RoundTrips a w h = ground arith

pub lease_RoundTrips : RoundTrips memory.lease_json
lease_RoundTrips a w h = ground arith

abbrev Inside : Bytes → Bytes → List (KeyValue Value) → Type 0
Inside a b = All (λ kv. in_range a b kv.key ≡ true)

collect-Inside :
    (c : Contents Value) (a b : Bytes) (keys : List Bytes) → Inside a b (collect c a b keys)
collect-Inside c a b [] = tt
collect-Inside c a b (k ∷ keys) = elim (Bool-cases (in_range a b k)) [
  | inl inside ↦ rw inside (found (c k) inside (collect-Inside c a b keys))
  | inr outside ↦ rw outside (collect-Inside c a b keys)
]
  where
    found :
        (entry : Option (Entry Value))
        → in_range a b k ≡ true
        → Inside a b (collect c a b keys)
        → Inside a b (found_at k entry ++ collect c a b keys)
    found none h rest = rest
    found (some entry) h rest = (h, rest)

take-Inside :
    (a b : Bytes) (n : ℕ) (kvs : List (KeyValue Value)) → Inside a b kvs → Inside a b (take n kvs)
take-Inside a b zero kvs h = tt
take-Inside a b (suc n) [] h = tt
take-Inside a b (suc n) (kv ∷ kvs) h = (h.0, take-Inside a b n kvs h.1)

limited-Inside :
    (a b : Bytes) (n : ℕ) (kvs : List (KeyValue Value))
    → Inside a b kvs
    → Inside a b (limited n kvs)
limited-Inside a b zero kvs h = h
limited-Inside a b (suc n) kvs h = take-Inside a b (suc n) kvs h

length-take-le : (n : ℕ) (kvs : List (KeyValue Value)) → length (take n kvs) ≤ n
length-take-le zero kvs = omega arith
length-take-le (suc n) [] = omega arith
length-take-le (suc n) (kv ∷ kvs) = omega (arith, length-take-le n kvs)

length-limited : (n : ℕ) (kvs : List (KeyValue Value)) → n ≢ 0 → length (limited n kvs) ≤ n
length-limited zero kvs h = absurd (h refl)
length-limited (suc n) kvs h = length-take-le (suc n) kvs

length-found_at : (k : Bytes) (entry : Option (Entry Value)) → length (found_at k entry) ≤ 1
length-found_at k none = omega arith
length-found_at k (some e) = omega arith

length-range_to :
    (key : Bytes) (range_end : Option Bytes) (limit : ℕ) (s : Memory)
    → limit ≢ 0
    → length (range_to key range_end limit s) ≤ limit
length-range_to key none limit s h = omega (arith, length-found_at key (s.contents key))
length-range_to key (some b) limit s h = length-limited limit (collect s.contents key b s.keys) h

range_bounded :
    (key : Bytes) (range_end : Option Bytes) (b : Bytes) (limit : ℕ) (s : Memory)
    → range_end ≡ some b
    → Inside key b (range_to key range_end limit s)
range_bounded key none b limit s e = cc
range_bounded key (some b') b limit s e =
    subst (λ x. Inside key x (range_to key (some b') limit s)) (some_inj e)
      (limited-Inside key b' limit (collect s.contents key b' s.keys)
        (collect-Inside s.contents key b' s.keys))

pub memory-RespectsRange : RespectsRange memory
memory-RespectsRange = record {
  inside = λ r b s kvs e h.
      subst (Inside r.key b) (some_inj h) (range_bounded r.key r.range_end b r.limit s e);
  limited = λ r s kvs h n.
      subst (λ x. length x ≤ r.limit) (some_inj h) (length-range_to r.key r.range_end r.limit s n);
}

abbrev swapped : List Bytes → List Bytes
swapped (a ∷ b ∷ []) = b ∷ a ∷ []
swapped units = units

abbrev pub signer : Signer
signer = record {
  Pem = Template;
  sign = λ t. (t, t);
  presents = λ t. record {
    organizational_unit = swapped t.organizational_unit;
    common_name = t.common_name;
    not_after = t.not_after;
  };
}
