-- ===== src/Registry/Discover/Maps.antt =====
-- Laws of the map of services that `Discover` builds, and of the loop of `fillServices`.
use ssle_project.Prelude.{
  ◌+◌, ◌≤◌, ◌<◌, ◌≡◌, refl, Bool, true, false, ◌||◌, ◌⊎◌, inl, inr, [], ◌∷◌, length, Bytes,
  Bool-cases, equal, equal_iff, arith, leb,
}
use ssle_project.Schemas.{ServiceSpec}
use ssle_project.Registry.Discover.{Services, assign, fill, max_get_service_limit}

abbrev pub has_key : Bytes → Services → Bool
has_key k [] = false
has_key k ((j, v) ∷ svcs) = equal j k || has_key k svcs

-- No key stands twice.
abbrev pub IsMap : Services → Type 0
IsMap [] = Unit
IsMap ((k, v) ∷ svcs) = (has_key k svcs ≡ false) × IsMap svcs

pub has_key-assign :
    (j k : Bytes) (v : ServiceSpec) (svcs : Services)
    → has_key j (assign k v svcs) ≡ (equal k j || has_key j svcs)
unfolding assign
has_key-assign j k v [] = refl
has_key-assign j k v ((i, w) ∷ svcs) =
    ground (arith, has_key-assign j k v svcs, equal_iff i k, equal_iff i j, equal_iff k j)

pub assign-IsMap :
    (k : Bytes) (v : ServiceSpec) (svcs : Services) → IsMap svcs → IsMap (assign k v svcs)
unfolding assign
assign-IsMap k v [] h = (refl, tt)
assign-IsMap k v ((i, w) ∷ svcs) h =
    ground
      (arith, assign-IsMap k v svcs h.1, has_key-assign i k v svcs, equal_iff i k, equal_iff k i)

pub length-assign :
    (k : Bytes) (v : ServiceSpec) (svcs : Services) → length (assign k v svcs) ≤ length svcs + 1
unfolding assign
length-assign k v [] = omega arith
length-assign k v ((i, w) ∷ svcs) = ground (arith, length-assign k v svcs)

pub length-fill :
    (extra svcs : Services)
    → length svcs ≤ max_get_service_limit
    → length (fill extra svcs) ≤ max_get_service_limit
unfolding fill
length-fill [] svcs h = h
length-fill ((k, v) ∷ extra) svcs h =
    ground (arith, length-assign k v svcs, length-fill extra (assign k v svcs))

pub fill-IsMap : (extra svcs : Services) → IsMap svcs → IsMap (fill extra svcs)
unfolding fill
fill-IsMap [] svcs h = h
fill-IsMap ((k, v) ∷ extra) svcs h = elim (Bool-cases (leb max_get_service_limit (length svcs))) [
  | inl full ↦ rw full h
  | inr room ↦ rw room (fill-IsMap extra (assign k v svcs) (assign-IsMap k v svcs h))
]

-- A key that was in the map is still there.
pub fill_keeps :
    (extra svcs : Services) (k : Bytes) → has_key k svcs ≡ true → has_key k (fill extra svcs) ≡ true
unfolding fill
fill_keeps [] svcs k h = h
fill_keeps ((j, v) ∷ extra) svcs k h =
    ground (arith, has_key-assign k j v svcs, fill_keeps extra (assign j v svcs) k)

-- A key of the filled map was in the map or comes from the pairs.
pub fill_from :
    (extra svcs : Services) (k : Bytes)
    → has_key k (fill extra svcs) ≡ true
    → (has_key k extra ≡ true) ⊎ (has_key k svcs ≡ true)
unfolding fill
fill_from [] svcs k h = inr h
fill_from ((j, v) ∷ extra) svcs k h =
    ground (arith, has_key-assign k j v svcs, fill_from extra (assign j v svcs) k)

-- If the filled map has room left, then every key of the pairs is in it.
pub fill_complete :
    (extra svcs : Services) (k : Bytes)
    → length (fill extra svcs) < max_get_service_limit
    → has_key k extra ≡ true
    → has_key k (fill extra svcs) ≡ true
unfolding fill
fill_complete [] svcs k room h = cc
fill_complete ((j, v) ∷ extra) svcs k room h = ground (
  arith,
  has_key-assign k j v svcs,
  fill_complete extra (assign j v svcs) k,
  fill_keeps extra (assign j v svcs) k,
)
