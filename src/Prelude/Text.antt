-- ===== src/Prelude/Text.antt =====
-- Go strings and byte slices: lists of numbers, with equality, prefixes and the order of keys.
use Prim.Native.Nat.{ℕ}
use Prim.Native.Char.{code}
use Prim.Native.String.{String}
use mathlib.Core.Path.{◌≡◌, refl}
use mathlib.Core.Logic.{◌↔◌}
use mathlib.Core.Bool.{Bool, true, false, not, ◌&&◌}
use mathlib.Core.List.{List, [], ◌∷◌}
use native.Mathlib.Omega.{arith}
use ssle_project.Prelude.Tests.{ltb, ◌==◌, if◌then◌else◌}

abbrev pub Bytes : Type 0
Bytes = List ℕ

-- The bytes of an ASCII literal.
abbrev pub codes : String → Bytes
codes String.[] = []
codes (String.◌∷◌ c s) = code c ∷ codes s

-- `==` on strings.
unfoldable pub equal : Bytes → Bytes → Bool
equal [] [] = true
equal [] (d ∷ t) = false
equal (c ∷ s) [] = false
equal (c ∷ s) (d ∷ t) = c == d && equal s t

pub equal_iff : (s t : Bytes) → (equal s t ≡ true) ↔ (s ≡ t)
unfolding equal
equal_iff [] [] = ground arith
equal_iff [] (d ∷ t) = ground arith
equal_iff (c ∷ s) [] = ground arith
equal_iff (c ∷ s) (d ∷ t) = ground (arith, equal_iff s t)

pub equal_refl : (a : Bytes) → equal a a ≡ true
equal_refl a = (equal_iff a a).1 refl

-- `bytes.HasPrefix`
unfoldable pub has_prefix : Bytes → Bytes → Bool
has_prefix [] k = true
has_prefix (x ∷ p) [] = false
has_prefix (x ∷ p) (y ∷ k) = x == y && has_prefix p k

-- `bytes.Compare(a, b) < 0`
unfoldable pub before : Bytes → Bytes → Bool
before [] [] = false
before [] (y ∷ b) = true
before (x ∷ a) [] = false
before (x ∷ a) (y ∷ b) = if ltb x y then true else x == y && before a b

-- The half-open interval of keys that a range request with a range end names.
unfoldable pub in_range : Bytes → Bytes → Bytes → Bool
unfolding before
in_range key range_end k = not (before k key) && before k range_end
