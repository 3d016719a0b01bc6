-- ===== src/Keys/Range.antt =====
-- What the range from a prefix to its `PrefixEnd` holds.
use mathlib.Core.List.{reverse, reverse-append, reverse-reverse, append_assoc}
use ssle_project.Prelude.{
  ℕ, ◌+◌, ◌<◌, ◌≡◌, refl, ap, ◌∙◌, true, false, [], ◌∷◌, ◌++◌, Bytes, has_prefix, before, in_range,
  arith, All, All-append,
}
use ssle_project.Keys.{bump, prefix_end}

-- Every byte is 0xff, which the loop of `PrefixEnd` passes over.
abbrev pub IsFull : Bytes → Type 0
IsFull = All (λ c. c ≡ 0xff)

bump-full : (f r : Bytes) → IsFull f → bump (f ++ r) ≡ f ++ bump r
unfolding bump
bump-full [] r h = refl
bump-full (c ∷ f) r h = ground (arith, bump-full f r h.1)

IsFull-reverse : (f : Bytes) → IsFull f → IsFull (reverse f)
IsFull-reverse [] h = tt
IsFull-reverse (c ∷ f) h =
    rw (reverse-append (c ∷ []) f)
      (All-append _ (reverse f) (c ∷ []) (IsFull-reverse f h.1) (h.0, tt))

bump_step : (v : ℕ) (r : Bytes) → v < 0xff → bump (v ∷ r) ≡ (v + 1) ∷ r
unfolding bump
bump_step v r h = ground arith

-- What `PrefixEnd` computes: the last byte below 0xff is incremented, and nothing is cut off.
pub prefix_end_lem :
    (q f : Bytes) (v : ℕ) → v < 0xff → IsFull f → prefix_end (q ++ v ∷ f) ≡ q ++ (v + 1) ∷ f
unfolding prefix_end
prefix_end_lem q f v h full =
    ap (λ r. reverse (bump r)) (reverse-append q (v ∷ f))
    ∙ ap (λ r. reverse (bump (r ++ reverse q))) (reverse-append (v ∷ []) f)
    ∙ ap (λ r. reverse (bump r)) (append_assoc (reverse f) (v ∷ []) (reverse q))
    ∙ ap reverse (bump-full (reverse f) (v ∷ reverse q) (IsFull-reverse f full))
    ∙ ap (λ r. reverse (reverse f ++ r)) (bump_step v (reverse q) h)
    ∙ reverse-append (reverse f) ((v + 1) ∷ reverse q)
    ∙ ap (◌++◌ (reverse ((v + 1) ∷ reverse q))) (reverse-reverse f)
    ∙ ap (λ r. r ++ f)
        (reverse-append ((v + 1) ∷ []) (reverse q)
          ∙ ap (λ r. r ++ (v + 1) ∷ []) (reverse-reverse q))
    ∙ append_assoc q ((v + 1) ∷ []) f

in_range_last :
    (q k : Bytes) (v : ℕ)
    → in_range (q ++ v ∷ []) (q ++ (v + 1) ∷ []) k ≡ has_prefix (q ++ v ∷ []) k
unfolding in_range has_prefix
in_range_last [] [] v = refl
in_range_last [] (y ∷ []) v = ground arith
in_range_last [] (y ∷ z ∷ k) v = ground arith
in_range_last (x ∷ q) [] v = refl
in_range_last (x ∷ q) (y ∷ k) v = ground (arith, in_range_last q k v)

not_before : (f k : Bytes) → has_prefix f k ≡ true → before k f ≡ false
unfolding before has_prefix
not_before [] [] h = refl
not_before [] (y ∷ k) h = refl
not_before (x ∷ f) [] h = cc
not_before (x ∷ f) (y ∷ k) h = ground (arith, not_before f k)

in_range_covers :
    (q f k : Bytes) (v : ℕ)
    → has_prefix (q ++ v ∷ f) k ≡ true
    → in_range (q ++ v ∷ f) (q ++ (v + 1) ∷ f) k ≡ true
unfolding in_range has_prefix
in_range_covers [] f [] v h = cc
in_range_covers [] f (y ∷ k) v h = ground (arith, not_before f k)
in_range_covers (x ∷ q) f [] v h = cc
in_range_covers (x ∷ q) f (y ∷ k) v h = ground (arith, in_range_covers q f k v)

in_range_overshoot :
    (q f : Bytes) (v c : ℕ)
    → in_range (q ++ v ∷ c ∷ f) (q ++ (v + 1) ∷ c ∷ f) (q ++ (v + 1) ∷ []) ≡ true
unfolding in_range
in_range_overshoot [] f v c = ground arith
in_range_overshoot (x ∷ q) f v c = ground (arith, in_range_overshoot q f v c)

has_prefix_overshoot :
    (q f : Bytes) (v c : ℕ) → has_prefix (q ++ v ∷ c ∷ f) (q ++ (v + 1) ∷ []) ≡ false
unfolding has_prefix
has_prefix_overshoot [] f v c = ground arith
has_prefix_overshoot (x ∷ q) f v c = ground (arith, has_prefix_overshoot q f v c)

-- If the last byte of the prefix is below 0xff, then the keys from the prefix up to its
-- `PrefixEnd` are exactly the keys that have the prefix.
pub prefix_end-exact :
    (q : Bytes) (v : ℕ) (k : Bytes)
    → v < 0xff
    → in_range (q ++ v ∷ []) (prefix_end (q ++ v ∷ [])) k ≡ has_prefix (q ++ v ∷ []) k
prefix_end-exact q v k h = rw (prefix_end_lem q [] v h tt) (in_range_last q k v)

-- If the prefix is any bytes, then one byte below 0xff, then bytes 0xff, the range up to its
-- `PrefixEnd` holds every key that has the prefix.
pub prefix_end-covers :
    (q f : Bytes) (v : ℕ) (k : Bytes)
    → v < 0xff
    → IsFull f
    → has_prefix (q ++ v ∷ f) k ≡ true
    → in_range (q ++ v ∷ f) (prefix_end (q ++ v ∷ f)) k ≡ true
prefix_end-covers q f v k h full p = rw (prefix_end_lem q f v h full) (in_range_covers q f k v p)

-- If the prefix ends in a byte below 0xff and then at least one byte 0xff, the range up to its
-- `PrefixEnd` also holds a key that does not have the prefix.
pub prefix_end-overshoots :
    (q f : Bytes) (v : ℕ)
    → v < 0xff
    → IsFull f
    → (k : Bytes) × (in_range (q ++ v ∷ 0xff ∷ f) (prefix_end (q ++ v ∷ 0xff ∷ f)) k ≡ true)
      × (has_prefix (q ++ v ∷ 0xff ∷ f) k ≡ false)
prefix_end-overshoots q f v h full = (
  q ++ (v + 1) ∷ [],
  rw (prefix_end_lem q (0xff ∷ f) v h (refl, full)) (in_range_overshoot q f v 0xff),
  has_prefix_overshoot q f v 0xff,
)
