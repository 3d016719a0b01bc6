-- ===== src/Keys/Parts.antt =====
-- Splitting a key at its slashes gives back the parts that it was printed from.
use mathlib.Core.List.{append_assoc}
use ssle_project.Prelude.{
  ℕ, ◌≡◌, ◌≢◌, refl, false, List, [], ◌∷◌, ◌++◌, Bytes, ◌==◌, All, arith, Bool-cases, inl, inr,
}
use ssle_project.Keys.{push_byte, split, under}

-- No byte of the part is a slash.
abbrev pub IsPart : Bytes → Type 0
IsPart = All (λ c. (c == b'/') ≡ false)

-- The separator is in no part.
abbrev pub Without : ℕ → Bytes → Type 0
Without sep = All (λ c. (c == sep) ≡ false)

pub split-Without : (sep : ℕ) (a : Bytes) → Without sep a → split sep a ≡ a ∷ []
unfolding split
split-Without sep [] h = refl
split-Without sep (c ∷ a) h = rw (h.0, split-Without sep a h.1)

pub split-IsPart : (a : Bytes) → IsPart a → split b'/' a ≡ a ∷ []
split-IsPart = split-Without b'/'

push_byte-append :
    (c : ℕ) (xs ys : List Bytes) → xs ≢ [] → push_byte c (xs ++ ys) ≡ push_byte c xs ++ ys
unfolding push_byte
push_byte-append c [] ys h = absurd (h refl)
push_byte-append c (x ∷ xs) ys h = refl

pub split-ne-nil : (sep : ℕ) (a : Bytes) → split sep a ≢ []
unfolding split push_byte
split-ne-nil sep [] = ground arith
split-ne-nil sep (c ∷ a) = ground arith

pub split-append : (sep : ℕ) (a b : Bytes) → split sep (a ++ (sep ∷ b)) ≡ split sep a ++ split sep b
unfolding split
split-append sep [] b = ground arith
split-append sep (c ∷ a) b = elim (Bool-cases (c == sep)) [
  | inl e ↦ rw (e, split-append sep a b)
  | inr e ↦
      rw (e, split-append sep a b)
        (push_byte-append c (split sep a) (split sep b) (split-ne-nil sep a))
]

pub split-under : (a b : Bytes) → split b'/' (under a b) ≡ split b'/' a ++ split b'/' b
split-under = split-append b'/'

pub split-parts :
    (base a b c : Bytes)
    → IsPart a
    → IsPart b
    → IsPart c
    → split b'/' (under (under (under base a) b) c) ≡ split b'/' base ++ a ∷ b ∷ c ∷ []
split-parts base a b c ha hb hc =
    rw (split-under (under (under base a) b) c, split-under (under base a) b, split-under base a)
      (rw (split-IsPart a ha, split-IsPart b hb, split-IsPart c hc) (simp append_assoc))

pub split-part : (base a : Bytes) → IsPart a → split b'/' (under base a) ≡ split b'/' base ++ a ∷ []
split-part base a h = rw (split-under base a, split-IsPart a h)
