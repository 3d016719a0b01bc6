-- ===== src/Numbers/Decimal.antt =====
-- `ParseUint`, `ParseInt` and `FormatUint` in base 10.
use ssle_project.Prelude.{
  ℕ, zero, suc, ◌+◌, ◌-◌, ◌*◌, ◌/◌, ◌%◌, ◌^◌, ◌≤◌, ◌<◌, ◌≡◌, false, ◌&&◌, Option, none, some, [],
  ◌∷◌, Bytes, leb, ltb, ◌==◌, All, arith, if◌then◌else◌,
}
use ssle_project.Prelude.Int.{ℤ, pos, negsuc}
use native.Mathlib.Decide.{dec_lt}

pub data Parsed : Type 0 where
  parsed : ℕ → Parsed
  invalid_syntax out_of_range : Parsed

-- The digits of a text behind a number, up to a largest number.
unfoldable pub parse_digits : ℕ → ℕ → Bytes → Parsed
parse_digits largest n [] = parsed n
parse_digits largest n (c ∷ s) =
    let n' = n * 10 + (c - b'0') in
    let rest = parse_digits largest n' s in
    if leb b'0' c && leb c b'9'
    then (if ltb largest n' then out_of_range else rest)
    else invalid_syntax

unfoldable pub parse_uint : ℕ → Bytes → Parsed
parse_uint largest [] = invalid_syntax
parse_uint largest (c ∷ s) = parse_digits largest 0 (c ∷ s)

-- The digits of a number in front of a text; the fuel is more than the number.
unfoldable pub digits : ℕ → ℕ → Bytes → Bytes
digits zero n out = out
digits (suc fuel) n out =
    let rest = digits fuel (n / 10) ((b'0' + n % 10) ∷ out) in
    if ltb n 10 then (b'0' + n) ∷ out else rest

unfoldable pub format_uint : ℕ → Bytes
unfolding digits
format_uint n = digits (suc n) n []

negated : ℕ → ℤ
negated zero = pos 0
negated (suc n) = negsuc n

unfoldable pub parse_int : Bytes → Option ℤ
unfolding negated parse_uint parse_digits
parse_int [] = none
parse_int (c ∷ s) =
    if c == b'-'
    then elim (parse_uint (2 ^ 63) s) [
      | parsed n ↦ some (negated n)
      | invalid_syntax ↦ none
      | out_of_range ↦ none
    ]
    else elim (parse_uint (2 ^ 63 - 1) (if c == b'+' then s else c ∷ s)) [
      | parsed n ↦ some (pos n)
      | invalid_syntax ↦ none
      | out_of_range ↦ none
    ]

unfoldable pub format_int : ℤ → Bytes
unfolding format_uint
format_int (pos n) = format_uint n
format_int (negsuc n) = b'-' ∷ format_uint (suc n)

abbrev pub IsInt64 : ℤ → Type 0
IsInt64 (pos n) = n ≤ 2 ^ 63 - 1
IsInt64 (negsuc n) = n ≤ 2 ^ 63 - 1

-- A text of at least one digit.
pub record IsDigits (s : Bytes) : Type 0 where
  pub first : ℕ
  pub rest : Bytes
  pub is_cons : s ≡ first ∷ rest
  pub first_le : first ≤ b'9'
  pub le_first : b'0' ≤ first

digits-IsDigits : (fuel n : ℕ) (out : Bytes) → n < fuel → IsDigits (digits fuel n out)
unfolding digits
digits-IsDigits zero n out h = absurd (omega arith)
digits-IsDigits (suc fuel) n out h = elim (dec_lt n 10) [
  | yes small ↦ record {
    first = b'0' + n;
    rest = out;
    is_cons = ground arith;
    first_le = omega arith;
    le_first = omega arith;
  }
  | no large ↦
      let ih = digits-IsDigits fuel (n / 10) ((b'0' + n % 10) ∷ out) (omega arith) in
      record {
        first = ih.first;
        rest = ih.rest;
        is_cons = ground arith;
        first_le = ih.first_le;
        le_first = ih.le_first;
      }
]

parse_digits-digits :
    (largest fuel n : ℕ) (out : Bytes)
    → n < fuel
    → n ≤ largest
    → parse_digits largest 0 (digits fuel n out) ≡ parse_digits largest n out
unfolding parse_digits digits
parse_digits-digits largest zero n out h fits = absurd (omega arith)
parse_digits-digits largest (suc fuel) n out h fits =
    ground (arith, parse_digits-digits largest fuel (n / 10) ((b'0' + n % 10) ∷ out))

pub parse_uint-format_uint :
    (largest n : ℕ) → n ≤ largest → parse_uint largest (format_uint n) ≡ parsed n
unfolding parse_uint format_uint parse_digits
parse_uint-format_uint largest n h =
    let d = digits-IsDigits (suc n) n [] (omega arith) in
    ground (arith, parse_digits-digits largest (suc n) n [])

pub parse_int-format_int : (z : ℤ) → IsInt64 z → parse_int (format_int z) ≡ some z
unfolding parse_int format_int
parse_int-format_int (pos n) h =
    let d = digits-IsDigits (suc n) n [] (omega arith) in
    ground (arith, parse_uint-format_uint (2 ^ 63 - 1) n)
parse_int-format_int (negsuc n) h = ground (arith, parse_uint-format_uint (2 ^ 63) (suc n))

-- No byte of the text is this one.
abbrev pub Lacks : ℕ → Bytes → Type 0
Lacks b = All (λ c. (c == b) ≡ false)

digits-Lacks : (b fuel n : ℕ) (out : Bytes) → b'9' < b → Lacks b out → Lacks b (digits fuel n out)
unfolding digits
digits-Lacks b zero n out above h = h
digits-Lacks b (suc fuel) n out above h = elim (dec_lt n 10) [
  | yes small ↦ ground (arith, h)
  | no large ↦
      ground (arith, digits-Lacks b fuel (n / 10) ((b'0' + n % 10) ∷ out) above (ground arith, h))
]

pub format_int-Lacks : (b : ℕ) (z : ℤ) → b'9' < b → Lacks b (format_int z)
unfolding format_int
format_int-Lacks b (pos n) above = digits-Lacks b (suc n) n [] above tt
format_int-Lacks b (negsuc n) above =
    (ground arith, digits-Lacks b (suc (suc n)) (suc n) [] above tt)
