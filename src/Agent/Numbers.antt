-- ===== src/Agent/Numbers.antt =====
-- `strconv.ParseUint(s, 10, 16)`, as agent/main.go calls it for ports.
use ssle_project.Prelude.{ℕ, ◌+◌, ◌-◌, ◌*◌, ◌≤◌, [], ◌∷◌, Bytes, arith}
use ssle_project.Numbers.Decimal
use ssle_project.Numbers.Decimal.{Parsed, parsed, invalid_syntax, out_of_range, parse_digits}

abbrev pub max_uint16 : ℕ
max_uint16 = 0xffff

unfoldable pub parse_uint : Bytes → Parsed
unfolding Decimal.parse_uint parse_digits
parse_uint s = Decimal.parse_uint max_uint16 s

-- The number that is returned beside the error: with a syntax error 0, out of range the largest.
unfoldable pub value_of : Parsed → ℕ
value_of (parsed n) = n
value_of invalid_syntax = 0
value_of out_of_range = max_uint16

value_of-parse_digits :
    (n : ℕ) (s : Bytes) → n ≤ max_uint16 → value_of (parse_digits max_uint16 n s) ≤ max_uint16
unfolding value_of parse_digits
value_of-parse_digits n [] h = h
value_of-parse_digits n (c ∷ s) h = ground (arith, value_of-parse_digits (n * 10 + (c - b'0')) s)

pub value_of-parse_uint : (s : Bytes) → value_of (parse_uint s) ≤ max_uint16
unfolding parse_uint
value_of-parse_uint [] = unfold value_of in omega arith
value_of-parse_uint (c ∷ s) = value_of-parse_digits 0 (c ∷ s) (omega arith)
