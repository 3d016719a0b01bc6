-- ===== src/Numbers/Hex.antt =====
-- `hex.DecodeString`.
use ssle_project.Prelude.{
  ℕ, ◌+◌, ◌-◌, ◌*◌, ◌&&◌, Option, none, some, [], ◌∷◌, Bytes, leb, if◌then◌else◌,
}

hex_digit : ℕ → Option ℕ
hex_digit c =
    if leb b'0' c && leb c b'9'
    then some (c - b'0')
    else if leb b'a' c && leb c b'f'
    then some (c - b'a' + 10)
    else if leb b'A' c && leb c b'F'
    then some (c - b'A' + 10)
    else none

push_pair : Option ℕ → Option ℕ → Option Bytes → Option Bytes
push_pair (some high) (some low) (some rest) = some ((high * 16 + low) ∷ rest)
push_pair _ low rest = none

unfoldable pub decode_hex : Bytes → Option Bytes
unfolding hex_digit push_pair
decode_hex [] = some []
decode_hex (c ∷ []) = none
decode_hex (c ∷ d ∷ s) = push_pair (hex_digit c) (hex_digit d) (decode_hex s)
