-- ===== src/Numbers/Base64.antt =====
-- `base64.StdEncoding`.
use ssle_project.Prelude.{
  ℕ, ◌+◌, ◌-◌, ◌*◌, ◌/◌, ◌%◌, ◌<◌, ◌≡◌, refl, false, ◌&&◌, ◌||◌, Option, none, some, [], ◌∷◌, Bytes,
  leb, ltb, ◌==◌, All, arith, if◌then◌else◌,
}

-- The alphabet, and the place of a byte in it.
unfoldable pub letter : ℕ → ℕ
letter v =
    if ltb v 26
    then b'A' + v
    else if ltb v 52
    then b'a' + v - 26
    else if ltb v 62
    then b'0' + v - 52
    else if v == 62
    then b'+'
    else b'/'

unfoldable pub place : ℕ → Option ℕ
place c =
    if leb b'A' c && leb c b'Z'
    then some (c - b'A')
    else if leb b'a' c && leb c b'z'
    then some (c - b'a' + 26)
    else if leb b'0' c && leb c b'9'
    then some (c - b'0' + 52)
    else if c == b'+'
    then some 62
    else if c == b'/'
    then some 63
    else none

-- `Encode`: four letters for three bytes, with padding for a last group of one or two.
unfoldable pub encode : Bytes → Bytes
unfolding letter
encode [] = []
encode (a ∷ []) = letter (a / 4) ∷ letter (a % 4 * 16) ∷ b'=' ∷ b'=' ∷ []
encode (a ∷ b ∷ []) =
    letter (a / 4) ∷ letter (a % 4 * 16 + b / 16) ∷ letter (b % 16 * 4) ∷ b'=' ∷ []
encode (a ∷ b ∷ c ∷ bytes) =
    letter (a / 4)
    ∷ letter (a % 4 * 16 + b / 16)
    ∷ letter (b % 16 * 4 + c / 64)
    ∷ letter (c % 64)
    ∷ encode bytes

one_byte : Option ℕ → Option ℕ → Option Bytes
one_byte (some p) (some q) = some ((p * 4 + q / 16) ∷ [])
one_byte _ q = none

two_bytes : Option ℕ → Option ℕ → Option ℕ → Option Bytes
two_bytes (some p) (some q) (some r) = some ((p * 4 + q / 16) ∷ (q % 16 * 16 + r / 4) ∷ [])
two_bytes _ q r = none

three_bytes : Option ℕ → Option ℕ → Option ℕ → Option ℕ → Option Bytes → Option Bytes
three_bytes (some p) (some q) (some r) (some t) (some rest) =
    some ((p * 4 + q / 16) ∷ (q % 16 * 16 + r / 4) ∷ (r % 4 * 64 + t) ∷ rest)
three_bytes _ q r t rest = none

-- A group with padding, which has to be the last one.
padded : ℕ → ℕ → ℕ → Bytes → Option Bytes
unfolding one_byte two_bytes place
padded a b c [] =
    if c == b'=' then one_byte (place a) (place b) else two_bytes (place a) (place b) (place c)
padded a b c (_ ∷ _) = none

groups : Bytes → Option Bytes
unfolding padded three_bytes place
groups [] = some []
groups (a ∷ b ∷ c ∷ d ∷ s) =
    let rest = groups s in
    if d == b'=' then padded a b c s else three_bytes (place a) (place b) (place c) (place d) rest
groups _ = none

-- `Decode` skips the bytes that end a line.
strip : Bytes → Bytes
strip [] = []
strip (c ∷ s) = let rest = strip s in if c == b'\n' || c == b'\r' then rest else c ∷ rest

unfoldable pub decode : Bytes → Option Bytes
unfolding strip groups
decode s = groups (strip s)

-- A letter has its place, and is no padding and no end of a line.
letter_lem :
    (v : ℕ)
    → v < 64
    → (place (letter v) ≡ some v)
      × ((letter v == b'=') ≡ false)
      × ((letter v == b'\n') ≡ false)
      × ((letter v == b'\r') ≡ false)
unfolding letter place
letter_lem v h = ground arith

place-lt : (c v : ℕ) → place c ≡ some v → v < 64
unfolding place
place-lt c v h = ground arith

abbrev pub AreBytes : Bytes → Type 0
AreBytes = All (λ b. b < 256)

groups-encode : (bytes : Bytes) → AreBytes bytes → groups (encode bytes) ≡ some bytes
unfolding groups encode
groups-encode [] h = refl
groups-encode (a ∷ []) h = ground (arith, letter_lem (a / 4), letter_lem (a % 4 * 16))
groups-encode (a ∷ b ∷ []) h =
    ground (arith, letter_lem (a / 4), letter_lem (a % 4 * 16 + b / 16), letter_lem (b % 16 * 4))
groups-encode (a ∷ b ∷ c ∷ bytes) h = ground (
  arith,
  letter_lem (a / 4),
  letter_lem (a % 4 * 16 + b / 16),
  letter_lem (b % 16 * 4 + c / 64),
  letter_lem (c % 64),
  groups-encode bytes h.1.1.1,
)

strip-encode : (bytes : Bytes) → AreBytes bytes → strip (encode bytes) ≡ encode bytes
unfolding strip encode
strip-encode [] h = refl
strip-encode (a ∷ []) h = ground (arith, letter_lem (a / 4), letter_lem (a % 4 * 16))
strip-encode (a ∷ b ∷ []) h =
    ground (arith, letter_lem (a / 4), letter_lem (a % 4 * 16 + b / 16), letter_lem (b % 16 * 4))
strip-encode (a ∷ b ∷ c ∷ bytes) h = ground (
  arith,
  letter_lem (a / 4),
  letter_lem (a % 4 * 16 + b / 16),
  letter_lem (b % 16 * 4 + c / 64),
  letter_lem (c % 64),
  strip-encode bytes h.1.1.1,
)

pub decode-encode : (bytes : Bytes) → AreBytes bytes → decode (encode bytes) ≡ some bytes
unfolding decode
decode-encode bytes h = rw (strip-encode bytes h) (groups-encode bytes h)
