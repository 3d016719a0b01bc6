-- ===== src/Registry/State/Token.antt =====
-- The token file: what is written to it and what is read from it.
use ssle_project.Prelude.{
  ◌≡◌, ◌≢◌, refl, none, some, Option-cases, inl, inr, [], ◌∷◌, ◌++◌, Bytes, has_prefix, arith,
}
use ssle_project.Prelude.Int.{ℤ, pos, negsuc}
use ssle_project.Files.{File, missing, stored, Disk, writable, write_file}
use ssle_project.Numbers.Decimal.{
  Lacks, IsInt64, format_int, parse_int-format_int, format_int-Lacks,
}
use ssle_project.Numbers.Base64.{AreBytes, encode, decode-encode}
use ssle_project.Registry.State.{
  unix_milli, of_unix_milli, split_colons, decode_token, encode_token, initial_token,
  load_state_token,
}

unix_milli-of_unix_milli : (z : ℤ) → unix_milli (of_unix_milli z) ≡ z
unfolding unix_milli of_unix_milli
unix_milli-of_unix_milli (pos m) = ground arith
unix_milli-of_unix_milli (negsuc m) = ground arith

split_colons-append :
    (front back : Bytes)
    → Lacks b':' front
    → split_colons (front ++ (b':' ∷ b':' ∷ back)) ≡ some (front, back)
unfolding split_colons has_prefix
split_colons-append [] back h = refl
split_colons-append (c ∷ front) back h = ground (arith, split_colons-append front back h.1)

pub decode_token-encode_token :
    (token : Bytes) (start : ℤ)
    → AreBytes token
    → IsInt64 (unix_milli start)
    → decode_token (encode_token token start) ≡ some (token, of_unix_milli (unix_milli start))
unfolding decode_token encode_token
decode_token-encode_token token start bytes fits = ground (
  arith,
  split_colons-append (format_int (unix_milli start)) (encode token)
      (format_int-Lacks b':' (unix_milli start) (omega arith)),
  parse_int-format_int (unix_milli start) fits,
  decode-encode token bytes,
)

-- What a start time is after it has been kept.
abbrev pub to_the_milli : ℤ → ℤ
to_the_milli start = of_unix_milli (unix_milli start)

pub given_token :
    (random text : Bytes) (now : ℤ)
    → decode_token text ≢ none
    → initial_token random now text ≡ decode_token text
unfolding initial_token decode_token split_colons
given_token random [] now h = absurd (h refl)
given_token random (c ∷ text) now h = refl

encode_token-to_the_milli :
    (token : Bytes) (start : ℤ) → encode_token token (to_the_milli start) ≡ encode_token token start
unfolding encode_token
encode_token-to_the_milli token start = rw (unix_milli-of_unix_milli (unix_milli start))

module _ (token : Bytes) (start : ℤ) (bytes : AreBytes token)
    (fits : IsInt64 (unix_milli start)) where
  abbrev pub text : Bytes
  text = encode_token token start

  pub reads : decode_token text ≡ some (token, to_the_milli start)
  reads = decode_token-encode_token token start bytes fits

  pub load_again :
      (disk : Disk) (random given : Bytes) (now : ℤ)
      → load_state_token disk random now given (stored text)
        ≡ (some (token, to_the_milli start), stored text)
  unfolding load_state_token
  load_again disk random given now = rw reads

  pub load_joined :
      (random : Bytes) (now : ℤ)
      → load_state_token writable random now text missing
        ≡ (some (token, to_the_milli start), stored text)
  unfolding load_state_token write_file
  load_joined random now =
      ground (arith, reads, given_token random text now, encode_token-to_the_milli token start)

-- The first start of a registry whose token file can be written keeps a text in it: every later start
-- reads the same token from it, with its start time rounded down to the millisecond, and so does the
-- first start of another registry that is given the text as its token, and that keeps the same text.
-- The bytes of the token are below 256, and the time in milliseconds fits in 64 bits.
pub load_state_token_shared :
    (random given : Bytes) (now : ℤ) (token : Bytes) (start : ℤ) (f : File)
    → load_state_token writable random now given missing ≡ (some (token, start), f)
    → AreBytes token
    → IsInt64 (unix_milli start)
    → (text : Bytes) × (f ≡ stored text)
      × ((disk : Disk) (random' given' : Bytes) (now' : ℤ)
          → load_state_token disk random' now' given' f ≡ (some (token, to_the_milli start), f))
      × ((random' : Bytes) (now' : ℤ)
          → load_state_token writable random' now' text missing
            ≡ (some (token, to_the_milli start), f))
unfolding load_state_token write_file
load_state_token_shared random given now token start f first bytes fits =
    let here : f ≡ stored (encode_token token start) =
      elim (Option-cases (initial_token random now given)) [
        | inl e ↦ ground arith
        | inr (pair, e) ↦ ground arith
      ] in
    (
      encode_token token start,
      here,
      λ disk random' given' now'.
          rw here (load_again token start bytes fits disk random' given' now'),
      λ random' now'. rw here (load_joined token start bytes fits random' now'),
    )
