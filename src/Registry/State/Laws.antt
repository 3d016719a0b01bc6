-- ===== src/Registry/State/Laws.antt =====
-- `LoadState` on registries that share a token.
use ssle_project.Prelude.{
  ◌*◌, ◌/◌, ◌≡◌, ◌⊎◌, refl, sym, ◌∙◌, Option, some, Option-cases, inl, inr, [], Bytes, codes, arith,
}
use ssle_project.Prelude.Int.{ℤ, pos, negsuc}
use ssle_project.Files.{File, missing, stored, Disk, writable, write_file}
use ssle_project.Numbers.Decimal.{IsInt64}
use ssle_project.Numbers.Base64.{AreBytes}
use ssle_project.Registry.State.{
  unix_milli, of_unix_milli, load_state_token, CaTemplate, Pki, add_duration, ca_template, day,
  Files, Disks, encode_token, Directory, StartDisks, Chance, StateConfig, create_ca, keep_pair,
  load_state_ca, load_state_agent_ca, State, load_state, with_token, with_ca, with_agent_ca,
  initial_token, kept_token,
}
use ssle_project.Registry.State.Token.{to_the_milli, reads, given_token}

-- The whole seconds of a time, which are what a certificate holds.
unfoldable pub seconds : ℤ → ℤ
seconds (pos n) = pos (n / 1_000_000_000)
seconds (negsuc n) = negsuc (n / 1_000_000_000)

seconds-to_the_milli : (z : ℤ) → seconds (to_the_milli z) ≡ seconds z
unfolding seconds unix_milli of_unix_milli
seconds-to_the_milli (pos n) = ground arith
seconds-to_the_milli (negsuc n) = ground arith

ten_years_later :
    (z : ℤ)
    → seconds (add_duration (to_the_milli z) (10 * 365 * day))
      ≡ seconds (add_duration z (10 * 365 * day))
unfolding seconds unix_milli of_unix_milli add_duration
ten_years_later (pos n) = ground arith
ten_years_later (negsuc n) = ground arith

-- A self-signed certificate depends on the whole seconds of its times only: X.509 holds no more.
abbrev pub IsPrecise : Pki → Type 0
IsPrecise x =
    (k : x.Key) (t t' : CaTemplate)
    → t.organization ≡ t'.organization
    → t.organizational_unit ≡ t'.organizational_unit
    → seconds t.not_before ≡ seconds t'.not_before
    → seconds t.not_after ≡ seconds t'.not_after
    → x.self_sign k t ≡ x.self_sign k t'

same_pair :
    {a b : Bytes} {z t : ℤ}
    → ◌≡◌ {A = Option (Bytes × ℤ)} (some (a, z)) (some (b, t))
    → (a ≡ b) × (z ≡ t)
same_pair h = (cc, cc)

module _ (x : Pki) where
  create_ca-to_the_milli :
      IsPrecise x
      → (token : Bytes) (start : ℤ) (implicit ou : Bytes)
      → create_ca x token (to_the_milli start) implicit ou ≡ create_ca x token start implicit ou
  unfolding create_ca ca_template
  create_ca-to_the_milli precise token start implicit ou =
      precise (x.expand token implicit) (ca_template (to_the_milli start) ou) (ca_template start ou)
        refl refl (seconds-to_the_milli start) (ten_years_later start)

  keep_pair_lem :
      (disks : Disks) (made : Bytes × Bytes) (files : Files) (pair : x.Pair)
      → (keep_pair x disks made files).0 ≡ some pair
      → x.x509_key_pair made.0 made.1 ≡ some pair
  unfolding keep_pair
  keep_pair_lem disks made files pair h = ground arith

  module _ (disks : StartDisks) (chance : Chance x.Key) (config : StateConfig) where
    abbrev tokens : Directory → Option (Bytes × ℤ) × File
    tokens dir =
        load_state_token disks.token chance.token chance.token_time config.initial_token dir.token

    -- What a start that succeeds has loaded.
    record Loaded (dir : Directory) (st : State x) (dir' : Directory) : Type 0 where
      start : ℤ
      read : (tokens dir).0 ≡ some (st.token, start)
      kept : dir'.token ≡ (tokens dir).1
      ca :
          x.x509_key_pair
            (create_ca x st.token start (codes "CA") (codes "Servers")).0
            (create_ca x st.token start (codes "CA") (codes "Servers")).1
          ≡ some st.ca
      agent_ca :
          x.x509_key_pair
            (create_ca x st.token start (codes "Agent-CA") (codes "Agents")).0
            (create_ca x st.token start (codes "Agent-CA") (codes "Agents")).1
          ≡ some st.agent_ca

    load_state_lem :
        (dir dir' : Directory) (st : State x)
        → load_state x disks chance config dir ≡ (some st, dir')
        → Loaded dir st dir'
    unfolding load_state with_token with_ca with_agent_ca load_state_ca load_state_agent_ca
    load_state_lem dir dir' st h = elim (Option-cases (tokens dir).0) [
      | inl e ↦ ground arith
      | inr ((token, start), e) ↦
          let made = create_ca x token start (codes "CA") (codes "Servers") in
          let made' = create_ca x token start (codes "Agent-CA") (codes "Agents") in
          elim (Option-cases (keep_pair x disks.ca made dir.ca).0) [
            | inl f ↦ ground arith
            | inr (ca, f) ↦ elim (Option-cases (keep_pair x disks.agent_ca made' dir.agent_ca).0) [
              | inl g ↦ ground arith
              | inr (agent_ca, g) ↦
                  let pair = keep_pair_lem disks.ca made dir.ca ca f in
                  let pair' = keep_pair_lem disks.agent_ca made' dir.agent_ca agent_ca g in
                  record {
                    start = start;
                    read = ground arith;
                    kept = ground arith;
                    ca = ground arith;
                    agent_ca = ground arith;
                  }
            ]
          ]
    ]

  -- A start reads the shared token from its own file, or, with no file, from its configuration.
  abbrev pub Shares : Bytes → StateConfig → Directory → Type 0
  Shares text config dir =
      (dir.token ≡ stored text) ⊎ ((dir.token ≡ missing) × (config.initial_token ≡ text))

  founding_token :
      (disk : Disk) (random given text : Bytes) (now : ℤ) (f : File)
      → disk ≡ writable
      → given ≡ []
      → f ≡ missing
      → (load_state_token disk random now given f).1 ≡ stored text
      → ((load_state_token disk random now given f).0 ≡ some (random, now))
        × (encode_token random now ≡ text)
  unfolding load_state_token initial_token kept_token write_file
  founding_token disk random given text now f w none_given fresh file = (ground arith, ground arith)

  shared_token :
      (disks : StartDisks) (chance : Chance x.Key) (config : StateConfig) (dir : Directory)
      (token text : Bytes) (start : ℤ)
      → AreBytes token
      → IsInt64 (unix_milli start)
      → encode_token token start ≡ text
      → Shares text config dir
      → (tokens disks chance config dir).0 ≡ some (token, to_the_milli start)
  unfolding load_state_token kept_token
  shared_token disks chance config dir token text start bytes fits is_text (inl own) =
      ground (arith, reads token start bytes fits)
  shared_token disks chance config dir token text start bytes fits is_text (inr (fresh, given)) =
      ground (arith, reads token start bytes fits, given_token chance.token text chance.token_time)

  authority :
      (token token' token0 : Bytes) (start start' start0 : ℤ) (implicit ou : Bytes)
      (pair pair' : x.Pair)
      → x.x509_key_pair
          (create_ca x token start implicit ou).0
          (create_ca x token start implicit ou).1
        ≡ some pair
      → x.x509_key_pair
          (create_ca x token' start' implicit ou).0
          (create_ca x token' start' implicit ou).1
        ≡ some pair'
      → token ≡ token0
      → start ≡ start0
      → token' ≡ token0
      → start' ≡ to_the_milli start0
      → create_ca x token0 (to_the_milli start0) implicit ou ≡ create_ca x token0 start0 implicit ou
      → pair' ≡ pair
  authority token token' token0 start start' start0 implicit ou pair pair' a b c d c' d' same = cc

  -- A registry is founded with a random token, and its token file can be written. Any later start that
  -- succeeds and that reads the text of that file, from the file or, as another registry, from its
  -- configuration, loads the same token and the same two certificate authorities. Certificates hold whole
  -- seconds; the bytes of the token are below 256, and the time in milliseconds fits in 64 bits.
  pub load_state_shared :
      (disks disks' : StartDisks) (chance chance' : Chance x.Key) (config config' : StateConfig)
      (text : Bytes) (dir dir1 dir2 dir3 : Directory) (st st' : State x)
      → IsPrecise x
      → AreBytes chance.token
      → IsInt64 (unix_milli chance.token_time)
      → disks.token ≡ writable
      → config.initial_token ≡ []
      → dir.token ≡ missing
      → load_state x disks chance config dir ≡ (some st, dir1)
      → dir1.token ≡ stored text
      → Shares text config' dir2
      → load_state x disks' chance' config' dir2 ≡ (some st', dir3)
      → (st'.token ≡ st.token) × (st'.ca ≡ st.ca) × (st'.agent_ca ≡ st.agent_ca)
  load_state_shared disks disks' chance chance' config config' text dir dir1 dir2 dir3 st st'
        precise bytes fits w founding fresh first file shares second =
      let l = load_state_lem disks chance config dir dir1 st first in
      let l' = load_state_lem disks' chance' config' dir2 dir3 st' second in
      let (read, is_text) =
        founding_token disks.token chance.token config.initial_token text chance.token_time
          dir.token w founding fresh (sym l.kept ∙ file) in
      let read' =
        shared_token disks' chance' config' dir2 chance.token text chance.token_time bytes fits
          is_text shares in
      let (token, start) : (st.token ≡ chance.token) × (l.start ≡ chance.token_time) =
        same_pair (sym l.read ∙ read) in
      let (token', start') : (st'.token ≡ chance.token)
          × (l'.start ≡ to_the_milli chance.token_time) =
        same_pair (sym l'.read ∙ read') in
      let same = create_ca-to_the_milli precise chance.token chance.token_time in
      let ca = same (codes "CA") (codes "Servers") in
      let agent_ca = same (codes "Agent-CA") (codes "Agents") in
      (
        token' ∙ sym token,
        authority st.token st'.token chance.token l.start l'.start chance.token_time (codes "CA")
            (codes "Servers") st.ca st'.ca l.ca l'.ca token start token' start' ca,
        authority st.token st'.token chance.token l.start l'.start chance.token_time
            (codes "Agent-CA") (codes "Agents") st.agent_ca st'.agent_ca l.agent_ca l'.agent_ca
            token start token' start' agent_ca,
      )
