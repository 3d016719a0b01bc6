-- ===== src/Tests/States.antt =====
-- The stored state of a registry at concrete inputs.
use ssle_project.Prelude.{
  ◌≡◌, refl, inr, true, equal, has_prefix, Option, some, [], ◌∷◌, ◌++◌, Bytes, codes, arith,
}
use ssle_project.Prelude.Int.{pos}
use ssle_project.Files.{missing, writable, write_file}
use ssle_project.Numbers.Decimal.{format_int, format_uint, digits, parse_int}
use ssle_project.Numbers.Base64.{AreBytes, encode, letter, decode}
use ssle_project.Config.{Hostname, v4, invalid}
use ssle_project.Registry.State.{
  unix_milli, of_unix_milli, split_colons, token_at, decode_token, encode_token, initial_token,
  kept_token, add_duration, ca_template, bare_template, create_ca, create_peer_crt, keep_pair,
  load_state_ca, load_state_agent_ca, load_state_peer_crt, with_token, with_ca, with_agent_ca,
  load_state_token, Pki, Directory, StartDisks, Chance, StateConfig, State, load_state,
  peer_template, contains,
}
use ssle_project.Registry.State.Laws.{seconds, IsPrecise, load_state_shared}
use ssle_project.Registry.State.Hosts.{Covers, peer_template-Covers}

abbrev two_bytes : Bytes
two_bytes = 7 ∷ 255 ∷ []

abbrev shared_text : Bytes
shared_text = codes "1::B/8="

two_bytes-AreBytes : AreBytes two_bytes
two_bytes-AreBytes = ground arith

-- Keys and certificates are texts: a certificate holds whole seconds and the unit.
abbrev pki : Pki
pki = record {
  Key = Bytes;
  Pair = Bytes × Bytes;
  expand = λ token implicit. token ++ implicit;
  self_sign = λ k t. (format_int (seconds t.not_before) ++ k, k);
  issue = λ ca k t. (t.common_name, k);
  x509_key_pair = λ crt key. some (crt, key);
}

pki-IsPrecise : IsPrecise pki
pki-IsPrecise k t t' same_organization same_unit same_start same_end = rw same_start

abbrev no_directory : Directory
no_directory = record {
  token = missing;
  ca = record { crt = missing; key = missing };
  agent_ca = record { crt = missing; key = missing };
  peer = record { crt = missing; key = missing };
}

abbrev disks : StartDisks
disks = record {
  token = writable;
  ca = record { crt = writable; key = writable };
  agent_ca = record { crt = writable; key = writable };
  peer = record { crt = writable; key = writable };
}

abbrev hostname : Hostname
hostname = record { fqdn = []; addr = v4 (10 ∷ 0 ∷ 0 ∷ 1 ∷ []) }

abbrev config : Bytes → StateConfig
config given = record {
  name = codes "r";
  initial_token = given;
  peer_advertise_hostname = hostname;
  agent_api_advertise_hostname = record { fqdn = codes "r.example"; addr = invalid };
}

abbrev chance : Bytes → Bytes → Chance Bytes
chance token key = record {
  token = token;
  key = key;
  token_time = pos 1_500_000;
  crt_time = pos 2_000_000;
}

abbrev started : Chance Bytes → Bytes → Option (State pki) × Directory
started c given = load_state pki disks c (config given) no_directory

-- What the registry that is given the token loads: its server has a key of its own.
abbrev loaded : Bytes → State pki
loaded key = record {
  token = two_bytes;
  ca = (codes "0" ++ (two_bytes ++ codes "CA"), two_bytes ++ codes "CA");
  agent_ca = (codes "0" ++ (two_bytes ++ codes "Agent-CA"), two_bytes ++ codes "Agent-CA");
  server_key_pair = (codes "r", key);
}

load_state_shared_example :
    ((loaded (codes "j")).token ≡ (loaded (codes "k")).token)
    × ((loaded (codes "j")).ca ≡ (loaded (codes "k")).ca)
    × ((loaded (codes "j")).agent_ca ≡ (loaded (codes "k")).agent_ca)
unfolding load_state with_token with_ca with_agent_ca load_state_ca load_state_agent_ca
    load_state_peer_crt create_ca create_peer_crt keep_pair ca_template add_duration peer_template
    bare_template load_state_token write_file initial_token kept_token encode_token decode_token
    token_at split_colons parse_int unix_milli of_unix_milli format_int digits format_uint encode
    letter decode seconds has_prefix contains equal
load_state_shared_example =
    load_state_shared pki disks disks (chance two_bytes (codes "k")) (chance [] (codes "j"))
      (config []) (config shared_text) shared_text no_directory
      (started (chance two_bytes (codes "k")) []).1 no_directory
      (started (chance [] (codes "j")) shared_text).1 (loaded (codes "k")) (loaded (codes "j"))
      pki-IsPrecise two_bytes-AreBytes (ground arith) refl refl refl refl refl (inr (refl, refl))
      refl

peer_template-Covers_example :
    Covers hostname (peer_template (pos 0) (config []))
    × Covers (config []).agent_api_advertise_hostname (peer_template (pos 0) (config []))
    × (contains
          (equal (codes "registry.cluster.internal"))
          (peer_template (pos 0) (config [])).dns_names
        ≡ true)
peer_template-Covers_example = peer_template-Covers (pos 0) (config [])
