-- ===== src/Registry/State.antt =====
-- The stored state of a registry: registry/state/state.go.
pub mod Token
pub mod Laws
pub mod Hosts
use ssle_project.Prelude.{
  ℕ, suc, ◌+◌, ◌-◌, ◌*◌, ◌/◌, ◌%◌, Bool, true, false, not, ◌&&◌, ◌||◌, Option, none, some, List, [],
  ◌∷◌, ◌++◌, drop, length, Bytes, codes, equal, has_prefix, leb, ◌==◌, if◌then◌else◌,
}
use ssle_project.Prelude.Int.{ℤ, pos, negsuc}
use ssle_project.Files.{File, missing, unreadable, stored, Disk, write_file}
use ssle_project.Numbers.Decimal.{parse_int, format_int}
use ssle_project.Numbers.Base64.{encode, decode}
use ssle_project.Config.{Addr, invalid, v4, v6, Hostname, is_ipv4, to4}

-- Times are numbers of nanoseconds. `UnixMilli` of a time, and of a number.
unfoldable pub unix_milli : ℤ → ℤ
unix_milli (pos n) = pos (n / 1_000_000)
unix_milli (negsuc n) = negsuc (n / 1_000_000)

unfoldable pub of_unix_milli : ℤ → ℤ
of_unix_milli (pos m) = pos (m * 1_000_000)
of_unix_milli (negsuc m) = negsuc (m * 1_000_000 + 999_999)

-- `bytes.SplitN(s, "::", 2)` with both parts read; none is an index out of range.
unfoldable pub split_colons : Bytes → Option (Bytes × Bytes)
split_colons [] = none
split_colons (c ∷ s) =
    let rest = split_colons s in
    if c == b':' && has_prefix (b':' ∷ []) s
    then some ([], drop 1 s)
    else elim rest [ none ↦ none | some (front, back) ↦ some (c ∷ front, back) ]

unfoldable pub token_at : Option ℤ → Option Bytes → Option (Bytes × ℤ)
token_at (some milli) (some token) = some (token, of_unix_milli milli)
token_at _ token = none

-- The token and its start time; none is the end of the process.
unfoldable pub decode_token : Bytes → Option (Bytes × ℤ)
unfolding split_colons token_at
decode_token text = elim (split_colons text) [
  | none ↦ none
  | some (milli, raw) ↦ token_at (parse_int milli) (decode raw)
]

-- The text that is kept and shared with other registries.
unfoldable pub encode_token : Bytes → ℤ → Bytes
encode_token token start = format_int (unix_milli start) ++ (b':' ∷ b':' ∷ encode token)

-- The token of a first start: a random one, or the one that the configuration gives.
unfoldable pub initial_token : Bytes → ℤ → Bytes → Option (Bytes × ℤ)
unfolding decode_token
initial_token random now [] = some (random, now)
initial_token random now (c ∷ given) = decode_token (c ∷ given)

unfoldable pub kept_token : Disk → Option (Bytes × ℤ) → Option (Bytes × ℤ) × File
kept_token disk none = (none, missing)
kept_token disk (some (token, start)) =
    (some (token, start), (write_file disk (encode_token token start) missing).1)

-- An error of the write is not looked at.
unfoldable pub load_state_token : Disk → Bytes → ℤ → Bytes → File → Option (Bytes × ℤ) × File
unfolding initial_token kept_token
load_state_token disk random now given missing = kept_token disk (initial_token random now given)
load_state_token disk random now given (stored text) = (decode_token text, stored text)
load_state_token disk random now given unreadable = (none, unreadable)

-- The templates of a certificate authority and of the server, without their constant fields.
pub record CaTemplate : Type 0 where
  pub organization : List Bytes
  pub organizational_unit : List Bytes
  pub not_before : ℤ
  pub not_after : ℤ

pub record PeerTemplate : Type 0 where
  pub organization : List Bytes
  pub organizational_unit : List Bytes
  pub common_name : Bytes
  pub dns_names : List Bytes
  pub ip_addresses : List Bytes
  pub not_before : ℤ
  pub not_after : ℤ

-- `hkdf`, `ed25519` and `x509`: the key that a token and a label give, a certificate and its key in
-- PEM, and `tls.X509KeyPair`. `fresh` is a random key.
pub record Pki : Type 1 where
  pub Key : Type 0
  pub Pair : Type 0
  pub expand : Bytes → Bytes → Key
  pub self_sign : Key → CaTemplate → Bytes × Bytes
  pub issue : Pair → Key → PeerTemplate → Bytes × Bytes
  pub x509_key_pair : Bytes → Bytes → Option Pair

-- A time and a duration.
unfoldable pub add_duration : ℤ → ℕ → ℤ
add_duration (pos n) d = pos (n + d)
add_duration (negsuc n) d = if leb (suc n) d then pos (d - suc n) else negsuc (n - d)

abbrev pub day : ℕ
day = 24 * 3600 * 1_000_000_000

abbrev pub project : List Bytes
project = codes "SSLE Project 01" ∷ []

unfoldable pub ca_template : ℤ → Bytes → CaTemplate
unfolding add_duration
ca_template start ou = record {
  organization = project;
  organizational_unit = ou ∷ [];
  not_before = start;
  not_after = add_duration start (10 * 365 * day);
}

-- `net.IP.Equal`: an IPv4 address is the same in 4 and in 16 bytes.
unfoldable pub equal_ip : Bytes → Bytes → Bool
unfolding to4
equal_ip a b =
    if is_ipv4 a && is_ipv4 b then equal (to4 a) (to4 b) else length a == length b && equal a b

unfoldable pub contains : (Bytes → Bool) → List Bytes → Bool
contains test [] = false
contains test (x ∷ xs) = test x || contains test xs

append_ip : Bytes → PeerTemplate → PeerTemplate
append_ip ip cert =
    if contains (λ a. equal_ip a ip) cert.ip_addresses
    then cert
    else record cert { ip_addresses = cert.ip_addresses ++ ip ∷ [] }

append_dns : Bytes → PeerTemplate → PeerTemplate
append_dns name cert =
    if contains (equal name) cert.dns_names
    then cert
    else record cert { dns_names = cert.dns_names ++ name ∷ [] }

add_address : Addr → Bytes → PeerTemplate → PeerTemplate
unfolding append_ip append_dns
add_address invalid fqdn cert = append_dns fqdn cert
add_address (v4 ip) fqdn cert = append_ip ip cert
add_address (v6 ip) fqdn cert = append_ip ip cert

unfoldable pub add_hostname_to_cert : Hostname → PeerTemplate → PeerTemplate
unfolding add_address
add_hostname_to_cert hostname cert = add_address hostname.addr hostname.fqdn cert

-- What the state takes of the configuration.
pub record StateConfig : Type 0 where
  pub name : Bytes
  pub initial_token : Bytes
  pub peer_advertise_hostname : Hostname
  pub agent_api_advertise_hostname : Hostname

unfoldable pub bare_template : ℤ → StateConfig → PeerTemplate
unfolding add_duration
bare_template now config = record {
  organization = project;
  organizational_unit = codes "Servers" ∷ [];
  common_name = config.name;
  dns_names = codes "registry.cluster.internal" ∷ [];
  ip_addresses = [];
  not_before = now;
  not_after = add_duration now (90 * day);
}

unfoldable pub peer_template : ℤ → StateConfig → PeerTemplate
unfolding bare_template add_hostname_to_cert
peer_template now config =
    add_hostname_to_cert config.agent_api_advertise_hostname
      (add_hostname_to_cert config.peer_advertise_hostname (bare_template now config))

-- A certificate file and its key file.
pub record Files : Type 0 where
  pub crt : File
  pub key : File

pub record Disks : Type 0 where
  pub crt : Disk
  pub key : Disk

-- The directory of the state.
pub record Directory : Type 0 where
  pub token : File
  pub ca : Files
  pub agent_ca : Files
  pub peer : Files

-- How the writes of one start go.
pub record StartDisks : Type 0 where
  pub token : Disk
  pub ca : Disks
  pub agent_ca : Disks
  pub peer : Disks

-- What a start finds outside: a random token, a random key for the server, and the time, which is read
-- for the token and for the certificate of the server.
pub record Chance (K : Type 0) : Type 0 where
  pub token : Bytes
  pub key : K
  pub token_time : ℤ
  pub crt_time : ℤ

module _ (x : Pki) where
  unfoldable pub create_ca : Bytes → ℤ → Bytes → Bytes → Bytes × Bytes
  create_ca token start implicit ou = x.self_sign (x.expand token implicit) (ca_template start ou)

  unfoldable pub create_peer_crt : x.Key → ℤ → StateConfig → x.Pair → Bytes × Bytes
  create_peer_crt fresh now config ca = x.issue ca fresh (peer_template now config)

  -- The pair is made, and then both files are written, the key behind the certificate; none is the
  -- end of the process.
  unfoldable pub keep_pair : Disks → Bytes × Bytes → Files → Option x.Pair × Files
  unfolding write_file
  keep_pair disks made files = elim (x.x509_key_pair made.0 made.1) [
    | none ↦ (none, files)
    | some pair ↦
        let (crt_written, crt) = write_file disks.crt made.0 files.crt in
        let (key_written, key) = write_file disks.key made.1 files.key in
        elim crt_written [
          | false ↦ (none, record { crt = crt; key = files.key })
          | true ↦ (if key_written then some pair else none, record { crt = crt; key = key })
        ]
  ]

  unfoldable pub load_state_ca : Disks → Bytes → ℤ → Files → Option x.Pair × Files
  unfolding create_ca keep_pair
  load_state_ca disks token start files =
      keep_pair disks (create_ca token start (codes "CA") (codes "Servers")) files

  unfoldable pub load_state_agent_ca : Disks → Bytes → ℤ → Files → Option x.Pair × Files
  unfolding create_ca keep_pair
  load_state_agent_ca disks token start files =
      keep_pair disks (create_ca token start (codes "Agent-CA") (codes "Agents")) files

  unfoldable pub load_state_peer_crt :
      Disks → x.Key → ℤ → StateConfig → x.Pair → Files → Option x.Pair × Files
  unfolding create_peer_crt keep_pair
  load_state_peer_crt disks fresh now config ca files =
      keep_pair disks (create_peer_crt fresh now config ca) files

  pub record State : Type 0 where
    pub token : Bytes
    pub ca : x.Pair
    pub agent_ca : x.Pair
    pub server_key_pair : x.Pair

  module _ (disks : StartDisks) (chance : Chance x.Key) (config : StateConfig) where
    unfoldable pub with_agent_ca :
        Directory → Bytes → x.Pair → Option x.Pair → Option State × Directory
    with_agent_ca dir token ca none = (none, dir)
    with_agent_ca dir token ca (some agent_ca) =
        let (server, peer) =
          load_state_peer_crt disks.peer chance.key chance.crt_time config ca dir.peer in
        (
          elim server [
            | none ↦ none
            | some pair ↦
                some
                  (record { token = token; ca = ca; agent_ca = agent_ca; server_key_pair = pair })
          ],
          record dir { peer = peer },
        )

    unfoldable pub with_ca : Directory → Bytes → ℤ → Option x.Pair → Option State × Directory
    unfolding with_agent_ca
    with_ca dir token start none = (none, dir)
    with_ca dir token start (some ca) =
        let (agent_ca, files) = load_state_agent_ca disks.agent_ca token start dir.agent_ca in
        with_agent_ca (record dir { agent_ca = files }) token ca agent_ca

    unfoldable pub with_token : Directory → Option (Bytes × ℤ) → Option State × Directory
    unfolding with_ca
    with_token dir none = (none, dir)
    with_token dir (some (token, start)) =
        let (ca, files) = load_state_ca disks.ca token start dir.ca in
        with_ca (record dir { ca = files }) token start ca

    -- The directory exists already, or it could be made.
    unfoldable pub load_state : Directory → Option State × Directory
    unfolding with_token
    load_state dir =
        let (token, file) =
          load_state_token disks.token chance.token chance.token_time config.initial_token
            dir.token in
        with_token (record dir { token = file }) token
