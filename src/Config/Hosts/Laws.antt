-- ===== src/Config/Hosts/Laws.antt =====
-- Loaded configurations, and printed hosts.
use ssle_project.Prelude.{
  ℕ, ◌-◌, ◌^◌, ◌<◌, ◌≡◌, ◌≢◌, refl, true, false, ◌==◌, Option, none, some, inl, inr, [], ◌∷◌, ◌++◌,
  Bytes, arith, if◌then◌else◌, ◌⊎◌,
}
use ssle_project.Numbers.Decimal.{
  parse_uint, parsed, format_uint, Lacks, parse_uint-format_uint, format_int, format_int-Lacks,
}
use ssle_project.Prelude.Int.{pos}
use ssle_project.Files.{stored}
use ssle_project.Config.{Addr, invalid, v4, v6, Hostname, load_ports}
use ssle_project.Config.Hosts.{
  printed_host, host_with_port, is_valid, Config, Machine, agent_hostname, found_hostname,
}

-- The texts before and behind the last colon, where `net.SplitHostPort` cuts an address.
unfoldable pub split_last : Bytes → Option (Bytes × Bytes)
split_last [] = none
split_last (c ∷ s) =
    let rest = split_last s in
    elim rest [
      | some (front, back) ↦ some (c ∷ front, back)
      | none ↦ if c == b':' then some ([], s) else none
    ]

split_last-Lacks : (back : Bytes) → Lacks b':' back → split_last back ≡ none
unfolding split_last
split_last-Lacks [] h = refl
split_last-Lacks (c ∷ back) h = rw (split_last-Lacks back h.1, h.0)

split_last-append :
    (front back : Bytes)
    → Lacks b':' back
    → split_last (front ++ (b':' ∷ back)) ≡ some (front, back)
unfolding split_last
split_last-append [] back h = rw (split_last-Lacks back h)
split_last-append (c ∷ front) back h = rw (split_last-append front back h)

format_uint-Lacks : (n : ℕ) → Lacks b':' (format_uint n)
unfolding format_int
format_uint-Lacks n = format_int-Lacks b':' (pos n) (omega arith)

-- The text in front of a closing bracket at the end.
unfoldable pub bracketed : Bytes → Option Bytes
bracketed [] = none
bracketed (c ∷ []) = if c == b']' then some [] else none
bracketed (c ∷ d ∷ s) = elim (bracketed (d ∷ s)) [ none ↦ none | some t ↦ some (c ∷ t) ]

bracketed-append : (t : Bytes) → bracketed (t ++ (b']' ∷ [])) ≡ some t
unfolding bracketed
bracketed-append [] = refl
bracketed-append (c ∷ []) = refl
bracketed-append (c ∷ d ∷ t) = rw (bracketed-append (d ∷ t)) refl

-- The host in front of a port, as Go writes network addresses: in brackets, or with no colon.
unfoldable pub read_host : Bytes → Option Bytes
unfolding bracketed split_last
read_host [] = some []
read_host (c ∷ s) =
    if c == b'['
    then bracketed s
    else elim (split_last (c ∷ s)) [ none ↦ some (c ∷ s) | some _ ↦ none ]

-- The host and the port of a network address.
unfoldable pub read_host_port : Bytes → Option (Bytes × Bytes)
unfolding split_last read_host
read_host_port s = elim (split_last s) [
  | none ↦ none
  | some (front, port) ↦ elim (read_host front) [ none ↦ none | some host ↦ some (host, port) ]
]

-- The text of a host: its address, or its name if it has none.
abbrev pub host_text : (Addr → Bytes) → Addr → Bytes → Bytes
host_text print invalid fqdn = fqdn
host_text print (v4 ip) fqdn = print (v4 ip)
host_text print (v6 ip) fqdn = print (v6 ip)

-- Only the text of an IPv6 address may have colons and opening brackets.
abbrev pub Readable : (Addr → Bytes) → Addr → Bytes → Type 0
Readable print addr fqdn =
    ((ip : Bytes) × (addr ≡ v6 ip))
    ⊎ (Lacks b':' (host_text print addr fqdn) × Lacks b'[' (host_text print addr fqdn))

read_host_plain : (t : Bytes) → Lacks b':' t → Lacks b'[' t → read_host t ≡ some t
unfolding read_host
read_host_plain [] no_colon no_bracket = refl
read_host_plain (c ∷ t) no_colon no_bracket =
    rw (split_last-Lacks (c ∷ t) no_colon, no_bracket.0) refl

read_host-printed_host :
    (print : Addr → Bytes) (addr : Addr) (fqdn : Bytes)
    → Readable print addr fqdn
    → read_host (printed_host print addr fqdn) ≡ some (host_text print addr fqdn)
unfolding printed_host read_host
read_host-printed_host print invalid fqdn (inl (ip, sixth)) = cc
read_host-printed_host print invalid fqdn (inr (no_colon, no_bracket)) =
    read_host_plain fqdn no_colon no_bracket
read_host-printed_host print (v4 ip) fqdn (inl (other, sixth)) = cc
read_host-printed_host print (v4 ip) fqdn (inr (no_colon, no_bracket)) =
    read_host_plain (print (v4 ip)) no_colon no_bracket
read_host-printed_host print (v6 ip) fqdn readable = bracketed-append (print (v6 ip))

-- A host that is printed with a port can be read back: reading the address, in which a host with a colon
-- has to stand in brackets, gives the text of the host, and digits that read as the port. The host is an
-- IPv6 address, or its text has no colon and no opening bracket, and the port is one of 16 bits.
pub read_host_port-host_with_port :
    (print : Addr → Bytes) (hostname : Hostname) (port : ℕ)
    → Readable print hostname.addr hostname.fqdn
    → port < 2 ^ 16
    → (digits : Bytes) × (read_host_port (host_with_port print hostname port)
        ≡ some (host_text print hostname.addr hostname.fqdn, digits))
      × (parse_uint (2 ^ 16 - 1) digits ≡ parsed port)
unfolding host_with_port read_host_port
read_host_port-host_with_port print hostname port readable h =
    let front = printed_host print hostname.addr hostname.fqdn in
    (
      format_uint port,
      ground (
        arith,
        split_last-append front (format_uint port) (format_uint-Lacks port),
        read_host-printed_host print hostname.addr hostname.fqdn readable,
      ),
      parse_uint-format_uint (2 ^ 16 - 1) port (omega arith),
    )

-- The host name that was given, or, without one, another.
abbrev pub Advertised : Hostname → Hostname → Hostname → Type 0
Advertised given fallback hostname =
    ((is_valid given ≡ true) × (hostname ≡ given))
    ⊎ ((is_valid given ≡ false) × (hostname ≡ fallback))

module _ (m : Machine) where
  -- The token of the environment, or, if a file is named, the trimmed text of that file.
  abbrev pub TokenOf : Config → Bytes → Type 0
  TokenOf env token =
      ((env.initial_token_file ≡ []) × (token ≡ env.initial_token))
      ⊎ ((text : Bytes) × (m.read_file env.initial_token_file ≡ stored text)
          × (token ≡ m.trim_space text))

  -- The host name that was given, or, without one, the best address for the registry that is joined.
  abbrev pub PeerName : Config → Hostname → Type 0
  PeerName env hostname =
      ((is_valid env.peer_advertise_hostname ≡ true) × (hostname ≡ env.peer_advertise_hostname))
      ⊎ ((is_valid env.peer_advertise_hostname ≡ false) × (found_hostname m env ≡ some hostname))

  -- What a configuration that is loaded takes of the environment.
  pub record LoadedFrom (env config : Config) : Type 0 where
    pub token : TokenOf env config.initial_token
    pub joins : (config.join_url ≡ []) ⊎ (config.initial_token ≢ [])
    pub peer : PeerName env config.peer_advertise_hostname
    pub agent :
        Advertised env.agent_api_advertise_hostname config.peer_advertise_hostname
          config.agent_api_advertise_hostname
    pub ports : config.ports ≡ load_ports env.ports
    pub name : config.name ≡ env.name
    pub dir : config.dir ≡ env.dir
    pub join_url : config.join_url ≡ env.join_url
    pub peer_listen : config.peer_listen_addr ≡ env.peer_listen_addr
    pub agent_listen : config.agent_api_listen_addr ≡ env.agent_api_listen_addr

  completed : Config → Hostname → Config
  completed config peer = record config {
    peer_advertise_hostname = peer;
    agent_api_advertise_hostname = agent_hostname config.agent_api_advertise_hostname peer;
    ports = load_ports config.ports;
  }
