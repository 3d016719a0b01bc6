-- ===== src/Config.antt =====
-- The registry's configuration: the host names of registry/schemas/schemas.go, and the choice of the
-- advertised address and of the ports of registry/config/config.go.
pub mod Best
pub mod Listen
pub mod Hosts
use ssle_project.Prelude.{
  ℕ, ◌+◌, ◌/◌, ◌%◌, ◌^◌, Bool, true, false, not, ◌&&◌, ◌||◌, Option, none, some, List, [], ◌∷◌,
  ◌++◌, length, drop, get_or, Bytes, equal, ◌==◌, if◌then◌else◌,
}

-- `netip.Addr`: the zero value, or an address of 4 or of 16 bytes.
pub data Addr : Type 0 where
  invalid : Addr
  v4 v6 : Bytes → Addr

-- `netip.AddrFromSlice`
unfoldable pub addr_from_slice : Bytes → Addr
addr_from_slice slice =
    if length slice == 4 then v4 slice else if length slice == 16 then v6 slice else invalid

-- Ten bytes of 0 and two of 0xff stand before an IPv4 address in 16 bytes.
is_mapped : ℕ → Bytes → Bool
is_mapped n [] = false
is_mapped n (a ∷ ip) =
    let rest = is_mapped (n + 1) ip in
    if n == 10 then a == 0xff && get_or ip 0 0 == 0xff else a == 0 && rest

-- `ip.To4() != nil`
unfoldable pub is_ipv4 : Bytes → Bool
unfolding is_mapped
is_ipv4 ip = length ip == 4 || (length ip == 16 && is_mapped 0 ip)

-- An address of an interface: its IP, and for a network the test `Contains`.
pub data InterfaceAddr : Type 0 where
  ip_net : Bytes → (Bytes → Bool) → InterfaceAddr
  ip_addr : Bytes → InterfaceAddr
  other_addr : InterfaceAddr

unfoldable pub ip_of : InterfaceAddr → Bytes
ip_of (ip_net ip contains) = ip
ip_of (ip_addr ip) = ip
ip_of other_addr = []

-- `slices.ContainsFunc`
unfoldable pub any_of : (Bytes → Bool) → List Bytes → Bool
any_of p [] = false
any_of p (x ∷ xs) = p x || any_of p xs

unfoldable pub joins : List Bytes → InterfaceAddr → Bool
unfolding any_of
joins join_addrs (ip_net ip contains) = any_of contains join_addrs
joins join_addrs (ip_addr ip) = false
joins join_addrs other_addr = false

-- The last four bytes of an IP of 4 or 16 bytes; an IPv4 address of 4 bytes has none behind the
-- twelfth, which is an index out of range.
unfoldable pub ip_to_net_ip_addr : Bytes → Option Addr
unfolding is_ipv4 addr_from_slice
ip_to_net_ip_addr ip =
    if is_ipv4 ip
    then (if length ip == 4 then none else some (addr_from_slice (drop 12 ip)))
    else some (addr_from_slice ip)

-- The bytes of an IPv4 address in either form.
unfoldable pub to4 : Bytes → Bytes
to4 ip = if length ip == 4 then ip else drop 12 ip

-- `IsLinkLocalUnicast` or `IsLinkLocalMulticast`.
unfoldable pub is_link_local : Bytes → Bool
unfolding is_ipv4 to4
is_link_local ip =
    let a = to4 ip in
    if is_ipv4 ip
    then (get_or a 0 0 == 169 && get_or a 1 0 == 254)
      || (get_or a 0 0 == 224 && (get_or a 1 0 == 0 && get_or a 2 0 == 0))
    else length ip == 16
      && ((get_or ip 0 0 == 0xfe && get_or ip 1 0 / 64 == 2)
          || (get_or ip 0 0 == 0xff && get_or ip 1 0 % 16 == 2))

-- The families that the host has no address of.
pub record Unsupported : Type 0 where
  pub ipv4 : Bool
  pub ipv6 : Bool

unfoldable pub is_skipped : Unsupported → Bytes → Bool
unfolding is_link_local is_ipv4
is_skipped u ip = is_link_local ip || (if is_ipv4 ip then u.ipv4 else u.ipv6)

-- `bestIP.Is6() && isIPv4 || !bestIP.IsValid()`
unfoldable pub is_better : Addr → Bytes → Bool
unfolding is_ipv4
is_better invalid ip = true
is_better (v4 best) ip = false
is_better (v6 best) ip = is_ipv4 ip

-- The loop over the addresses of the interfaces; none is a panic.
unfoldable pub search : List Bytes → Unsupported → List InterfaceAddr → Addr → Option Addr
unfolding joins is_skipped is_better ip_to_net_ip_addr ip_of
search join_addrs u [] best = some best
search join_addrs u (a ∷ addrs) best =
    let skip = search join_addrs u addrs best in
    elim (joins join_addrs a) [
      | true ↦ ip_to_net_ip_addr (ip_of a)
      | false ↦ elim (not (is_skipped u (ip_of a)) && is_better best (ip_of a)) [
        | false ↦ skip
        | true ↦ elim (ip_to_net_ip_addr (ip_of a)) [
          | none ↦ none
          | some better ↦ search join_addrs u addrs better
        ]
      ]
    ]

unfoldable pub unsupported : List Bytes → Unsupported
unfolding any_of is_ipv4
unsupported join_addrs = record {
  ipv4 = not (any_of is_ipv4 join_addrs);
  ipv6 = not (any_of (λ ip. not (is_ipv4 ip)) join_addrs);
}

-- `lookup_ip` is `net.LookupIP`; none is the end of the process.
unfoldable pub find_best_addr :
    (Bytes → Option (List Bytes)) → List InterfaceAddr → Bytes → Option Addr
unfolding search unsupported
find_best_addr lookup_ip addrs [] = search [] (record { ipv4 = false; ipv6 = false }) addrs invalid
find_best_addr lookup_ip addrs (c ∷ host) = elim (lookup_ip (c ∷ host)) [
  | none ↦ none
  | some join_addrs ↦ search join_addrs (unsupported join_addrs) addrs invalid
]

-- A host name is a domain name or an address.
pub record Hostname : Type 0 where
  pub fqdn : Bytes
  pub addr : Addr

unfoldable pub hostname_from_addr : Addr → Hostname
hostname_from_addr addr = record { fqdn = []; addr = addr }

unfoldable pub hostname_from_fqdn : Bytes → Hostname
hostname_from_fqdn fqdn = record { fqdn = fqdn; addr = invalid }

-- `parse_addr` is `netip.ParseAddr`; none is an error.
unfoldable pub parse_hostname : (Bytes → Option Addr) → Bytes → Option Hostname
unfolding hostname_from_addr hostname_from_fqdn
parse_hostname parse_addr [] = none
parse_hostname parse_addr (c ∷ v) = elim (parse_addr (c ∷ v)) [
  | some ip ↦ some (hostname_from_addr ip)
  | none ↦ some (hostname_from_fqdn (c ∷ v))
]

-- The listening ports; 0 is not set.
pub record Ports : Type 0 where
  pub etcd : ℕ
  pub etcd_client : ℕ
  pub peer_api : ℕ
  pub agent_api : ℕ

-- A port that is not set is the one after the port before, in 16 bits.
next_unless_set : ℕ → ℕ → ℕ
next_unless_set port before = if port == 0 then (before + 1) % 2 ^ 16 else port

unfoldable pub load_ports : Ports → Ports
unfolding next_unless_set
load_ports p =
    let client = next_unless_set p.etcd_client p.etcd in
    let peer = next_unless_set p.peer_api client in
    record {
      etcd = p.etcd;
      etcd_client = client;
      peer_api = peer;
      agent_api = next_unless_set p.agent_api peer;
    }
