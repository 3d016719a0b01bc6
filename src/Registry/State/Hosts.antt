-- ===== src/Registry/State/Hosts.antt =====
-- The host names in the certificate of the server.
use ssle_project.Prelude.{
  ◌≡◌, refl, ap, ◌∙◌, Bool, true, ◌||◌, List, [], ◌∷◌, ◌++◌, Bytes, codes, equal, equal_refl, arith,
}
use ssle_project.Prelude.Int.{ℤ}
use ssle_project.Config.{Addr, invalid, v4, v6, Hostname, to4}
use ssle_project.Registry.State.{
  PeerTemplate, StateConfig, equal_ip, contains, append_ip, append_dns, add_address,
  add_hostname_to_cert, peer_template, bare_template,
}

-- The certificate is good for the address, or for the domain name where there is no address.
abbrev pub CoversAddress : Addr → Bytes → PeerTemplate → Type 0
CoversAddress invalid fqdn cert = contains (equal fqdn) cert.dns_names ≡ true
CoversAddress (v4 ip) fqdn cert = contains (λ a. equal_ip a ip) cert.ip_addresses ≡ true
CoversAddress (v6 ip) fqdn cert = contains (λ a. equal_ip a ip) cert.ip_addresses ≡ true

abbrev pub Covers : Hostname → PeerTemplate → Type 0
Covers hostname cert = CoversAddress hostname.addr hostname.fqdn cert

equal_ip_refl : (a : Bytes) → equal_ip a a ≡ true
unfolding equal_ip
equal_ip_refl a = ground (arith, equal_refl a, equal_refl (to4 a))

contains-append :
    (p : Bytes → Bool) (xs : List Bytes) (x : Bytes)
    → contains p (xs ++ x ∷ []) ≡ (contains p xs || p x)
unfolding contains
contains-append p [] x = ground arith
contains-append p (y ∷ xs) x = ground (arith, contains-append p xs x)

append_ip_lem :
    (ip : Bytes) (cert : PeerTemplate)
    → contains (λ a. equal_ip a ip) (append_ip ip cert).ip_addresses ≡ true
unfolding append_ip
append_ip_lem ip cert =
    ground
      (arith, equal_ip_refl ip, contains-append (λ (a : Bytes). equal_ip a ip) cert.ip_addresses ip)

append_dns_lem :
    (name : Bytes) (cert : PeerTemplate)
    → contains (equal name) (append_dns name cert).dns_names ≡ true
unfolding append_dns
append_dns_lem name cert =
    ground (arith, equal_refl name, contains-append (equal name) cert.dns_names name)

append_ip_keeps :
    (p : Bytes → Bool) (ip : Bytes) (cert : PeerTemplate)
    → contains p cert.ip_addresses ≡ true
    → contains p (append_ip ip cert).ip_addresses ≡ true
unfolding append_ip
append_ip_keeps p ip cert h = ground (arith, contains-append p cert.ip_addresses ip)

append_dns_keeps :
    (p : Bytes → Bool) (name : Bytes) (cert : PeerTemplate)
    → contains p cert.dns_names ≡ true
    → contains p (append_dns name cert).dns_names ≡ true
unfolding append_dns
append_dns_keeps p name cert h = ground (arith, contains-append p cert.dns_names name)

append_apart :
    (a : Bytes) (cert : PeerTemplate)
    → ((append_ip a cert).dns_names ≡ cert.dns_names)
      × ((append_dns a cert).ip_addresses ≡ cert.ip_addresses)
unfolding append_ip append_dns
append_apart a cert = ground arith

add_address-Covers :
    (addr : Addr) (fqdn : Bytes) (cert : PeerTemplate)
    → CoversAddress addr fqdn (add_address addr fqdn cert)
unfolding add_address
add_address-Covers invalid fqdn cert = append_dns_lem fqdn cert
add_address-Covers (v4 ip) fqdn cert = append_ip_lem ip cert
add_address-Covers (v6 ip) fqdn cert = append_ip_lem ip cert

dns_kept :
    (p : Bytes → Bool) (addr : Addr) (fqdn : Bytes) (cert : PeerTemplate)
    → contains p cert.dns_names ≡ true
    → contains p (add_address addr fqdn cert).dns_names ≡ true
unfolding add_address
dns_kept p invalid fqdn cert h = append_dns_keeps p fqdn cert h
dns_kept p (v4 ip) fqdn cert h = ap (contains p) (append_apart ip cert).0 ∙ h
dns_kept p (v6 ip) fqdn cert h = ap (contains p) (append_apart ip cert).0 ∙ h

ips_kept :
    (p : Bytes → Bool) (addr : Addr) (fqdn : Bytes) (cert : PeerTemplate)
    → contains p cert.ip_addresses ≡ true
    → contains p (add_address addr fqdn cert).ip_addresses ≡ true
unfolding add_address
ips_kept p invalid fqdn cert h = ap (contains p) (append_apart fqdn cert).1 ∙ h
ips_kept p (v4 ip) fqdn cert h = append_ip_keeps p ip cert h
ips_kept p (v6 ip) fqdn cert h = append_ip_keeps p ip cert h

Covers_kept :
    (addr : Addr) (fqdn : Bytes) (other : Addr) (fqdn' : Bytes) (cert : PeerTemplate)
    → CoversAddress addr fqdn cert
    → CoversAddress addr fqdn (add_address other fqdn' cert)
Covers_kept invalid fqdn other fqdn' cert h = dns_kept (equal fqdn) other fqdn' cert h
Covers_kept (v4 ip) fqdn other fqdn' cert h = ips_kept (λ a. equal_ip a ip) other fqdn' cert h
Covers_kept (v6 ip) fqdn other fqdn' cert h = ips_kept (λ a. equal_ip a ip) other fqdn' cert h

bare_lem :
    (now : ℤ) (config : StateConfig)
    → contains (equal (codes "registry.cluster.internal")) (bare_template now config).dns_names
      ≡ true
unfolding contains bare_template equal
bare_lem now config = refl

-- The certificate of the server is made for the two host names that the registry advertises, whether
-- they are addresses or domain names, and for the name under which the nodes verify the server.
pub peer_template-Covers :
    (now : ℤ) (config : StateConfig)
    → Covers config.peer_advertise_hostname (peer_template now config)
      × Covers config.agent_api_advertise_hostname (peer_template now config)
      × (contains (equal (codes "registry.cluster.internal")) (peer_template now config).dns_names
          ≡ true)
unfolding peer_template add_hostname_to_cert
peer_template-Covers now config =
    let peer = config.peer_advertise_hostname in
    let agent = config.agent_api_advertise_hostname in
    let bare = bare_template now config in
    let with_peer = add_address peer.addr peer.fqdn bare in
    let is_cluster = equal (codes "registry.cluster.internal") in
    (
      Covers_kept peer.addr peer.fqdn agent.addr agent.fqdn with_peer
          (add_address-Covers peer.addr peer.fqdn bare),
      add_address-Covers agent.addr agent.fqdn with_peer,
      dns_kept is_cluster agent.addr agent.fqdn with_peer
          (dns_kept is_cluster peer.addr peer.fqdn bare (bare_lem now config)),
    )
