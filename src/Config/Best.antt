-- ===== src/Config/Best.antt =====
-- The address that is advertised, described by the first address of each kind.
use ssle_project.Prelude.{
  ℕ, ◌-◌, ◌≡◌, ◌≢◌, refl, sym, ap, ◌∙◌, inl, inr, Bool, true, false, not, ◌&&◌, Option, none, some,
  List, [], ◌∷◌, length, drop, Bytes, All, Bool-cases, zero, suc, arith, if◌then◌else◌,
}
use ssle_project.Config.{
  Addr, invalid, v4, v6, addr_from_slice, is_ipv4, InterfaceAddr, ip_net, ip_addr, other_addr,
  any_of, ip_of, joins, ip_to_net_ip_addr, Unsupported, is_skipped, is_better, search, unsupported,
  find_best_addr,
}

-- The IP of the first address that passes the test.
abbrev pub first_of : (InterfaceAddr → Bool) → List InterfaceAddr → Option Bytes
first_of p [] = none
first_of p (a ∷ addrs) = if p a then some (ip_of a) else first_of p addrs

abbrev pub as_addr : Bytes → Addr
as_addr ip = if is_ipv4 ip then v4 (drop 12 ip) else v6 ip

abbrev pub is_eligible : Unsupported → InterfaceAddr → Bool
is_eligible u a = not (is_skipped u (ip_of a))

-- The IPv4 address to prefer, or else the given one.
abbrev pub prefer_ipv4 : Unsupported → List InterfaceAddr → Addr → Addr
prefer_ipv4 u addrs other = elim (first_of (λ a. is_eligible u a && is_ipv4 (ip_of a)) addrs) [
  | some ip ↦ v4 (drop 12 ip)
  | none ↦ other
]

abbrev pub first_eligible : Unsupported → List InterfaceAddr → Addr
first_eligible u addrs = elim (first_of (is_eligible u) addrs) [ some ip ↦ v6 ip | none ↦ invalid ]

-- What the loop ends with from the best address so far, if no network has an address of the host.
abbrev pub settled : Unsupported → List InterfaceAddr → Addr → Addr
settled u addrs invalid = prefer_ipv4 u addrs (first_eligible u addrs)
settled u addrs (v4 best) = v4 best
settled u addrs (v6 best) = prefer_ipv4 u addrs (v6 best)

-- The address of the first network that has an address of the host, or else the given one.
abbrev pub or_joined : List Bytes → List InterfaceAddr → Addr → Addr
or_joined join_addrs addrs other = elim (first_of (joins join_addrs) addrs) [
  | some ip ↦ as_addr ip
  | none ↦ other
]

length-drop : (n : ℕ) (ip : Bytes) → length (drop n ip) ≡ length ip - n
length-drop zero ip = omega arith
length-drop (suc n) [] = omega arith
length-drop (suc n) (b ∷ ip) = omega (arith, length-drop n ip)

-- Interfaces list every IP in 16 bytes.
abbrev pub IsLong : InterfaceAddr → Type 0
IsLong a = length (ip_of a) ≡ 16

converted : (ip : Bytes) → length ip ≡ 16 → ip_to_net_ip_addr ip ≡ some (as_addr ip)
unfolding ip_to_net_ip_addr addr_from_slice
converted ip h = let short = length-drop 12 ip in ground arith

module _ (join_addrs : List Bytes) (u : Unsupported) where
  search_joined :
      (a : InterfaceAddr) (addrs : List InterfaceAddr) (best : Addr)
      → joins join_addrs a ≡ true
      → search join_addrs u (a ∷ addrs) best ≡ ip_to_net_ip_addr (ip_of a)
  unfolding search
  search_joined a addrs best e = ground arith

  search_skip :
      (a : InterfaceAddr) (addrs : List InterfaceAddr) (best : Addr)
      → joins join_addrs a ≡ false
      → (is_eligible u a && is_better best (ip_of a)) ≡ false
      → search join_addrs u (a ∷ addrs) best ≡ search join_addrs u addrs best
  unfolding search
  search_skip a addrs best e f = ground arith

  search_take :
      (a : InterfaceAddr) (addrs : List InterfaceAddr) (best better : Addr)
      → joins join_addrs a ≡ false
      → (is_eligible u a && is_better best (ip_of a)) ≡ true
      → ip_to_net_ip_addr (ip_of a) ≡ some better
      → search join_addrs u (a ∷ addrs) best ≡ search join_addrs u addrs better
  unfolding search
  search_take a addrs best better e f g = ground arith

  or_joined_first :
      (a : InterfaceAddr) (addrs : List InterfaceAddr) (other : Addr)
      → joins join_addrs a ≡ true
      → or_joined join_addrs (a ∷ addrs) other ≡ as_addr (ip_of a)
  or_joined_first a addrs other e = ground arith

  or_joined_rest :
      (a : InterfaceAddr) (addrs : List InterfaceAddr) (other : Addr)
      → joins join_addrs a ≡ false
      → or_joined join_addrs (a ∷ addrs) other ≡ or_joined join_addrs addrs other
  or_joined_rest a addrs other e = ground arith

  settled_skip :
      (a : InterfaceAddr) (addrs : List InterfaceAddr) (best : Addr)
      → (is_eligible u a && is_better best (ip_of a)) ≡ false
      → settled u (a ∷ addrs) best ≡ settled u addrs best
  unfolding is_better
  settled_skip a addrs invalid f = ground arith
  settled_skip a addrs (v4 best) f = refl
  settled_skip a addrs (v6 best) f = ground arith

  settled_take :
      (a : InterfaceAddr) (addrs : List InterfaceAddr) (best : Addr)
      → (is_eligible u a && is_better best (ip_of a)) ≡ true
      → settled u (a ∷ addrs) best ≡ settled u addrs (as_addr (ip_of a))
  unfolding is_better
  settled_take a addrs invalid f = ground arith
  settled_take a addrs (v4 best) f = ground arith
  settled_take a addrs (v6 best) f = ground arith

  search_lem :
      (addrs : List InterfaceAddr) (best : Addr)
      → All IsLong addrs
      → search join_addrs u addrs best ≡ some (or_joined join_addrs addrs (settled u addrs best))
  unfolding search
  search_lem [] invalid h = refl
  search_lem [] (v4 best) h = refl
  search_lem [] (v6 best) h = refl
  search_lem (a ∷ addrs) best h = elim (Bool-cases (joins join_addrs a)) [
    | inl e ↦
        search_joined a addrs best e
        ∙ converted (ip_of a) h.0
        ∙ ap some (sym (or_joined_first a addrs (settled u (a ∷ addrs) best) e))
    | inr e ↦ elim (Bool-cases (is_eligible u a && is_better best (ip_of a))) [
      | inl f ↦
          search_take a addrs best (as_addr (ip_of a)) e f (converted (ip_of a) h.0)
          ∙ search_lem addrs (as_addr (ip_of a)) h.1
          ∙ ap some (
              sym (
                or_joined_rest a addrs (settled u (a ∷ addrs) best) e
                ∙ ap (or_joined join_addrs addrs) (settled_take a addrs best f)))
      | inr f ↦
          search_skip a addrs best e f
          ∙ search_lem addrs best h.1
          ∙ ap some (
              sym (
                or_joined_rest a addrs (settled u (a ∷ addrs) best) e
                ∙ ap (or_joined join_addrs addrs) (settled_skip a addrs best f)))
    ]
  ]

abbrev pub any_family : Unsupported
any_family = record { ipv4 = false; ipv6 = false }

none_joined : (addrs : List InterfaceAddr) (other : Addr) → or_joined [] addrs other ≡ other
unfolding joins any_of
none_joined [] other = refl
none_joined (ip_net ip contains ∷ addrs) other = none_joined addrs other
none_joined (ip_addr ip ∷ addrs) other = none_joined addrs other
none_joined (other_addr ∷ addrs) other = none_joined addrs other

resolved :
    (lookup_ip : Bytes → Option (List Bytes)) (addrs : List InterfaceAddr) (c : ℕ) (host : Bytes)
    (join_addrs : List Bytes)
    → lookup_ip (c ∷ host) ≡ some join_addrs
    → find_best_addr lookup_ip addrs (c ∷ host)
      ≡ search join_addrs (unsupported join_addrs) addrs invalid
unfolding find_best_addr
resolved lookup_ip addrs c host join_addrs e = ground arith

-- With no host to join, the advertised address is that of the first interface with an IPv4 address
-- that is not link-local, or else of the first that is not link-local, or else invalid. With a host
-- that is resolved, it is that of the first interface in the same network as the host, or else of the
-- first IPv4 and then of the first interface that is not link-local and of a family that the host has
-- an address of, or else invalid. The interfaces list their IPs in 16 bytes.
pub find_best_addr_lem :
    (lookup_ip : Bytes → Option (List Bytes)) (addrs : List InterfaceAddr) (host : Bytes)
    (join_addrs : List Bytes)
    → All IsLong addrs
    → host ≢ []
    → lookup_ip host ≡ some join_addrs
    → (find_best_addr lookup_ip addrs []
        ≡ some (prefer_ipv4 any_family addrs (first_eligible any_family addrs)))
      × (find_best_addr lookup_ip addrs host
          ≡ some (
              or_joined join_addrs addrs (
                prefer_ipv4
                  (unsupported join_addrs)
                  addrs
                  (first_eligible (unsupported join_addrs) addrs))))
unfolding find_best_addr
find_best_addr_lem lookup_ip addrs [] join_addrs h nonempty e = absurd (nonempty refl)
find_best_addr_lem lookup_ip addrs (c ∷ host) join_addrs h nonempty e = (
  search_lem [] any_family addrs invalid h
      ∙ ap some (none_joined addrs (settled any_family addrs invalid)),
  resolved lookup_ip addrs c host join_addrs e
      ∙ search_lem join_addrs (unsupported join_addrs) addrs invalid h,
)
