-- ===== src/Dns/Replies.antt =====
-- The reply of the agent's DNS handler to a single question, against a description of the names that it
-- serves and of the answers for the addresses of a service.
use mathlib.Core.Path.{subst}
use mathlib.Core.List.{append_assoc}
use ssle_project.Prelude.{
  ℕ, ◌≤◌, ◌≡◌, ◌≢◌, refl, sym, true, false, none, some, ◌⊎◌, inl, inr, List, [], ◌∷◌, ◌++◌, length,
  Bytes, arith, Bool-cases, Option-cases,
}
use ssle_project.Handler.{Call}
use ssle_project.Schemas.{ServiceSpec, DiscoverRequest}
use ssle_project.Keys.{split}
use ssle_project.Dns.{
  Library, Question, Rr, a_record, aaaa_record, request_of, answer_of, answers_of, answers_of_all,
  query, serve_questions, serve_dns, cut_suffix, cluster_suffix,
}

-- What the labels of a name ask for: the last one is the service, and before it come the location and
-- the datacenter. Only a name of five labels asks for a node, and its first label is ignored.
pub data Asks : List Bytes → DiscoverRequest → Type 0 where
  by_service :
      (svc : Bytes)
      → Asks (svc ∷ []) (record {
        service = svc;
        location = none;
        datacenter = none;
        node = none;
        instance' = none;
      })
  by_location :
      (loc svc : Bytes)
      → Asks (loc ∷ svc ∷ []) (record {
        service = svc;
        location = some loc;
        datacenter = none;
        node = none;
        instance' = none;
      })
  by_datacenter :
      (dc loc svc : Bytes)
      → Asks (dc ∷ loc ∷ svc ∷ []) (record {
        service = svc;
        location = some loc;
        datacenter = some dc;
        node = none;
        instance' = none;
      })
  by_four :
      (first dc loc svc : Bytes)
      → Asks (first ∷ dc ∷ loc ∷ svc ∷ []) (record {
        service = svc;
        location = some loc;
        datacenter = some dc;
        node = none;
        instance' = none;
      })
  by_node :
      (first node dc loc svc : Bytes)
      → Asks (first ∷ node ∷ dc ∷ loc ∷ svc ∷ []) (record {
        service = svc;
        location = some loc;
        datacenter = some dc;
        node = some node;
        instance' = none;
      })

request_of-Asks :
    (parts : List Bytes) → 1 ≤ length parts → length parts ≤ 5 → Asks parts (request_of parts)
unfolding request_of
request_of-Asks [] some_label few = absurd (omega arith)
request_of-Asks (a ∷ []) some_label few = by_service a
request_of-Asks (a ∷ b ∷ []) some_label few = by_location a b
request_of-Asks (a ∷ b ∷ c ∷ []) some_label few = by_datacenter a b c
request_of-Asks (a ∷ b ∷ c ∷ d ∷ []) some_label few = by_four a b c d
request_of-Asks (a ∷ b ∷ c ∷ d ∷ i ∷ []) some_label few = by_node a b c d i
request_of-Asks (a ∷ b ∷ c ∷ d ∷ i ∷ j ∷ parts) some_label few = absurd (omega arith)

abbrev pub addresses_of : List ServiceSpec → List Bytes
addresses_of [] = []
addresses_of (spec ∷ specs) = spec.addresses ++ addresses_of specs

module _ (lib : Library) where
  -- The answers for the addresses, in order: a record of the family of each address that parses, and
  -- nothing for the others.
  pub data Answered (name : Bytes) : List Bytes → List (Rr lib.Addr) → Type 0 where
    no_address : Answered name [] []
    unparsed :
        {addr : Bytes} {addrs : List Bytes} {answers : List (Rr lib.Addr)}
        → lib.parse_addr addr ≡ none
        → Answered name addrs answers
        → Answered name (addr ∷ addrs) answers
    of_ipv4 :
        {addr : Bytes} {ip : lib.Addr} {addrs : List Bytes} {answers : List (Rr lib.Addr)}
        → lib.parse_addr addr ≡ some ip
        → lib.is4 ip ≡ true
        → Answered name addrs answers
        → Answered name (addr ∷ addrs) (a_record name ip ∷ answers)
    of_ipv6 :
        {addr : Bytes} {ip : lib.Addr} {addrs : List Bytes} {answers : List (Rr lib.Addr)}
        → lib.parse_addr addr ≡ some ip
        → lib.is4 ip ≡ false
        → lib.is6 ip ≡ true
        → Answered name addrs answers
        → Answered name (addr ∷ addrs) (aaaa_record name ip ∷ answers)

  -- An address that parses is an IPv4 or an IPv6 address.
  abbrev pub HasFamily : Type 0
  HasFamily =
      (addr : Bytes) (ip : lib.Addr)
      → lib.parse_addr addr ≡ some ip
      → (lib.is4 ip ≡ true) ⊎ (lib.is6 ip ≡ true)

  module _ (family : HasFamily) (q : Question) (class : q.class ≡ lib.type_a) where
    answer_of-Answered :
        (addr : Bytes) (addrs : List Bytes) (answers : List (Rr lib.Addr))
        → Answered q.name addrs answers
        → Answered q.name (addr ∷ addrs) (answer_of lib q addr ++ answers)
    unfolding answer_of
    answer_of-Answered addr addrs answers rest =
        let Ends : List (Rr lib.Addr) → Type 0 = Answered q.name (addr ∷ addrs) in
        elim (Option-cases (lib.parse_addr addr)) [
          | inl bad ↦
              let done : answer_of lib q addr ++ answers ≡ answers = ground arith in
              subst Ends (sym done) (unparsed bad rest)
          | inr (ip, good) ↦ elim (Bool-cases (lib.is4 ip)) [
            | inl four ↦
                let done : answer_of lib q addr ++ answers ≡ a_record q.name ip ∷ answers =
                  ground arith in
                subst Ends (sym done) (of_ipv4 good four rest)
            | inr other ↦
                let six : lib.is6 ip ≡ true = ground (arith, family addr ip good) in
                let done : answer_of lib q addr ++ answers ≡ aaaa_record q.name ip ∷ answers =
                  ground arith in
                subst Ends (sym done) (of_ipv6 good other six rest)
          ]
        ]

    answers_of-Answered :
        (addrs more : List Bytes) (answers : List (Rr lib.Addr))
        → Answered q.name more answers
        → Answered q.name (addrs ++ more) (answers_of lib q addrs ++ answers)
    unfolding answers_of
    answers_of-Answered [] more answers rest = rest
    answers_of-Answered (addr ∷ addrs) more answers rest =
        subst (Answered q.name (addr ∷ (addrs ++ more)))
          (sym (append_assoc (answer_of lib q addr) (answers_of lib q addrs) answers))
          (answer_of-Answered addr (addrs ++ more) (answers_of lib q addrs ++ answers)
            (answers_of-Answered addrs more answers rest))

    answers_of_all-Answered :
        (specs : List ServiceSpec)
        → Answered q.name (addresses_of specs) (answers_of_all lib q specs)
    unfolding answers_of_all
    answers_of_all-Answered [] = no_address
    answers_of_all-Answered (spec ∷ specs) =
        answers_of-Answered spec.addresses (addresses_of specs) (answers_of_all lib q specs)
          (answers_of_all-Answered specs)

  -- A single question of class A for a name in the cluster domain with one to five labels, where an
  -- address that parses is of IPv4 or of IPv6, and the code of a name error is not 0: the handler asks
  -- the registry for what the labels say. If the registry call fails, the reply is a name error with no
  -- answers; otherwise it has no error, and its answers are, in order, an A record for each IPv4
  -- address of the services and an AAAA record for each IPv6 address, and none for what is no address.
  pub serve_dns_single :
      {W : Type 0} (discover : DiscoverRequest → Call W (List ServiceSpec)) (q : Question) (w : W)
      → HasFamily
      → lib.rcode_name_error ≢ 0
      → q.class ≡ lib.type_a
      → (cut_suffix q.name cluster_suffix).1 ≡ true
      → 1 ≤ length (split b'.' (cut_suffix q.name cluster_suffix).0)
      → length (split b'.' (cut_suffix q.name cluster_suffix).0) ≤ 5
      → (req : DiscoverRequest) × (reply : ℕ × List (Rr lib.Addr)) × Asks
          (split b'.' (cut_suffix q.name cluster_suffix).0)
          req
        × (serve_dns lib discover (q ∷ []) 0 w ≡ (reply, (discover req w).1))
        × ((((discover req w).0 ≡ none) × (reply ≡ (lib.rcode_name_error, [])))
            ⊎ ((specs : List ServiceSpec) × ((discover req w).0 ≡ some specs)
                × (reply.0 ≡ 0)
                × Answered q.name (addresses_of specs) reply.1))
  unfolding serve_dns serve_questions query
  serve_dns_single discover q w family ne class found some_label few =
      let parts = split b'.' (cut_suffix q.name cluster_suffix).0 in
      let req = request_of parts in
      let asks = request_of-Asks parts some_label few in
      elim (Option-cases (discover req w).0) [
        | inl failed ↦ (req, (lib.rcode_name_error, []), asks, ground arith, inl (failed, refl))
        | inr (specs, known) ↦ (
          req,
          (0, answers_of_all lib q specs),
          asks,
          ground arith,
          inr (specs, known, refl, answers_of_all-Answered family q class specs),
        )
      ]
