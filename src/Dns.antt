-- ===== src/Dns.antt =====
-- The DNS handlers of the agent: agent/dns.go.
pub mod Laws
pub mod Replies
use mathlib.Core.List.{reverse}
use ssle_project.Prelude.{
  ℕ, zero, suc, ◌-◌, Bool, true, false, not, ◌&&◌, ◌||◌, Option, none, some, List, [], ◌∷◌, ◌++◌,
  length, drop, get_or, Bytes, codes, has_prefix, ltb, ◌==◌, if◌then◌else◌,
}
use ssle_project.Handler.{Call}
use ssle_project.Schemas.{ServiceSpec, DiscoverRequest}
use ssle_project.Keys.{split}

-- The constants of the DNS library, `netip.ParseAddr` with its two families, and what a lookup reads
-- of an address. `is4` and `is6` are `Is4` and `Is6`.
pub record Library : Type 1 where
  pub Addr : Type 0
  pub parse_addr : Bytes → Option Addr
  pub is4 : Addr → Bool
  pub is6 : Addr → Bool
  pub type_a : ℕ
  pub type_aaaa : ℕ
  pub rcode_name_error : ℕ

-- The header of a question.
pub record Question : Type 0 where
  pub name : Bytes
  pub class : ℕ

-- A resource record; its class is INET and its TTL 30.
pub data Rr (A : Type 0) : Type 0 where
  a_record aaaa_record : Bytes → A → Rr A

abbrev pub cluster_suffix : Bytes
cluster_suffix = codes ".cluster.internal."

-- `strings.CutSuffix`: the rest, and whether the suffix was there.
unfoldable pub cut_suffix : Bytes → Bytes → Bytes × Bool
cut_suffix s suffix =
    if has_prefix (reverse suffix) (reverse s)
    then (reverse (drop (length suffix) (reverse s)), true)
    else (s, false)

-- `parts[queryLastIdx-k]`
abbrev from_last : List Bytes → ℕ → Bytes
from_last parts k = get_or (reverse parts) k []

when : Bool → Bytes → Option Bytes
when true part = some part
when false part = none

-- The discover request for the labels of a name.
unfoldable pub request_of : List Bytes → DiscoverRequest
unfolding when
request_of parts =
    let last = length parts - 1 in
    record {
      service = from_last parts 0;
      location = when (ltb 0 last) (from_last parts 1);
      datacenter = when (ltb 1 last) (from_last parts 2);
      node = when (ltb 3 last) (from_last parts 3);
      instance' = when (ltb 4 last) (from_last parts 4);
    }

module _ (lib : Library) where
  -- The answer for one address of a service.
  unfoldable pub answer_of : Question → Bytes → List (Rr lib.Addr)
  answer_of q addr = elim (lib.parse_addr addr) [
    | none ↦ []
    | some ip ↦
        if lib.is4 ip && q.class == lib.type_a
        then a_record q.name ip ∷ []
        else if lib.is6 ip && q.class == lib.type_a
        then aaaa_record q.name ip ∷ []
        else []
  ]

  unfoldable pub answers_of : Question → List Bytes → List (Rr lib.Addr)
  unfolding answer_of
  answers_of q [] = []
  answers_of q (addr ∷ addrs) = answer_of q addr ++ answers_of q addrs

  unfoldable pub answers_of_all : Question → List ServiceSpec → List (Rr lib.Addr)
  unfolding answers_of
  answers_of_all q [] = []
  answers_of_all q (spec ∷ specs) = answers_of q spec.addresses ++ answers_of_all q specs

  module _ {W : Type 0} (discover : DiscoverRequest → Call W (List ServiceSpec)) where
    -- The labels of a name are looked up: the new answers, or a name error that ends the loop.
    unfoldable pub query : Question → List Bytes → Call W (List (Rr lib.Addr))
    unfolding answers_of_all
    query q parts w = if ltb (length parts) 1 || ltb 5 (length parts) then (none, w) else (
      elim (discover (request_of parts) w).0 [
        | none ↦ none
        | some specs ↦ some (answers_of_all q specs)
      ],
      (discover (request_of parts) w).1,
    )

    -- The loop over the questions, with the rcode and the answers so far.
    unfoldable pub serve_questions :
        List Question → ℕ → List (Rr lib.Addr) → W → (ℕ × List (Rr lib.Addr)) × W
    unfolding query
    serve_questions [] rcode answers w = ((rcode, answers), w)
    serve_questions (q ∷ questions) rcode answers w =
        let (path, found) = cut_suffix q.name cluster_suffix in
        let rcode' = if found then rcode else lib.rcode_name_error in
        let skipped = serve_questions questions rcode' answers w in
        elim (not (q.class == lib.type_a) && not (q.class == lib.type_aaaa)) [
          | true ↦ skipped
          | false ↦
              let (got, w') = query q (split b'.' path) w in
              elim got [
                | none ↦ ((lib.rcode_name_error, answers), w')
                | some more ↦ serve_questions questions rcode' (answers ++ more) w'
              ]
        ]

    -- The answers stand in the reply only if no error was met. The reply's rcode is that of the
    -- message that is reused, to begin with.
    unfoldable pub serve_dns : List Question → ℕ → W → (ℕ × List (Rr lib.Addr)) × W
    unfolding serve_questions
    serve_dns questions rcode w =
        let ((rcode', answers), w') = serve_questions questions rcode [] w in
        ((rcode', if rcode' == 0 then answers else []), w')

-- The forwarding handler: each server is asked as often as the configuration says, until one replies.
-- `exchange` is `h.client.Exchange` with a server; none is an error.
module _ {W R : Type 0} (exchange : Bytes → Call W R) where
  unfoldable pub forward_attempts : ℕ → Bytes → Call W R
  forward_attempts zero server w = (none, w)
  forward_attempts (suc n) server w =
      let again = forward_attempts n server (exchange server w).1 in
      elim (exchange server w).0 [ none ↦ again | some resp ↦ (some resp, (exchange server w).1) ]

  unfoldable pub forward : ℕ → List Bytes → Call W R
  unfolding forward_attempts
  forward attempts [] w = (none, w)
  forward attempts (server ∷ servers) w =
      let next = forward attempts servers (forward_attempts attempts server w).1 in
      elim (forward_attempts attempts server w).0 [
        | none ↦ next
        | some resp ↦ (some resp, (forward_attempts attempts server w).1)
      ]
