-- ===== src/Registry/Lease/Concurrent/Laws.antt =====
-- Calls of `GetNodeLease` that run at the same time.
use ssle_project.Prelude.{
  ℕ, zero, suc, ◌+◌, ◌≡◌, ◌≢◌, refl, sym, ◌⊎◌, inl, inr, Bool, true, false, Option, none, some,
  List, [], ◌∷◌, Bytes, ◌==◌, arith, Option-cases, Bool-cases,
}
use mathlib.Core.Path.{subst}
use ssle_project.Etcd.{Etcd, KeyValue, put, IsHealthy, RoundTrips, Entry, version_of, found_at}
use ssle_project.Registry.Lease.{stored_lease, unchanged}
use ssle_project.Registry.Lease.Recorded.{
  lease_at, grant-txn, grant_leaves, grant_writes, txn_refused,
}
use ssle_project.Registry.Lease.Concurrent.{
  Pc, reading, renewing, granting, recording, returned, failed, advance, System, begun, Step,
  requests, elsewhere, Reach, at_once, later, next_round, looked_up, was_renewed, was_granted,
  was_recorded,
}

-- No lease, or one that has run out.
abbrev pub is_stale : ℕ → Option ℕ → Bool
is_stale expired none = true
is_stale expired (some l) = l == expired

module _ (e : Etcd) (h : IsHealthy e) (rt : RoundTrips e.lease_json) (key : Bytes) (expired : ℕ)
    (gone : (s : e.Store) → (e.lease_renew expired s).0 ≡ none)
    (renewable : (l : ℕ) (s : e.Store) → l ≢ expired → (e.lease_renew l s).0 ≢ none)
    (fresh : (s : e.Store) → (e.lease_grant 30 s).0 ≢ some expired)
    (c0 : Option (Entry e.Wire)) where
  open h use {contents}

  abbrev lease_in : Option (Entry e.Wire) → Option ℕ
  lease_in c = stored_lease e (found_at key c)

  -- The key is as it was at first, or one call has replaced a stale lease.
  abbrev Kept : Option (Entry e.Wire) → Type 0
  Kept c =
      (c ≡ c0)
      ⊎ ((is_stale expired (lease_in c0) ≡ true)
          × (is_stale expired (lease_in c) ≡ false)
          × (c ≢ none)
          × (version_of c ≡ version_of c0 + 1))

  abbrev Good : Option (Entry e.Wire) → Pc e.Wire → Type 0
  Good c (reading n) = Unit
  Good c (renewing n kvs l) =
      ((kvs ≡ found_at key c0) × (is_stale expired (lease_in c0) ≡ true) × (l ≡ expired))
      ⊎ ((l ≢ expired) × (lease_in c ≡ some l))
  Good c (granting n kvs) = (kvs ≡ found_at key c0) × (is_stale expired (lease_in c0) ≡ true)
  Good c (recording n kvs l w) =
      (kvs ≡ found_at key c0)
      × (is_stale expired (lease_in c0) ≡ true)
      × (l ≢ expired)
      × (e.lease_json.unmarshal w ≡ some l)
  Good c (returned l) = (l ≢ expired) × (lease_in c ≡ some l)
  Good c failed = Unit

  -- What a request does to the key: nothing, or it replaces a stale lease.
  abbrev Moves : Option (Entry e.Wire) → Option (Entry e.Wire) → Type 0
  Moves c c' = (c' ≡ c) ⊎ (is_stale expired (lease_in c) ≡ true)

  Good-Moves : (c c' : Option (Entry e.Wire)) (p : Pc e.Wire) → Moves c c' → Good c p → Good c' p
  Good-Moves c c' p (inl same) g = subst (λ x. Good x p) (sym same) g
  Good-Moves c c' (reading n) (inr stale) g = tt
  Good-Moves c c' (renewing n kvs l) (inr stale) (inl g) = inl g
  Good-Moves c c' (renewing n kvs l) (inr stale) (inr g) = ground arith
  Good-Moves c c' (granting n kvs) (inr stale) g = g
  Good-Moves c c' (recording n kvs l w) (inr stale) g = g
  Good-Moves c c' (returned l) (inr stale) g = ground arith
  Good-Moves c c' failed (inr stale) g = tt

  -- One request of a call that may run.
  abbrev Advanced : e.Store → Pc e.Wire × e.Store → Type 0
  Advanced s (p, s') =
      Kept (contents s' key) × Moves (contents s key) (contents s' key) × Good (contents s' key) p

  next_round-Good : (c : Option (Entry e.Wire)) (n : ℕ) → Good c (next_round e n)
  unfolding next_round
  next_round-Good c zero = tt
  next_round-Good c (suc n) = tt

  -- A request that leaves the key alone.
  same_key :
      (p : Pc e.Wire) (s s' : e.Store)
      → contents s' key ≡ contents s key
      → Kept (contents s key)
      → Good (contents s key) p
      → Advanced s (p, s')
  same_key p s s' same k g = (subst Kept (sym same) k, inl same, subst (λ c. Good c p) (sym same) g)

  looked_up-Good :
      (n : ℕ) (c : Option (Entry e.Wire)) → Kept c → Good c (looked_up e n (some (found_at key c)))
  unfolding looked_up
  looked_up-Good n c k = elim (Option-cases (lease_in c)) [
    | inl unused ↦
        let done : looked_up e n (some (found_at key c)) ≡ granting n (found_at key c) =
          ground arith in
        subst (Good c) (sym done) (grind arith, grind arith)
    | inr (l, used) ↦
        let done : looked_up e n (some (found_at key c)) ≡ renewing n (found_at key c) l =
          ground arith in
        subst (Good c) (sym done) (elim (Bool-cases (l == expired)) [
          | inl dead ↦ inl (ground arith, ground arith, ground arith)
          | inr alive ↦ inr ((λ same. ground arith), used)
        ])
  ]

  was_renewed-Good :
      (n : ℕ) (kvs : List (KeyValue e.Wire)) (l : ℕ) (s : e.Store) (c : Option (Entry e.Wire))
      → Good c (renewing n kvs l)
      → Good c (was_renewed e n kvs l (e.lease_renew l s).0)
  unfolding was_renewed
  was_renewed-Good n kvs l s c (inl (read, stale, same)) = rw same (rw (gone s) (read, stale))
  was_renewed-Good n kvs l s c (inr (alive, recorded)) = elim (Option-cases (e.lease_renew l s).0) [
    | inl lost ↦ absurd (renewable l s alive lost)
    | inr (ttl, live) ↦ rw live (alive, recorded)
  ]

  was_granted-Good :
      (n : ℕ) (kvs : List (KeyValue e.Wire)) (s : e.Store) (c : Option (Entry e.Wire))
      → Good c (granting n kvs)
      → Good c (was_granted e n kvs (e.lease_grant 30 s).0)
  unfolding was_granted
  was_granted-Good n kvs s c g = elim (Option-cases (e.lease_grant 30 s).0) [
    | inl lost ↦ rw lost tt
    | inr (l, granted) ↦ elim (Option-cases (e.lease_json.marshal l)) [
      | inl bad ↦
          let done : was_granted e n kvs (e.lease_grant 30 s).0 ≡ failed = ground arith in
          subst (Good c) (sym done) tt
      | inr (w, coded) ↦
          let done : was_granted e n kvs (e.lease_grant 30 s).0 ≡ recording n kvs l w =
            ground arith in
          subst (Good c) (sym done) (g.0, g.1, (λ same. fresh s (ground arith)), rt l w coded)
    ]
  ]

  txn_wins :
      (n l : ℕ) (w : e.Wire) (s : e.Store)
      → contents s key ≡ c0
      → l ≢ expired
      → e.lease_json.unmarshal w ≡ some l
      → is_stale expired (lease_in c0) ≡ true
      → Advanced s (advance e key (recording n (found_at key c0) l w) s)
  unfolding advance was_recorded
  txn_wins n l w s same alive coded stale =
      let won = grant-txn e h key s l w c0 same in
      let left = grant_leaves e h key s l w c0 same coded in
      let wrote = grant_writes e h key s w c0 same in
      rw won
        (inr (stale, ground arith, ground arith, ground arith), inr (ground arith), (alive, left))

  txn_loses :
      (n l : ℕ) (w : e.Wire) (s : e.Store)
      → contents s key ≢ none
      → version_of (contents s key) ≡ version_of c0 + 1
      → Kept (contents s key)
      → Advanced s (advance e key (recording n (found_at key c0) l w) s)
  unfolding advance was_recorded
  txn_loses n l w s stored version k =
      let refused = txn_refused e h key s w c0 stored version in
      let done : was_recorded e n l
            (e.txn
              (record {
                compare = unchanged e key (found_at key c0) ∷ [];
                success = put key w 0 ∷ [];
              })
              s).0
          ≡ next_round e n =
        ground arith in
      subst (λ p. Advanced s (p, (advance e key (recording n (found_at key c0) l w) s).1))
        (sym done)
        (same_key (next_round e n) s (advance e key (recording n (found_at key c0) l w) s).1
          refused.1 k (next_round-Good (contents s key) n))

  advance-Advanced :
      (p : Pc e.Wire) (s : e.Store)
      → Kept (contents s key)
      → Good (contents s key) p
      → Advanced s (advance e key p s)
  unfolding advance
  advance-Advanced (reading n) s k g =
      rw (h.range_key key 0 s) (k, inl refl, looked_up-Good n (contents s key) k)
  advance-Advanced (renewing n kvs l) s k g =
      same_key (was_renewed e n kvs l (e.lease_renew l s).0) s (e.lease_renew l s).1
        (h.renew_keeps l s key) k (was_renewed-Good n kvs l s (contents s key) g)
  advance-Advanced (granting n kvs) s k g =
      same_key (was_granted e n kvs (e.lease_grant 30 s).0) s (e.lease_grant 30 s).1
        (h.grant_keeps 30 s key) k (was_granted-Good n kvs s (contents s key) g)
  advance-Advanced (recording n kvs l w) s (inl same) (read, stale, alive, coded) =
      subst (λ x. Advanced s (advance e key (recording n x l w) s)) (sym read)
        (txn_wins n l w s same alive coded stale)
  advance-Advanced (recording n kvs l w) s (inr (was, live, stored, version))
        (read, stale, alive, coded) =
      subst (λ x. Advanced s (advance e key (recording n x l w) s)) (sym read)
        (txn_loses n l w s stored version (inr (was, live, stored, version)))
  advance-Advanced (returned l) s k g = (k, inl refl, g)
  advance-Advanced failed s k g = (k, inl refl, tt)

  -- What holds of the server and of every call.
  abbrev AllGood : System e → Type 0
  AllGood x = Kept (contents x.store key) × ((i : ℕ) → Good (contents x.store key) (x.calls i))

  Step-AllGood : {x y : System e} → Step e h key x y → AllGood x → AllGood y
  Step-AllGood {x} (requests i) (k, g) =
      let (k', moves, gi) = advance-Advanced (x.calls i) x.store k (g i) in
      let s' = (advance e key (x.calls i) x.store).1 in
      let p = (advance e key (x.calls i) x.store).0 in
      (
        k',
        λ j. elim (Bool-cases (j == i)) [
          | inl this ↦ rw this gi
          | inr other ↦
              rw other (Good-Moves (contents x.store key) (contents s' key) (x.calls j) moves (g j))
        ],
      )
  Step-AllGood {x} (elsewhere s' same) (k, g) =
      (subst Kept (sym same) k, λ j. subst (λ c. Good c (x.calls j)) (sym same) (g j))

  Reach-AllGood : {x y : System e} → Reach e h key x y → AllGood x → AllGood y
  Reach-AllGood at_once g = g
  Reach-AllGood (later r st) g = Step-AllGood st (Reach-AllGood r g)

-- Any number of calls of `GetNodeLease` for one node, and steps of other parts of the system that
-- leave the node's lease key alone, in any order: all the calls that have returned have returned the
-- same lease, and it is the one that is recorded at the key. This is on a server that answers, with a
-- coder of lease ids that reads back what it wrote, when one lease has run out and is not granted
-- again, and every other lease can be renewed.
pub get_node_lease_agree :
    (e : Etcd) (h : IsHealthy e) (key : Bytes) (expired : ℕ) (s : e.Store) (x : System e)
    → RoundTrips e.lease_json
    → ((t : e.Store) → (e.lease_renew expired t).0 ≡ none)
    → ((l : ℕ) (t : e.Store) → l ≢ expired → (e.lease_renew l t).0 ≢ none)
    → ((t : e.Store) → (e.lease_grant 30 t).0 ≢ some expired)
    → Reach e h key (begun e s) x
    → (i j l m : ℕ) → x.calls i ≡ returned l
    → x.calls j ≡ returned m
    → (l ≡ m) × (l ≢ expired) × (lease_at e h key x.store ≡ some l)
unfolding next_round
get_node_lease_agree e h key expired s x rt gone renewable fresh r i j l m in_i in_j =
    let c0 = h.contents s key in
    let (kept, good) =
      Reach-AllGood e h rt key expired gone renewable fresh c0 r (inl refl, λ i. tt) in
    let c = h.contents x.store key in
    let of_i = subst (Good e h rt key expired gone renewable fresh c0 c) in_i (good i) in
    let of_j = subst (Good e h rt key expired gone renewable fresh c0 c) in_j (good j) in
    (ground arith, of_i.0, of_i.1)
