-- ===== src/Registry/Lease/Concurrent/Alone.antt =====
-- A call of `GetNodeLease` that runs alone, request by request.
use ssle_project.Prelude.{
  ℕ, zero, suc, ◌+◌, ◌-◌, ◌*◌, ◌≤◌, ◌≡◌, refl, true, false, Option, none, some, List, [], ◌∷◌,
  Bytes, arith, Option-cases, inl, inr,
}
use ssle_project.Handler.{Outcome, ok, fail, panic, Outcome-cases}
use ssle_project.Keys.{lease_key}
use ssle_project.Etcd.{Etcd, KeyValue, RangeRequest, TxnRequest, put}
use ssle_project.Registry.Lease.{
  stored_lease, unchanged, renew, grant, grant_unless, lease_round, lease_rounds, get_node_lease,
}
use ssle_project.Registry.Lease.Concurrent.{
  Pc, reading, granting, returned, failed, looked_up, was_renewed, was_granted, was_recorded,
  next_round, advance, advances,
}

-- Where a call stands that has ended.
abbrev pub end_of : {W : Type 0} → Outcome ℕ → Pc W
end_of (ok lease) = returned lease
end_of (fail err) = failed
end_of panic = failed

module _ (e : Etcd) (key : Bytes) where
  abbrev round_end : ℕ → Outcome (Option ℕ) → Pc e.Wire
  round_end n (ok none) = next_round e n
  round_end n (ok (some lease)) = returned lease
  round_end n (fail err) = failed
  round_end n panic = failed

  advances-granting :
      (n : ℕ) (kvs : List (KeyValue e.Wire)) (s : e.Store)
      → advances e 2 key (granting n kvs) s
        ≡ (round_end n (grant e key kvs s).0, (grant e key kvs s).1)
  unfolding advances advance grant was_granted was_recorded
  advances-granting n kvs s = elim (Option-cases (e.lease_grant 30 s).0) [
    | inl no_lease ↦ ground arith
    | inr (lease, granted) ↦ elim (Option-cases (e.lease_json.marshal lease)) [
      | inl bad ↦ ground arith
      | inr (w, coded) ↦
          let s1 = (e.lease_grant 30 s).1 in
          let txn : TxnRequest e.Wire = record {
            compare = unchanged e key kvs ∷ [];
            success = put key w 0 ∷ [];
          } in
          elim (Option-cases (e.txn txn s1).0) [
            | inl lost ↦ ground arith
            | inr (true, won) ↦ ground arith
            | inr (false, beaten) ↦ ground arith
          ]
    ]
  ]

  -- The requests of one round, at most four.
  advances-reading :
      (n : ℕ) (s : e.Store)
      → (k : ℕ) × (k ≤ 4)
        × (advances e k key (reading n) s
            ≡ (round_end n (lease_round e key s).0, (lease_round e key s).1))
  unfolding advances advance lease_round looked_up was_renewed renew grant_unless
  advances-reading n s =
      let all : RangeRequest = record { key = key; range_end = none; limit = 0 } in
      let s1 = (e.range all s).1 in
      elim (Option-cases (e.range all s).0) [
        | inl lost ↦ (1, omega arith, ground arith)
        | inr (kvs, read) ↦ elim (Option-cases (stored_lease e kvs)) [
          | inl unused ↦ (3, omega arith, ground (arith, advances-granting n kvs s1))
          | inr (l, used) ↦ elim (Option-cases (e.lease_renew l s1).0) [
            | inl over ↦
                (4, omega arith, ground (arith, advances-granting n kvs (e.lease_renew l s1).1))
            | inr (ttl, live) ↦ (2, omega arith, ground arith)
          ]
        ]
      ]

  advances_add :
      (a b c : ℕ) (p : Pc e.Wire) (s : e.Store)
      → c ≡ a + b
      → advances e c key p s ≡ advances e b key (advances e a key p s).0 (advances e a key p s).1
  unfolding advances
  advances_add zero b c p s h = ground arith
  advances_add (suc a) b zero p s h = absurd (omega arith)
  advances_add (suc a) b (suc c) p s h =
      advances_add a b c (advance e key p s).0 (advance e key p s).1 (omega arith)

  advances-end_of :
      (k : ℕ) (r : Outcome ℕ) (s : e.Store) → advances e k key (end_of r) s ≡ (end_of r, s)
  unfolding advances advance
  advances-end_of zero r s = refl
  advances-end_of (suc k) (ok l) s = advances-end_of k (ok l) s
  advances-end_of (suc k) (fail err) s = advances-end_of k (fail err) s
  advances-end_of (suc k) panic s = advances-end_of k panic s

  advances-next_round :
      (n : ℕ) (s : e.Store)
      → (k : ℕ) × (k ≤ 4 * n)
        × (advances e k key (next_round e n) s
            ≡ (end_of (lease_rounds e n key s).0, (lease_rounds e n key s).1))
  unfolding next_round lease_rounds advances
  advances-next_round zero s = (0, omega arith, refl)
  advances-next_round (suc n) s =
      let (k, few, round) = advances-reading n s in
      let s1 = (lease_round e key s).1 in
      let (m, rest, rounds) = advances-next_round n s1 in
      elim (Outcome-cases (lease_round e key s).0) [
        | inl (none, p) ↦
            (k + m, omega arith, ground (arith, advances_add k m (k + m) (reading n) s refl))
        | inl (some l, p) ↦ (k, omega arith, ground arith)
        | inr (inl (err, p)) ↦ (k, omega arith, ground arith)
        | inr (inr p) ↦ (k, omega arith, ground arith)
      ]

-- `GetNodeLease` request by request, with no other call between its requests, ends after at most
-- 20 requests to the server, where and in the state that the whole function says.
pub get_node_lease-advances :
    (e : Etcd) (dc name : Bytes) (s : e.Store)
    → advances e 20 (lease_key dc name) (next_round e 5) s
      ≡ (end_of (get_node_lease e dc name s).0, (get_node_lease e dc name s).1)
unfolding get_node_lease
get_node_lease-advances e dc name s =
    let key = lease_key dc name in
    let (k, few, done) = advances-next_round e key 5 s in
    ground (
      arith,
      advances_add e key k (20 - k) 20 (next_round e 5) s (omega arith),
      advances-end_of e key (20 - k) (get_node_lease e dc name s).0 (get_node_lease e dc name s).1,
    )
