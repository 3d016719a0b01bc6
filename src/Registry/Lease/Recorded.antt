-- ===== src/Registry/Lease/Recorded.antt =====
-- What `GetNodeLease` leaves in the store.
use ssle_project.Prelude.{
  ℕ, zero, suc, ◌+◌, ◌≡◌, refl, true, false, Option, none, some, List, [], ◌∷◌, Bytes, equal,
  equal_refl, arith, Option-cases, inl, inr, ◌∙◌, ◌≢◌,
}
use ssle_project.Handler.{ok, Outcome-cases}
use ssle_project.Etcd.{
  Etcd, KeyValue, TxnRequest, Compare, version_is, create_is, put, IsHealthy, RoundTrips, Entry,
  found_at, version_of, created_at,
}
use ssle_project.Registry.Lease.{lease_round, lease_rounds, grant, stored_lease, unchanged}

module _ (e : Etcd) (h : IsHealthy e) where
  open h use {contents, revision}

  -- The lease that the store holds at a lease key.
  abbrev pub lease_at : Bytes → e.Store → Option ℕ
  lease_at key s = stored_lease e (found_at key (contents s key))

  pub grant-txn :
      (key : Bytes) (s : e.Store) (lease : ℕ) (w : e.Wire) (old : Option (Entry e.Wire))
      → contents s key ≡ old
      → (e.txn
          (record { compare = unchanged e key (found_at key old) ∷ []; success = put key w 0 ∷ [] })
          s).0
        ≡ some true
  unfolding unchanged
  grant-txn key s lease w none p = ground (
    arith,
    h.txn_succeeds (record { compare = create_is key 0 ∷ []; success = put key w 0 ∷ [] }) s,
  )
  grant-txn key s lease w (some old) p = ground (
    arith,
    h.txn_succeeds
        (record { compare = version_is key old.version ∷ []; success = put key w 0 ∷ [] }) s,
  )

  pub grant_leaves :
      (key : Bytes) (s : e.Store) (lease : ℕ) (w : e.Wire) (old : Option (Entry e.Wire))
      → contents s key ≡ old
      → e.lease_json.unmarshal w ≡ some lease
      → lease_at key
          (e.txn
            (record {
              compare = unchanged e key (found_at key old) ∷ [];
              success = put key w 0 ∷ [];
            })
            s).1
        ≡ some lease
  unfolding unchanged stored_lease
  grant_leaves key s lease w none p q = ground (
    arith,
    equal_refl key,
    h.txn_applies (record { compare = create_is key 0 ∷ []; success = put key w 0 ∷ [] }) s key,
  )
  grant_leaves key s lease w (some old) p q = ground (
    arith,
    equal_refl key,
    h.txn_applies (record { compare = version_is key old.version ∷ []; success = put key w 0 ∷ [] })
        s key,
  )

  -- What a transaction that goes through stores.
  pub grant_writes :
      (key : Bytes) (s : e.Store) (w : e.Wire) (old : Option (Entry e.Wire))
      → contents s key ≡ old
      → contents
          (e.txn
            (record {
              compare = unchanged e key (found_at key old) ∷ [];
              success = put key w 0 ∷ [];
            })
            s).1
          key
        ≡ some (record {
          value = w;
          lease = 0;
          version = version_of old + 1;
          create_index = created_at (revision s) old;
        })
  unfolding unchanged
  grant_writes key s w none p = ground (
    arith,
    equal_refl key,
    h.txn_applies (record { compare = create_is key 0 ∷ []; success = put key w 0 ∷ [] }) s key,
  )
  grant_writes key s w (some old) p = ground (
    arith,
    equal_refl key,
    h.txn_applies (record { compare = version_is key old.version ∷ []; success = put key w 0 ∷ [] })
        s key,
  )

  -- A transaction of a call that read the key before another call wrote it.
  pub txn_refused :
      (key : Bytes) (s : e.Store) (w : e.Wire) (old : Option (Entry e.Wire))
      → contents s key ≢ none
      → version_of (contents s key) ≡ version_of old + 1
      → let t =
          e.txn
            (record {
              compare = unchanged e key (found_at key old) ∷ [];
              success = put key w 0 ∷ [];
            })
            s in
        (t.0 ≡ some false) × (contents t.1 key ≡ contents s key)
  unfolding unchanged
  txn_refused key s w none stored newer = elim (Option-cases (contents s key)) [
    | inl unused ↦ absurd (stored unused)
    | inr (entry, used) ↦
        let t : TxnRequest e.Wire = record {
          compare = create_is key 0 ∷ [];
          success = put key w 0 ∷ [];
        } in
        ground (arith, h.txn_succeeds t s, h.txn_applies t s key)
  ]
  txn_refused key s w (some old) stored newer =
      let t : TxnRequest e.Wire = record {
        compare = version_is key old.version ∷ [];
        success = put key w 0 ∷ [];
      } in
      ground (arith, h.txn_succeeds t s, h.txn_applies t s key)

  grant_lem :
      RoundTrips e.lease_json
      → (key : Bytes) (s s' : e.Store) (old : Option (Entry e.Wire)) (found : Option ℕ)
      → contents s key ≡ old
      → grant e key (found_at key old) s ≡ (ok found, s')
      → (found ≢ none) × (lease_at key s' ≡ found)
  unfolding grant
  grant_lem rt key s s' old found same eq = elim (Option-cases (e.lease_grant 30 s).0) [
    | inl no_lease ↦ ground arith
    | inr (lease, granted) ↦ elim (Option-cases (e.lease_json.marshal lease)) [
      | inl bad ↦ ground arith
      | inr (w, coded) ↦
          let s1 = (e.lease_grant 30 s).1 in
          let same1 = h.grant_keeps 30 s key ∙ same in
          ground (
            arith,
            grant-txn key s1 lease w old same1,
            grant_leaves key s1 lease w old same1 (rt lease w coded),
          )
    ]
  ]

  lease_round_lem :
      RoundTrips e.lease_json
      → (key : Bytes) (s s' : e.Store) (found : Option ℕ) → lease_round e key s ≡ (ok found, s')
      → (found ≢ none) × (lease_at key s' ≡ found)
  unfolding lease_round
  lease_round_lem rt key s s' found eq = elim (Option-cases (lease_at key s)) [
    | inl fresh ↦
        ground (arith, h.range_key key 0 s, grant_lem rt key s s' (contents s key) found refl)
    | inr (lease_id, stored) ↦ elim (Option-cases (e.lease_renew lease_id s).0) [
      | inl lost ↦ ground (
        arith,
        h.range_key key 0 s,
        grant_lem rt key (e.lease_renew lease_id s).1 s' (contents s key) found
            (h.renew_keeps lease_id s key),
      )
      | inr (ttl, live) ↦ ground (arith, h.range_key key 0 s, h.renew_keeps lease_id s key)
    ]
  ]

  pub lease_rounds_lem :
      RoundTrips e.lease_json
      → (n : ℕ) (key : Bytes) (s s' : e.Store) (lease : ℕ) → lease_rounds e n key s ≡ (ok lease, s')
      → lease_at key s' ≡ some lease
  unfolding lease_rounds
  lease_rounds_lem rt zero key s s' lease eq = ground arith
  lease_rounds_lem rt (suc n) key s s' lease eq = elim (Outcome-cases (lease_round e key s).0) [
    | inl (none, p) ↦
        absurd ((lease_round_lem rt key s (lease_round e key s).1 none (ground arith)).0 refl)
    | inl (some l, p) ↦ ground (arith, lease_round_lem rt key s (lease_round e key s).1 (some l))
    | inr (inl (err, p)) ↦ ground arith
    | inr (inr p) ↦ ground arith
  ]

  txn_frame :
      (key k : Bytes) (c : Compare) (w : e.Wire) (s : e.Store)
      → equal key k ≡ false
      → contents (e.txn (record { compare = c ∷ []; success = put key w 0 ∷ [] }) s).1 k
        ≡ contents s k
  txn_frame key k c w s ne =
      ground (arith, h.txn_applies (record { compare = c ∷ []; success = put key w 0 ∷ [] }) s k)

  grant_frame :
      (key k : Bytes) (kvs : List (KeyValue e.Wire)) (s : e.Store)
      → equal key k ≡ false
      → contents (grant e key kvs s).1 k ≡ contents s k
  unfolding grant
  grant_frame key k kvs s ne = elim (Option-cases (e.lease_grant 30 s).0) [
    | inl no_lease ↦ ground (arith, h.grant_keeps 30 s k)
    | inr (lease, granted) ↦ elim (Option-cases (e.lease_json.marshal lease)) [
      | inl bad ↦ ground (arith, h.grant_keeps 30 s k)
      | inr (w, coded) ↦ ground (
        arith,
        h.grant_keeps 30 s k,
        txn_frame key k (unchanged e key kvs) w (e.lease_grant 30 s).1 ne,
      )
    ]
  ]

  lease_round_frame :
      (key k : Bytes) (s : e.Store)
      → equal key k ≡ false
      → contents (lease_round e key s).1 k ≡ contents s k
  unfolding lease_round
  lease_round_frame key k s ne = elim (Option-cases (lease_at key s)) [
    | inl fresh ↦
        ground (arith, h.range_key key 0 s, grant_frame key k (found_at key (contents s key)) s ne)
    | inr (lease_id, stored) ↦ ground (
      arith,
      h.range_key key 0 s,
      h.renew_keeps lease_id s k,
      grant_frame key k (found_at key (contents s key)) (e.lease_renew lease_id s).1 ne,
    )
  ]

  pub lease_rounds_frame :
      (n : ℕ) (key k : Bytes) (s : e.Store)
      → equal key k ≡ false
      → contents (lease_rounds e n key s).1 k ≡ contents s k
  unfolding lease_rounds
  lease_rounds_frame zero key k s ne = refl
  lease_rounds_frame (suc n) key k s ne =
      ground
        (arith, lease_round_frame key k s ne, lease_rounds_frame n key k (lease_round e key s).1 ne)

  module _ (grants : (s : e.Store) → (e.lease_grant 30 s).0 ≢ none)
      (marshals : (lease : ℕ) → e.lease_json.marshal lease ≢ none) where
    grant_total :
        (key : Bytes) (s : e.Store) (old : Option (Entry e.Wire))
        → contents s key ≡ old
        → (lease : ℕ) × ((grant e key (found_at key old) s).0 ≡ ok (some lease))
    unfolding grant
    grant_total key s old same = elim (Option-cases (e.lease_grant 30 s).0) [
      | inl no_lease ↦ absurd (grants s no_lease)
      | inr (lease, granted) ↦ elim (Option-cases (e.lease_json.marshal lease)) [
        | inl bad ↦ absurd (marshals lease bad)
        | inr (w, coded) ↦ (
          lease,
          ground (
            arith,
            grant-txn key (e.lease_grant 30 s).1 lease w old (h.grant_keeps 30 s key ∙ same),
          ),
        )
      ]
    ]

    pub lease_round_total :
        (key : Bytes) (s : e.Store) → (lease : ℕ) × ((lease_round e key s).0 ≡ ok (some lease))
    unfolding lease_round
    lease_round_total key s = elim (Option-cases (lease_at key s)) [
      | inl fresh ↦
          let (lease, granted) = grant_total key s (contents s key) refl in
          (lease, ground (arith, h.range_key key 0 s))
      | inr (lease_id, stored) ↦ elim (Option-cases (e.lease_renew lease_id s).0) [
        | inl lost ↦
            let (lease, granted) =
              grant_total key (e.lease_renew lease_id s).1 (contents s key)
                (h.renew_keeps lease_id s key) in
            (lease, ground (arith, h.range_key key 0 s))
        | inr (ttl, live) ↦ (lease_id, ground (arith, h.range_key key 0 s))
      ]
    ]
