-- ===== src/Etcd.antt =====
-- The embedded etcd server and the JSON coder, as the registry calls them. Neither is code of the
-- repository: they are parameters of the handlers. `IsHealthy` states what etcd documents of a
-- server that answers.
use ssle_project.Prelude.{
  ℕ, ◌+◌, suc, ◌≡◌, Bool, true, ◌&&◌, Option, none, some, List, [], ◌∷◌, Bytes, equal, ◌==◌,
  if◌then◌else◌,
}
use ssle_project.Handler.{Call}
use ssle_project.Schemas.{NodeSchema, ServiceSpec}

pub record RangeRequest : Type 0 where
  pub key : Bytes
  pub range_end : Option Bytes
  pub limit : ℕ

pub record KeyValue (W : Type 0) : Type 0 where
  pub key : Bytes
  pub value : W
  pub version : ℕ

-- `Compare_EQUAL` of the version, or of the create revision, of a key.
pub data Compare : Type 0 where
  version_is create_is : Bytes → ℕ → Compare

pub data RequestOp (W : Type 0) : Type 0 where
  put : Bytes → W → ℕ → RequestOp W
  delete : Bytes → RequestOp W

pub record TxnRequest (W : Type 0) : Type 0 where
  pub compare : List Compare
  pub success : List (RequestOp W)

-- `LeaseRevoke` returns no error, `lease.ErrLeaseNotFound`, or another error.
pub data Revoked : Type 0 where
  revoked lease_not_found failed : Revoked

-- What `encoding/json` does on one type. `none` is an error.
pub record Codec (W A : Type 0) : Type 0 where
  pub marshal : A → Option W
  pub unmarshal : W → Option A

-- `none` is an error of the call. A `true` of `txn` is `Succeeded`. `text` is the value as a string.
pub record Etcd : Type 1 where
  pub Store : Type 0
  pub Wire : Type 0
  pub range : RangeRequest → Call Store (List (KeyValue Wire))
  pub txn : TxnRequest Wire → Call Store Bool
  pub lease_grant : ℕ → Call Store ℕ
  pub lease_renew : ℕ → Call Store ℕ
  pub lease_revoke : ℕ → Store → Revoked × Store
  pub node_json : Codec Wire NodeSchema
  pub spec_json : Codec Wire ServiceSpec
  pub lease_json : Codec Wire ℕ
  pub text : Wire → Bytes

-- What is stored at a key. The create revision of an existing key is at least 1.
pub record Entry (W : Type 0) : Type 0 where
  pub value : W
  pub lease : ℕ
  pub version : ℕ
  pub create_index : ℕ

abbrev pub Contents : Type 0 → Type 0
Contents W = Bytes → Option (Entry W)

module _ {W : Type 0} where
  abbrev pub version_of : Option (Entry W) → ℕ
  version_of none = 0
  version_of (some e) = e.version

  abbrev pub create_revision_of : Option (Entry W) → ℕ
  create_revision_of none = 0
  create_revision_of (some e) = suc e.create_index

  abbrev pub holds : Compare → Contents W → Bool
  holds (version_is k v) c = version_of (c k) == v
  holds (create_is k r) c = create_revision_of (c k) == r

  abbrev pub all_hold : List Compare → Contents W → Bool
  all_hold [] c = true
  all_hold (p ∷ ps) c = holds p c && all_hold ps c

  abbrev pub created_at : ℕ → Option (Entry W) → ℕ
  created_at revision none = revision
  created_at revision (some e) = e.create_index

  abbrev pub store_at : Bytes → Option (Entry W) → Contents W → Contents W
  store_at k x c j = if equal k j then x else c j

  abbrev pub apply_op : ℕ → RequestOp W → Contents W → Contents W
  apply_op revision (put k v lease) c =
      store_at k
        (some (record {
          value = v;
          lease = lease;
          version = version_of (c k) + 1;
          create_index = created_at revision (c k);
        }))
        c
  apply_op revision (delete k) c = store_at k none c

  abbrev pub apply_ops : ℕ → List (RequestOp W) → Contents W → Contents W
  apply_ops revision [] c = c
  apply_ops revision (op ∷ ops) c = apply_ops revision ops (apply_op revision op c)

  abbrev pub found_at : Bytes → Option (Entry W) → List (KeyValue W)
  found_at k none = []
  found_at k (some e) = record { key = k; value = e.value; version = e.version } ∷ []

  abbrev pub kept : ℕ → Option (Entry W) → Option (Entry W)
  kept lease none = none
  kept lease (some e) = if e.lease == lease then none else some e

-- A coder reads back what it wrote.
abbrev pub RoundTrips : {W A : Type 0} → Codec W A → Type 0
RoundTrips {W} {A} c = (a : A) (w : W) → c.marshal a ≡ some w → c.unmarshal w ≡ some a

-- A server that answers: a range request of one key returns what is stored there, and a
-- transaction is applied at once, exactly if its comparisons hold. Revoking a lease removes the keys
-- that are attached to it.
pub record IsHealthy (e : Etcd) : Type 0 where
  pub contents : e.Store → Contents e.Wire
  pub revision : e.Store → ℕ
  pub range_key :
      (k : Bytes) (limit : ℕ) (s : e.Store)
      → e.range (record { key = k; range_end = none; limit = limit }) s
        ≡ (some (found_at k (contents s k)), s)
  pub txn_succeeds :
      (t : TxnRequest e.Wire) (s : e.Store) → (e.txn t s).0 ≡ some (all_hold t.compare (contents s))
  pub txn_applies :
      (t : TxnRequest e.Wire) (s : e.Store) (k : Bytes)
      → contents (e.txn t s).1 k ≡ (
          if all_hold t.compare (contents s)
          then apply_ops (revision s) t.success (contents s) k
          else contents s k)
  pub grant_keeps :
      (ttl : ℕ) (s : e.Store) (k : Bytes) → contents (e.lease_grant ttl s).1 k ≡ contents s k
  pub renew_keeps :
      (lease : ℕ) (s : e.Store) (k : Bytes) → contents (e.lease_renew lease s).1 k ≡ contents s k
  pub revoke_removes :
      (lease : ℕ) (s : e.Store) (k : Bytes)
      → (e.lease_revoke lease s).0 ≡ revoked
      → contents (e.lease_revoke lease s).1 k ≡ kept lease (contents s k)
