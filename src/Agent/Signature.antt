-- ===== src/Agent/Signature.antt =====
-- What agent/signature.go reads and builds: the manifests of the container registry, JSON values and
-- the parts of a Sigstore bundle, with the results of its functions.
pub mod Parts
pub mod Bundle
pub mod Laws
use ssle_project.Prelude.{
  ℕ, Bool, true, false, Option, none, some, List, [], ◌∷◌, Bytes, equal, if◌then◌else◌,
}
use ssle_project.Prelude.Int.{ℤ}
use ssle_project.Agent.{Labels}

-- An error of a library that is returned as it is, `errors.New` of a text, and `fmt.Errorf` of a text
-- and an error.
pub data Failure : Type 0 where
  library : Failure
  message : Bytes → Failure
  wrapped : Bytes → Failure → Failure

pub data Result {ℓ} (A : Type ℓ) : Type ℓ where
  ok : A → Result A
  err : Failure → Result A
  panic : Result A

infixl 5 ◌>>=◌
abbrev pub ◌>>=◌ {ℓ κ} : {A : Type ℓ} {B : Type κ} → Result A → (A → Result B) → Result B
ok a >>= f = f a
err e >>= f = err e
panic >>= f = panic

module _ {ℓ} {A : Type ℓ} where
  abbrev pub from_option : Failure → Option A → Result A
  from_option e none = err e
  from_option e (some a) = ok a

  abbrev pub wrap : Bytes → Result A → Result A
  wrap text (ok a) = ok a
  wrap text (err e) = err (wrapped text e)
  wrap text panic = panic

-- `v1.Hash` and `v1.Descriptor`.
pub record Hash : Type 0 where
  pub algorithm : Bytes
  pub hex : Bytes

pub record Layer : Type 0 where
  pub media_type : Bytes
  pub digest : Hash
  pub annotations : Labels

-- What `json.Unmarshal` makes of a value of any type; `F` is float64.
mutual
  pub data Json (F : Type 0) : Type 0 where
    number : F → Json F
    text : Bytes → Json F
    object : Fields F → Json F
    other : Json F

  pub data Fields (F : Type 0) : Type 0 where
    end : Fields F
    field : Bytes → Json F → Fields F → Fields F

-- `json.Unmarshal` into a map: an error, a null, or the fields that it sets.
pub data Decoded (F : Type 0) : Type 0 where
  malformed null : Decoded F
  fields : Fields F → Decoded F

module _ {F : Type 0} where
  -- Reading a missing key gives nil, which is of no other type.
  unfoldable pub field_at : Bytes → Fields F → Json F
  field_at k end = other
  field_at k (field j v m) = if equal j k then v else field_at k m

  -- The fields that are set stand in front of those that the map had.
  unfoldable pub merge : Fields F → Fields F → Fields F
  merge end old = old
  merge (field j v m) old = field j v (merge m old)

-- One entry of the transparency log, as it stands in the bundle.
pub record TlogEntry : Type 0 where
  pub log_index : ℤ
  pub key_id : Bytes
  pub kind : Bytes
  pub version : Bytes
  pub integrated_time : ℤ
  pub signed_entry_timestamp : Bytes
  pub canonicalized_body : Bytes

-- The certificate chain, the entries and the timestamps; a flag that is off leaves nil.
pub record Material : Type 0 where
  pub certificates : List Bytes
  pub tlog_entries : List TlogEntry
  pub timestamps : Option (List Bytes)

pub data HashAlgorithm : Type 0 where
  sha2_256 : HashAlgorithm

pub record MessageSignature : Type 0 where
  pub algorithm : HashAlgorithm
  pub digest : Bytes
  pub signature : Bytes

pub record ProtoBundle : Type 0 where
  pub media_type : Bytes
  pub verification_material : Material
  pub content : MessageSignature
