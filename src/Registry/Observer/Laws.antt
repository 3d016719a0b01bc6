-- ===== src/Registry/Observer/Laws.antt =====
-- What observers are told: deletions name the service that was registered, and a datacenter's prefix
-- selects that datacenter only.
use ssle_project.Prelude.{
  ◌≡◌, refl, ap, ◌∙◌, some, List, [], ◌∷◌, ◌++◌, Bytes, arith, has_prefix, in_range, equal, codes,
}
use mathlib.Core.List.{append_assoc}
use ssle_project.Schemas.{NodeSchema}
use ssle_project.Keys.{under, dc_service_key, dc_services_namespace, prefix_end, split}
use ssle_project.Keys.Parts.{IsPart, split-parts}
use ssle_project.Keys.Range.{prefix_end-exact}
use ssle_project.Etcd.{Etcd}
use ssle_project.Registry.Services.{keys_of}
use ssle_project.Registry.Observer.{
  dc_prefix, delete, last_three, deleted_service, delete_event, message_of,
}

last_three-append :
    (xs : List Bytes) (a b c : Bytes)
    → last_three (xs ++ a ∷ b ∷ c ∷ [])
      ≡ some (record { node = a; service_name = b; instance' = c })
unfolding last_three
last_three-append [] a b c = refl
last_three-append (x ∷ []) a b c = refl
last_three-append (x ∷ y ∷ []) a b c = refl
last_three-append (x ∷ y ∷ z ∷ []) a b c = refl
last_three-append (x ∷ y ∷ z ∷ w ∷ xs) a b c = last_three-append (y ∷ z ∷ w ∷ xs) a b c

deleted_service_lem :
    (dc name service instance' : Bytes)
    → IsPart name
    → IsPart service
    → IsPart instance'
    → deleted_service (dc_service_key dc name service instance')
      ≡ some (record { node = name; service_name = service; instance' = instance' })
unfolding deleted_service dc_service_key
deleted_service_lem dc name service instance' hn hs hi =
    let base = under dc_services_namespace dc in
    ap last_three (split-parts base name service instance' hn hs hi)
    ∙ last_three-append (split b'/' base) name service instance'

-- The message for a deletion of a registered service at its datacenter key names the node, the
-- service and the instance, whatever the datacenter is called, if none of those three contains a
-- slash.
pub message_of-keys_of :
    (e : Etcd) (node : NodeSchema) (service instance' : Bytes)
    → IsPart node.name
    → IsPart service
    → IsPart instance'
    → message_of e (delete_event (keys_of node service instance').1)
      ≡ some (delete (record { node = node.name; service_name = service; instance' = instance' }))
unfolding message_of keys_of deleted_service split dc_service_key
message_of-keys_of e node service instance' hn hs hi =
    rw (deleted_service_lem node.datacenter node.name service instance' hn hs hi)

has_prefix_part :
    (d dc rest : Bytes)
    → IsPart d
    → IsPart dc
    → has_prefix (d ++ b'/' ∷ []) (dc ++ b'/' ∷ rest) ≡ equal d dc
unfolding has_prefix equal
has_prefix_part [] [] rest h h' = refl
has_prefix_part [] (y ∷ dc) rest h h' = ground arith
has_prefix_part (x ∷ d) [] rest h h' = ground arith
has_prefix_part (x ∷ d) (y ∷ dc) rest h h' = ground (arith, has_prefix_part d dc rest h.1 h'.1)

-- The range of a datacenter's services holds a datacenter key exactly if its datacenter is the same,
-- when neither name contains a slash.
pub dc_prefix_selects :
    (node : NodeSchema) (dc name service instance' : Bytes)
    → IsPart node.datacenter
    → IsPart dc
    → in_range
        (dc_prefix node)
        (prefix_end (dc_prefix node))
        (dc_service_key dc name service instance')
      ≡ equal node.datacenter dc
unfolding dc_prefix dc_service_key has_prefix
dc_prefix_selects node dc name service instance' h h' =
    prefix_end-exact (codes "dcsvc/" ++ node.datacenter) b'/'
      (dc_service_key dc name service instance') (omega arith)
    ∙ simp append_assoc
        (has_prefix_part node.datacenter dc (name ++ b'/' ∷ (service ++ b'/' ∷ instance')) h h')
