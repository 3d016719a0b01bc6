-- ===== src/Keys/Apart.antt =====
-- Keys of different namespaces are different.
use ssle_project.Prelude.{◌≡◌, refl, false, Bytes, equal}
use ssle_project.Keys.{node_key, service_key, dc_service_key, lease_key}

module _ (service location dc node instance' : Bytes) where
  pub service-ne-dc_service :
      (dc' node' service' instance'' : Bytes)
      → equal
          (service_key service location dc node instance')
          (dc_service_key dc' node' service' instance'')
        ≡ false
  unfolding equal service_key dc_service_key
  service-ne-dc_service dc' node' service' instance'' = refl

  pub dc_service-ne-service :
      (dc' node' service' instance'' : Bytes)
      → equal
          (dc_service_key dc' node' service' instance'')
          (service_key service location dc node instance')
        ≡ false
  unfolding equal service_key dc_service_key
  dc_service-ne-service dc' node' service' instance'' = refl

  pub service-ne-lease :
      (dc' node' : Bytes)
      → equal (service_key service location dc node instance') (lease_key dc' node') ≡ false
  unfolding equal service_key lease_key
  service-ne-lease dc' node' = refl

pub dc_service-ne-lease :
    (dc node service instance' dc' node' : Bytes)
    → equal (dc_service_key dc node service instance') (lease_key dc' node') ≡ false
unfolding equal dc_service_key lease_key
dc_service-ne-lease dc node service instance' dc' node' = refl

module _ (dc name : Bytes) where
  pub lease-ne-node : (dc' name' : Bytes) → equal (lease_key dc name) (node_key dc' name') ≡ false
  unfolding equal lease_key node_key
  lease-ne-node dc' name' = refl

  pub lease-ne-service :
      (service location dc' node instance' : Bytes)
      → equal (lease_key dc name) (service_key service location dc' node instance') ≡ false
  unfolding equal lease_key service_key
  lease-ne-service service location dc' node instance' = refl

  pub lease-ne-dc_service :
      (dc' node service instance' : Bytes)
      → equal (lease_key dc name) (dc_service_key dc' node service instance') ≡ false
  unfolding equal lease_key dc_service_key
  lease-ne-dc_service dc' node service instance' = refl

  pub service-ne-node :
      (service location dc' node instance' : Bytes)
      → equal (service_key service location dc' node instance') (node_key dc name) ≡ false
  unfolding equal service_key node_key
  service-ne-node service location dc' node instance' = refl

  pub dc_service-ne-node :
      (dc' node service instance' : Bytes)
      → equal (dc_service_key dc' node service instance') (node_key dc name) ≡ false
  unfolding equal dc_service_key node_key
  dc_service-ne-node dc' node service instance' = refl
