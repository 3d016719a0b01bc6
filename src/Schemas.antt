-- ===== src/Schemas.antt =====
-- The records that the services exchange: `NodeSchema` of registry/schemas/schemas.go, and the
-- messages of services/agent_api.proto. A pointer to a required field that the senders always set is
-- its value; an optional field is an `Option`.
use ssle_project.Prelude.{ℕ, Option, List, Bytes}

pub record NodeSchema : Type 0 where
  pub name : Bytes
  pub datacenter : Bytes
  pub location : Bytes
  pub type : Bytes

pub record PortSpec : Type 0 where
  pub name : Bytes
  pub port : ℕ
  pub protocol : Option Bytes

pub record ServiceSpec : Type 0 where
  pub service_name : Bytes
  pub instance' : Bytes
  pub location : Bytes
  pub datacenter : Bytes
  pub node : Bytes
  pub addresses : List Bytes
  pub ports : List PortSpec
  pub metrics_port : Option ℕ

pub record DiscoverRequest : Type 0 where
  pub service : Bytes
  pub location : Option Bytes
  pub datacenter : Option Bytes
  pub node : Option Bytes
  pub instance' : Option Bytes

pub record RegisterServiceRequest : Type 0 where
  pub service : Bytes
  pub instance' : Bytes
  pub addresses : List Bytes
  pub ports : List PortSpec
  pub metrics_port : Option ℕ

pub record DeregisterServiceRequest : Type 0 where
  pub service : Bytes
  pub instance' : Bytes
