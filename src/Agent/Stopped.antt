-- ===== src/Agent/Stopped.antt =====
-- Containers that start and stop: `registerServiceFromContainer` and the events of `handleEventContainer`.
use ssle_project.Prelude.{ℕ, ◌≡◌, refl, some, List, [], ◌∷◌, map, Bytes, codes, arith}
use ssle_project.Handler.{ok}
use ssle_project.Schemas.{PortSpec, RegisterServiceRequest}
use ssle_project.Keys.Parts.{IsPart}
use ssle_project.Agent.{
  Labels, lookup, Container, Host, port_specs, replaced, instance_name, metrics_of,
  register_service_from_container, container_stopped,
}

replaced_lem : (name : Bytes) → IsPart name → map replaced name ≡ name
replaced_lem [] h = refl
replaced_lem (c ∷ name) h = rw (h.0, replaced_lem name h.1) refl

instance_name_of_container : (name : Bytes) → IsPart name → instance_name (b'/' ∷ name) ≡ name
unfolding instance_name
instance_name_of_container name h = replaced_lem name h

-- A container whose name is a slash and a text with no other slash, with a service label, ports that have
-- a protocol and no malformed metrics label, is registered. An event that it has stopped, with the same
-- text as its name and the same service label, then deregisters the service and the instance of that
-- registration.
pub container_stopped-register_service_from_container :
    (h : Host) (ctr : Container) (name svc : Bytes) (port : ℕ) (ports : List PortSpec)
    (attributes : Labels) (w w' : h.World)
    → ctr.name ≡ b'/' ∷ name
    → IsPart name
    → lookup (codes "ssle.service") ctr.labels ≡ some svc
    → metrics_of (lookup (codes "ssle.metrics") ctr.labels) ≡ some port
    → port_specs ctr.ports ≡ some ports
    → lookup (codes "name") attributes ≡ some name
    → lookup (codes "ssle.service") attributes ≡ some svc
    → (req : RegisterServiceRequest) × (register_service_from_container h ctr w
        ≡ (ok tt, h.register req w))
      × (container_stopped h attributes w'
          ≡ (ok tt, h.deregister (record { service = req.service; instance' = req.instance' }) w'))
unfolding register_service_from_container container_stopped
container_stopped-register_service_from_container h ctr name svc port ports attributes w w' named
      part labelled metrics bound said said' =
    (
      record {
        service = svc;
        instance' = instance_name ctr.name;
        addresses = [];
        ports = ports;
        metrics_port = some port;
      },
      ground arith,
      ground (arith, instance_name_of_container name part),
    )
