-- ===== src/Tests/Events.antt =====
-- The agent's container events at concrete inputs.
use ssle_project.Prelude.{ℕ, ◌≡◌, ◌≤◌, ◌⊎◌, All, refl, some, List, [], ◌∷◌, codes, equal, arith}
use ssle_project.Handler.{ok}
use ssle_project.Schemas.{RegisterServiceRequest}
use ssle_project.Agent.{
  Host, Verdict, valid, Container, Message, create, container_event, lookup,
  register_service_from_container, port_specs, Labels, metrics_of, container_stopped, port_spec,
}
use ssle_project.Agent.Laws.{register_service_from_container_lem}
use ssle_project.Agent.Names.{HasPort}
use ssle_project.Agent.Stopped.{container_stopped-register_service_from_container}
use ssle_project.Agent.Numbers.{value_of, parse_uint, max_uint16}
use ssle_project.Keys.Parts.{IsPart}

-- A host whose log of calls is a number for each: 1 removes a container, 2 an image, 3 registers.
abbrev pub host : Container → Verdict → Host
host ctr verdict = record {
  World = List ℕ;
  CertId = Unit {0};
  Image = Unit {0};
  repo_tags = λ img. [];
  container_inspect = λ id w. (some ctr, w);
  container_remove = λ id w. 1 ∷ w;
  container_list = λ w. (some [], w);
  image_inspect = λ id w. (some tt, w);
  image_remove = λ id w. 2 ∷ w;
  short_identity = λ issuer san. some tt;
  verify_signature = λ cert_id img w. (verdict, w);
  write_event = λ evt w. w;
  register = λ req w. 3 ∷ w;
  deregister = λ req w. w;
}

abbrev pub signed : Container
signed = record {
  id = codes "c1";
  name = codes "/shop";
  image = codes "img";
  labels = (codes "ssle.issuer", codes "me") ∷ (codes "ssle.service", codes "shop") ∷ [];
  ports = (codes "80/tcp", (codes "8080" ∷ [])) ∷ [];
}

abbrev pub created : Message
created = record {
  type = container_event;
  action = create;
  actor_id = codes "c1";
  attributes = (codes "manager", codes "ssle") ∷ [];
}

abbrev stopped : Labels
stopped = (codes "name", codes "shop") ∷ (codes "ssle.service", codes "shop") ∷ []

abbrev logging : Host
logging = host signed valid

container_stopped-register_service_from_container_example :
    (req : RegisterServiceRequest) × (register_service_from_container logging signed []
      ≡ (ok tt, logging.register req []))
    × (container_stopped logging stopped (3 ∷ []) ≡ (
      ok tt,
      logging.deregister (record { service = req.service; instance' = req.instance' }) (3 ∷ []),
    ))
unfolding lookup equal port_specs metrics_of port_spec value_of parse_uint
container_stopped-register_service_from_container_example =
    container_stopped-register_service_from_container logging signed (codes "shop") (codes "shop") 0
      (record { name = codes "80"; port = 8080; protocol = some (codes "tcp") } ∷ []) stopped []
      (3 ∷ []) refl (ground arith) refl refl refl refl refl

abbrev registered_once : List ℕ
registered_once = 3 ∷ []

register_service_from_container_example :
    (registered_once ≡ [])
    ⊎ ((req : RegisterServiceRequest) × (port : ℕ) × (registered_once ≡ logging.register req [])
        × (lookup (codes "ssle.service") signed.labels ≡ some req.service)
        × IsPart req.instance'
        × All HasPort req.ports
        × (req.metrics_port ≡ some port)
        × (port ≤ max_uint16))
unfolding register_service_from_container lookup equal port_specs metrics_of port_spec value_of
    parse_uint
register_service_from_container_example =
    register_service_from_container_lem logging signed [] registered_once refl
