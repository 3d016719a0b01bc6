-- ===== src/Agent.antt =====
-- The container events of the agent: agent/main.go, with the events of agent/events/events.go.
pub mod Numbers
pub mod Signature
pub mod Trusted
pub mod Log
pub mod Load
pub mod Names
pub mod Stopped
pub mod Run
pub mod Laws
use ssle_project.Numbers.Decimal.{Parsed, parsed, invalid_syntax, out_of_range}
use ssle_project.Agent.Numbers.{parse_uint, value_of}
use ssle_project.Prelude.{
  ℕ, zero, suc, Bool, true, false, Option, none, some, List, [], ◌∷◌, ◌++◌, map, Bytes, codes,
  equal, ◌==◌, if◌then◌else◌,
}
use ssle_project.Handler.{ok, Handler, pure, crash, perform, Call, ◌>>=◌}
use ssle_project.Schemas.{PortSpec, RegisterServiceRequest, DeregisterServiceRequest}

-- A map with string keys.
abbrev pub Labels : Type 0
Labels = List (Bytes × Bytes)

unfoldable pub lookup : Bytes → Labels → Option Bytes
lookup k [] = none
lookup k ((j, v) ∷ m) = if equal j k then some v else lookup k m

-- Reading a missing key of a map gives the empty string.
abbrev pub text_at : Bytes → Labels → Bytes
text_at k m = elim (lookup k m) [ none ↦ [] | some v ↦ v ]

-- `ports` is the port map, with the host ports of each binding, in the order of the iteration.
pub record Container : Type 0 where
  pub id : Bytes
  pub name : Bytes
  pub image : Bytes
  pub labels : Labels
  pub ports : List (Bytes × List Bytes)

pub data Action : Type 0 where
  create start remove stop die other : Action

pub data EventType : Type 0 where
  container_event other_event : EventType

pub record Message : Type 0 where
  pub type : EventType
  pub action : Action
  pub actor_id : Bytes
  pub attributes : Labels

-- The events that are written to the log, without their time stamps.
pub data AuditEvent : Type 0 where
  no_signature_configuration : Bytes → AuditEvent
  unsigned_image : Bytes → Bytes → AuditEvent

-- `VerifyImageSignature` finds a valid signature, returns an error with this text, or panics.
pub data Verdict : Type 0 where
  valid : Verdict
  invalid : Bytes → Verdict
  panics : Verdict

-- The Docker client, the signature check, the events log and the client of the registry, with all
-- that they act on. Errors that are only logged are not told apart.
pub record Host : Type 1 where
  pub World : Type 0
  pub CertId : Type 0
  pub Image : Type 0
  pub repo_tags : Image → List Bytes
  pub container_inspect : Bytes → Call World Container
  pub container_remove : Bytes → World → World
  pub container_list : Call World (List Bytes)
  pub image_inspect : Bytes → Call World Image
  pub image_remove : Bytes → World → World
  pub short_identity : Bytes → Bytes → Option CertId
  pub verify_signature : CertId → Image → World → Verdict × World
  pub write_event : AuditEvent → World → World
  pub register : RegisterServiceRequest → World → World
  pub deregister : DeregisterServiceRequest → World → World

-- `strings.SplitN(port, "/", 2)` with both parts read; none is an index out of range.
unfoldable pub split_port : Bytes → Option (Bytes × Bytes)
split_port [] = none
split_port (c ∷ port) =
    let rest = split_port port in
    if c == b'/'
    then some ([], port)
    else elim rest [ none ↦ none | some (name, protocol) ↦ some (c ∷ name, protocol) ]

first_binding : Bytes → List Bytes → Bytes
first_binding name [] = name
first_binding name (host_port ∷ _) = host_port

unfoldable pub port_spec : Bytes → Bytes → List Bytes → PortSpec
unfolding first_binding
port_spec name protocol bind = record {
  name = name;
  port = value_of (parse_uint (first_binding name bind));
  protocol = some protocol;
}

-- The loop over the port map; none is a panic.
unfoldable pub port_specs : List (Bytes × List Bytes) → Option (List PortSpec)
unfolding split_port
port_specs [] = some []
port_specs ((port, bind) ∷ ports) =
    let rest = port_specs ports in
    elim (split_port port) [
      | none ↦ none
      | some (name, protocol) ↦ elim rest [
        | none ↦ none
        | some specs ↦ some (port_spec name protocol bind ∷ specs)
      ]
    ]

-- `strings.ReplaceAll(container, "/", "_")` behind `strings.CutPrefix(ctr.Name, "/")`.
abbrev pub replaced : ℕ → ℕ
replaced c = if c == b'/' then b'_' else c

unfoldable pub instance_name : Bytes → Bytes
instance_name [] = []
instance_name (c ∷ name) = map replaced (if c == b'/' then name else c ∷ name)

-- The metrics port of the labels: 0 if there is none, and none if it is no port number.
unfoldable pub metrics_of : Option Bytes → Option ℕ
metrics_of none = some 0
metrics_of (some metrics) = elim (parse_uint metrics) [
  | parsed n ↦ some n
  | invalid_syntax ↦ none
  | out_of_range ↦ none
]

module _ (h : Host) where
  unfoldable pub send_registration :
      Container → Bytes → ℕ → Option (List PortSpec) → Handler h.World (Unit {0})
  send_registration ctr svc metrics_port none = crash
  send_registration ctr svc metrics_port (some ports) = perform (
      h.register (record {
        service = svc;
        instance' = instance_name ctr.name;
        addresses = [];
        ports = ports;
        metrics_port = some metrics_port;
      }))

  unfoldable pub register_labelled :
      Container → Option Bytes → Option ℕ → Handler h.World (Unit {0})
  unfolding send_registration
  register_labelled ctr none metrics = pure tt
  register_labelled ctr (some svc) none = pure tt
  register_labelled ctr (some svc) (some metrics_port) =
      send_registration ctr svc metrics_port (port_specs ctr.ports)

  unfoldable pub register_service_from_container : Container → Handler h.World (Unit {0})
  unfolding register_labelled metrics_of
  register_service_from_container ctr =
      register_labelled ctr (lookup (codes "ssle.service") ctr.labels)
        (metrics_of (lookup (codes "ssle.metrics") ctr.labels))

  image_name : Container → List Bytes → Bytes
  image_name ctr [] = ctr.image
  image_name ctr (tag ∷ _) = tag

  -- The answer of the verification, and the event that reports a failure.
  verified : Bytes → Verdict → Handler h.World Bool
  verified image valid w = pure true w
  verified image (invalid reason) w = (ok false, h.write_event (unsigned_image image reason) w)
  verified image panics w = crash w

  verify_image : Container → h.CertId → Option h.Image → Handler h.World Bool
  unfolding image_name verified
  verify_image ctr cert_id none w = pure false w
  verify_image ctr cert_id (some img) w =
      let (verdict, w') = h.verify_signature cert_id img w in
      verified (image_name ctr (h.repo_tags img)) verdict w'

  with_identity : Container → Option h.CertId → Handler h.World Bool
  unfolding verify_image
  with_identity ctr none w = pure false w
  with_identity ctr (some cert_id) w =
      let (img, w') = h.image_inspect ctr.image w in verify_image ctr cert_id img w'

  unfoldable pub check_image : Container → Handler h.World Bool
  unfolding with_identity
  check_image ctr w =
      let issuer = text_at (codes "ssle.issuer") ctr.labels in
      let san = text_at (codes "ssle.san") ctr.labels in
      if equal issuer []
      then (ok true, h.write_event (no_signature_configuration ctr.name) w)
      else with_identity ctr (h.short_identity issuer san) w

  -- What follows the check of a container, for an event and at startup alike.
  unfoldable pub settle : Bytes → Container → Bool → Handler h.World (Unit {0})
  settle id ctr true = register_service_from_container ctr
  settle id ctr false = perform (λ w. h.image_remove ctr.image (h.container_remove id w))

  unfoldable pub admit : Bytes → Container → Handler h.World (Unit {0})
  unfolding settle
  admit id ctr = do good ← check_image ctr; settle id ctr good

  inspected : Bytes → Option Container → Handler h.World (Unit {0})
  unfolding admit
  inspected id none = pure tt
  inspected id (some ctr) = admit id ctr

  unfoldable pub container_started : Bytes → Handler h.World (Unit {0})
  unfolding inspected
  container_started id w = let (found, w') = h.container_inspect id w in inspected id found w'

  deregister_named : Option Bytes → Option Bytes → Handler h.World (Unit {0})
  deregister_named none service = pure tt
  deregister_named (some name) none = pure tt
  deregister_named (some name) (some service) =
      perform (h.deregister (record { service = service; instance' = name }))

  unfoldable pub container_stopped : Labels → Handler h.World (Unit {0})
  unfolding deregister_named
  container_stopped attributes =
      deregister_named (lookup (codes "name") attributes) (lookup (codes "ssle.service") attributes)

  unfoldable pub act : Action → Message → Handler h.World (Unit {0})
  act create evt = container_started evt.actor_id
  act start evt = container_started evt.actor_id
  act remove evt = container_stopped evt.attributes
  act stop evt = container_stopped evt.attributes
  act die evt = container_stopped evt.attributes
  act other evt = pure tt

  unfoldable pub handle_event_container : Message → Handler h.World (Unit {0})
  handle_event_container evt =
      if equal (text_at (codes "manager") evt.attributes) (codes "ssle")
      then act evt.action evt
      else pure tt

  dispatch : EventType → Message → Handler h.World (Unit {0})
  dispatch container_event evt = handle_event_container evt
  dispatch other_event evt = pure tt

  unfoldable pub handle_event : Message → Handler h.World (Unit {0})
  unfolding dispatch
  handle_event evt = dispatch evt.type evt

  -- The loop of `StartupConsistencyJob` ends at the first container that cannot be inspected.
  unfoldable pub check_listed : List Bytes → Handler h.World (Unit {0})
  check_listed [] w = pure tt w
  check_listed (id ∷ ids) w =
      let rest = check_listed ids in
      elim (h.container_inspect id w).0 [
        | none ↦ pure tt (h.container_inspect id w).1
        | some ctr ↦ (admit ctr.id ctr >>= λ _. rest) (h.container_inspect id w).1
      ]

  unfoldable pub listed : Option (List Bytes) → Handler h.World (Unit {0})
  unfolding check_listed
  listed none = crash
  listed (some ids) = check_listed ids

  unfoldable pub startup_consistency_job : Handler h.World (Unit {0})
  unfolding listed
  startup_consistency_job w = let (ids, w') = h.container_list w in listed ids w'
