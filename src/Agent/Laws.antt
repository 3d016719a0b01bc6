-- ===== src/Agent/Laws.antt =====
-- What the agent does with the events of containers.
use ssle_project.Prelude.{
  ℕ, ◌≤◌, ◌≡◌, ◌≢◌, refl, ◌↔◌, ◌⊎◌, inl, inr, Bool, true, false, Bool-cases, Option, none, some,
  Option-cases, [], Bytes, codes, equal, equal_iff, arith, All,
}
use ssle_project.Handler.{ok, panic}
use ssle_project.Schemas.{RegisterServiceRequest}
use ssle_project.Keys.Parts.{IsPart}
use ssle_project.Agent.{
  Host, Container, Message, Verdict, valid, invalid, panics, create, start, container_event,
  other_event, text_at, lookup, check_image, handle_event, handle_event_container, act,
  container_started, admit, register_service_from_container, instance_name, port_specs, metrics_of,
}
use ssle_project.Agent.Numbers.{value_of, max_uint16, value_of-parse_uint}
use ssle_project.Agent.Names.{instance_name-IsPart, port_specs-HasPort, HasPort}

abbrev pub issuer_of : Container → Bytes
issuer_of ctr = text_at (codes "ssle.issuer") ctr.labels

abbrev pub san_of : Container → Bytes
san_of ctr = text_at (codes "ssle.san") ctr.labels

Verdict-cases :
    (v : Verdict) → (v ≡ valid) ⊎ (((reason : Bytes) × (v ≡ invalid reason)) ⊎ (v ≡ panics))
Verdict-cases valid = inl refl
Verdict-cases (invalid reason) = inr (inl (reason, refl))
Verdict-cases panics = inr (inr refl)

-- A managed container that is created or started, and found, is checked and settled.
pub handle_event_started :
    (h : Host) (evt : Message) (ctr : Container) (w w1 : h.World)
    → evt.type ≡ container_event
    → text_at (codes "manager") evt.attributes ≡ codes "ssle"
    → (evt.action ≡ create) ⊎ (evt.action ≡ start)
    → h.container_inspect evt.actor_id w ≡ (some ctr, w1)
    → handle_event h evt w ≡ admit h evt.actor_id ctr w1
unfolding handle_event handle_event_container act container_started
handle_event_started h evt ctr w w1 kind managed (inl e) found =
    ground (arith, equal_iff (text_at (codes "manager") evt.attributes) (codes "ssle"))
handle_event_started h evt ctr w w1 kind managed (inr e) found =
    ground (arith, equal_iff (text_at (codes "manager") evt.attributes) (codes "ssle"))

module _ (h : Host) where
  open h use {World}

  -- An event of a container that is not managed, or of anything but a container, changes nothing.
  pub handle_event_ignored :
      (evt : Message) (w : World)
      → (evt.type ≡ other_event)
        ⊎ (equal (text_at (codes "manager") evt.attributes) (codes "ssle") ≡ false)
      → handle_event h evt w ≡ (ok tt, w)
  unfolding handle_event handle_event_container
  handle_event_ignored evt w (inl e) = ground arith
  handle_event_ignored evt w (inr e) = ground arith

  -- When a managed container that can be inspected is created or started, and it does not pass the
  -- check of its image, the handler removes the container and then its image, and does nothing else
  -- after the check: nothing is registered.
  pub handle_event_unsigned :
      (evt : Message) (ctr : Container) (w w1 w2 : World)
      → evt.type ≡ container_event
      → text_at (codes "manager") evt.attributes ≡ codes "ssle"
      → (evt.action ≡ create) ⊎ (evt.action ≡ start)
      → h.container_inspect evt.actor_id w ≡ (some ctr, w1)
      → check_image h ctr w1 ≡ (ok false, w2)
      → handle_event h evt w
        ≡ (ok tt, h.image_remove ctr.image (h.container_remove evt.actor_id w2))
  unfolding admit
  handle_event_unsigned evt ctr w w1 w2 kind managed starts found bad =
      ground (arith, handle_event_started h evt ctr w w1 kind managed starts found)

  -- Everything that a check needs of a signed container.
  abbrev pub IsSigned : Container → World → Type 0
  IsSigned ctr w =
      (cert_id : h.CertId) × (img : h.Image) × (issuer_of ctr ≢ [])
      × (h.short_identity (issuer_of ctr) (san_of ctr) ≡ some cert_id)
      × ((h.image_inspect ctr.image w).0 ≡ some img)
      × ((h.verify_signature cert_id img (h.image_inspect ctr.image w).1).0 ≡ valid)

  check_image_passes :
      (ctr : Container) (w : World)
      → (check_image h ctr w).0 ≡ ok true
      → (issuer_of ctr ≡ []) ⊎ IsSigned ctr w
  unfolding check_image
  check_image_passes ctr w eq = elim (Bool-cases (equal (issuer_of ctr) [])) [
    | inl unsigned ↦ inl ((equal_iff (issuer_of ctr) []).0 unsigned)
    | inr named ↦ elim (Option-cases (h.short_identity (issuer_of ctr) (san_of ctr))) [
      | inl bad ↦ ground arith
      | inr (cert_id, known) ↦ elim (Option-cases (h.image_inspect ctr.image w).0) [
        | inl missing ↦ ground arith
        | inr (img, found) ↦
            elim (Verdict-cases
              (h.verify_signature cert_id img (h.image_inspect ctr.image w).1).0) [
                | inl good ↦
                    inr (
                      cert_id,
                      img,
                      ground (arith, equal_iff (issuer_of ctr) []),
                      known,
                      found,
                      good,
                    )
                | inr (inl (reason, bad)) ↦ ground arith
                | inr (inr crashes) ↦ ground arith
              ]
      ]
    ]
  ]

  check_image_passed :
      (ctr : Container) (w : World)
      → (issuer_of ctr ≡ []) ⊎ IsSigned ctr w
      → (check_image h ctr w).0 ≡ ok true
  unfolding check_image
  check_image_passed ctr w (inl unsigned) = ground (arith, equal_iff (issuer_of ctr) [])
  check_image_passed ctr w (inr (cert_id, img, named, known, found, good)) =
      ground (arith, equal_iff (issuer_of ctr) [])

  -- A check ends, or panics in the verification.
  pub check_image_ends :
      (ctr : Container) (w : World)
      → ((good : Bool) × ((check_image h ctr w).0 ≡ ok good)) ⊎ ((check_image h ctr w).0 ≡ panic)
  unfolding check_image
  check_image_ends ctr w = elim (Bool-cases (equal (issuer_of ctr) [])) [
    | inl unsigned ↦ inl (true, ground arith)
    | inr named ↦ elim (Option-cases (h.short_identity (issuer_of ctr) (san_of ctr))) [
      | inl bad ↦ inl (false, ground arith)
      | inr (cert_id, known) ↦ elim (Option-cases (h.image_inspect ctr.image w).0) [
        | inl missing ↦ inl (false, ground arith)
        | inr (img, found) ↦
            elim (Verdict-cases
              (h.verify_signature cert_id img (h.image_inspect ctr.image w).1).0) [
                | inl good ↦ inl (true, ground arith)
                | inr (inl (reason, bad)) ↦ inl (false, ground arith)
                | inr (inr crashes) ↦ inr (ground arith)
              ]
      ]
    ]
  ]

  -- A container passes the check exactly if its labels name no issuer, or they name a valid identity,
  -- its image can be inspected, and the verification of the image's signature against that identity
  -- reports no failure.
  pub check_image_exact :
      (ctr : Container) (w : World)
      → ((check_image h ctr w).0 ≡ ok true) ↔ ((issuer_of ctr ≡ []) ⊎ IsSigned ctr w)
  check_image_exact ctr w = (check_image_passes ctr w, check_image_passed ctr w)

  metrics-le :
      (metrics : Option Bytes) (port : ℕ) → metrics_of metrics ≡ some port → port ≤ max_uint16
  unfolding metrics_of value_of
  metrics-le none port eq = ground arith
  metrics-le (some s) port eq = ground (arith, value_of-parse_uint s)

  -- A registration from a container either sends nothing, or sends one request: for the service that
  -- the labels name, with an instance name without slashes, and with port numbers and a metrics port
  -- below 2 ^ 16.
  pub register_service_from_container_lem :
      (ctr : Container) (w w' : World)
      → register_service_from_container h ctr w ≡ (ok tt, w')
      → (w' ≡ w)
        ⊎ ((req : RegisterServiceRequest) × (port : ℕ) × (w' ≡ h.register req w)
            × (lookup (codes "ssle.service") ctr.labels ≡ some req.service)
            × IsPart req.instance'
            × All HasPort req.ports
            × (req.metrics_port ≡ some port)
            × (port ≤ max_uint16))
  unfolding register_service_from_container
  register_service_from_container_lem ctr w w' eq =
      elim (Option-cases (lookup (codes "ssle.service") ctr.labels)) [
        | inl unnamed ↦ inl (ground arith)
        | inr (svc, named) ↦
            elim (Option-cases (metrics_of (lookup (codes "ssle.metrics") ctr.labels))) [
              | inl malformed ↦ inl (ground arith)
              | inr (port, measured) ↦ elim (Option-cases (port_specs ctr.ports)) [
                | inl bad ↦ ground arith
                | inr (specs, listed) ↦ inr (
                  record {
                    service = svc;
                    instance' = instance_name ctr.name;
                    addresses = [];
                    ports = specs;
                    metrics_port = some port;
                  },
                  port,
                  ground arith,
                  named,
                  instance_name-IsPart ctr.name,
                  port_specs-HasPort ctr.ports specs listed,
                  refl,
                  metrics-le (lookup (codes "ssle.metrics") ctr.labels) port measured,
                )
              ]
            ]
      ]
