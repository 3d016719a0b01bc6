-- ===== src/Agent/Trusted.antt =====
-- The events of containers with the signature check of agent/signature.go in place: which containers
-- the agent keeps.
use ssle_project.Prelude.{
  ◌≡◌, refl, ◌⊎◌, inl, inr, true, false, Option, some, List, [], ◌∷◌, Bytes, codes, arith,
}
use ssle_project.Handler.{ok, panic, Call}
use ssle_project.Schemas.{RegisterServiceRequest, DeregisterServiceRequest}
use ssle_project.Numbers.Hex.{decode_hex}
use ssle_project.Agent.{
  Host, Container, Message, AuditEvent, Verdict, valid, invalid, panics, create, start,
  container_event, text_at, check_image, settle, admit, handle_event,
  register_service_from_container,
}
use ssle_project.Agent.Laws.{
  issuer_of, san_of, IsSigned, check_image_exact, check_image_ends, handle_event_started,
}
use ssle_project.Agent.Signature.{Failure, Result, ok, err, panic}
use ssle_project.Agent.Signature.Parts.{Coders}
use ssle_project.Agent.Signature.Bundle.{Clients, bundle_from_image, verify_image_signature}
use ssle_project.Agent.Signature.Laws.{IsDigestOf, verify_image_signature_sound}

-- The Docker daemon, the events log and the registry of services, without the signatures.
pub record Daemon : Type 1 where
  pub World : Type 0
  pub Image : Type 0
  pub repo_tags : Image → List Bytes
  pub repo_digests : Image → List Bytes
  pub container_inspect : Bytes → Call World Container
  pub container_remove : Bytes → World → World
  pub container_list : Call World (List Bytes)
  pub image_inspect : Bytes → Call World Image
  pub image_remove : Bytes → World → World
  pub write_event : AuditEvent → World → World
  pub register : RegisterServiceRequest → World → World
  pub deregister : DeregisterServiceRequest → World → World

-- What `checkImage` makes of the result of `VerifyImageSignature`; `text` is `err.Error()`.
abbrev pub verdict_of : (Failure → Bytes) → Result (Unit {0}) → Verdict
verdict_of text (ok _) = valid
verdict_of text (err e) = invalid (text e)
verdict_of text panic = panics

-- `identity` is `verify.NewShortCertificateIdentity`. The image registry answers as it does in `k`.
module _ (c : Coders) (k : Clients) (identity : Bytes → Bytes → Option k.CertId)
    (text : Failure → Bytes) (d : Daemon) where
  abbrev pub agent_host : Host
  agent_host = record {
    World = d.World;
    CertId = k.CertId;
    Image = d.Image;
    repo_tags = d.repo_tags;
    container_inspect = d.container_inspect;
    container_remove = d.container_remove;
    container_list = d.container_list;
    image_inspect = d.image_inspect;
    image_remove = d.image_remove;
    short_identity = identity;
    verify_signature = λ cert_id img w.
        (verdict_of text (verify_image_signature c k cert_id (d.repo_digests img)), w);
    write_event = d.write_event;
    register = d.register;
    deregister = d.deregister;
  }

  -- The image of a container can be inspected, and the verifier has accepted a bundle for it, under the
  -- identity of the labels.
  pub record IsTrusted (ctr : Container) (w : d.World) : Type 0 where
    pub cert_id : k.CertId
    pub img : d.Image
    pub first : Bytes
    pub rest : List Bytes
    pub image_digest : k.Digest
    pub bun : k.Bundle
    pub hex : Bytes
    pub digest : Bytes
    pub named : identity (issuer_of ctr) (san_of ctr) ≡ some cert_id
    pub found : (d.image_inspect ctr.image w).0 ≡ some img
    pub listed : d.repo_digests img ≡ first ∷ rest
    pub parsed : k.new_digest first ≡ some image_digest
    pub assembled : bundle_from_image c k (d.repo_digests img) true false ≡ ok (bun, hex)
    pub is_digest : IsDigestOf c k image_digest hex
    pub decoded : decode_hex hex ≡ some digest
    pub accepted : k.verify bun digest cert_id ≡ true

  verdict_of-valid : (r : Result (Unit {0})) → verdict_of text r ≡ valid → r ≡ ok tt
  verdict_of-valid (ok _) eq = refl
  verdict_of-valid (err e) eq = ground arith
  verdict_of-valid panic eq = ground arith

  IsSigned-IsTrusted : (ctr : Container) (w : d.World) → IsSigned agent_host ctr w → IsTrusted ctr w
  IsSigned-IsTrusted ctr w (cert_id, img, issued, named, found, good) =
      let (
        first, rest, g, bun, hex, digest, listed, parsed, assembled, is_digest, decoded, accepted,
      ) =
        verify_image_signature_sound c k cert_id (d.repo_digests img)
          (verdict_of-valid (verify_image_signature c k cert_id (d.repo_digests img)) good) in
      record {
        cert_id = cert_id;
        img = img;
        first = first;
        rest = rest;
        image_digest = g;
        bun = bun;
        hex = hex;
        digest = digest;
        named = named;
        found = found;
        listed = listed;
        parsed = parsed;
        assembled = assembled;
        is_digest = is_digest;
        decoded = decoded;
        accepted = accepted;
      }

  -- When a managed container that can be inspected is created or started, the handler panics, or it
  -- removes the container and its image and registers nothing after the check, or it registers the
  -- service of the container. The last is the case only if the labels name no issuer, or the verifier
  -- has accepted a bundle for the digest of the image, or of the layer behind its signature tag, under
  -- the identity that the labels name.
  pub handle_event-IsTrusted :
      (evt : Message) (ctr : Container) (w w1 : d.World)
      → evt.type ≡ container_event
      → text_at (codes "manager") evt.attributes ≡ codes "ssle"
      → (evt.action ≡ create) ⊎ (evt.action ≡ start)
      → d.container_inspect evt.actor_id w ≡ (some ctr, w1)
      → let w2 = (check_image agent_host ctr w1).1 in
        ((handle_event agent_host evt w).0 ≡ panic)
        ⊎ ((handle_event agent_host evt w
              ≡ (ok tt, d.image_remove ctr.image (d.container_remove evt.actor_id w2)))
            ⊎ (((issuer_of ctr ≡ []) ⊎ IsTrusted ctr w1)
                × (handle_event agent_host evt w
                    ≡ register_service_from_container agent_host ctr w2)))
  unfolding admit settle
  handle_event-IsTrusted evt ctr w w1 kind managed starts found =
      let started = handle_event_started agent_host evt ctr w w1 kind managed starts found in
      elim (check_image_ends agent_host ctr w1) [
        | inr crashes ↦ inl (ground arith)
        | inl (false, bad) ↦ inr (inl (ground arith))
        | inl (true, good) ↦ inr (
            inr (
              elim ((check_image_exact agent_host ctr w1).0 good) [
                | inl unsigned ↦ inl unsigned
                | inr signed ↦ inr (IsSigned-IsTrusted ctr w1 signed)
              ],
              ground arith,
            ))
      ]
