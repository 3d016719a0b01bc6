-- ===== src/Tests/Trust.antt =====
-- An event of a container with the signature check in place, at a concrete input.
use ssle_project.Prelude.{ℕ, ◌≡◌, ◌⊎◌, refl, inl, Option, some, List, [], ◌∷◌, Bytes, codes, equal}
use ssle_project.Handler.{ok, panic}
use ssle_project.Agent.{check_image, handle_event, register_service_from_container, lookup}
use ssle_project.Agent.Laws.{issuer_of}
use ssle_project.Agent.Trusted.{Daemon, agent_host, IsTrusted, handle_event-IsTrusted}
use ssle_project.Agent.Signature.{Failure}
use ssle_project.Tests.Events.{signed, created}
use ssle_project.Tests.Signatures.{coders, clients}

-- A daemon that runs the signed container, whose log of calls is a number for each.
abbrev daemon : Daemon
daemon = record {
  World = List ℕ;
  Image = Unit {0};
  repo_tags = λ img. [];
  repo_digests = λ img. codes "aa" ∷ [];
  container_inspect = λ id w. (some signed, w);
  container_remove = λ id w. 1 ∷ w;
  container_list = λ w. (some [], w);
  image_inspect = λ id w. (some tt, w);
  image_remove = λ id w. 2 ∷ w;
  write_event = λ evt w. w;
  register = λ req w. 3 ∷ w;
  deregister = λ req w. w;
}

abbrev no_text : Failure → Bytes
no_text e = []

abbrev anyone : Bytes → Bytes → Option (Unit {0})
anyone issuer san = some tt

handle_event-IsTrusted_example :
    let h = agent_host coders clients anyone no_text daemon in
    let w2 = (check_image h signed []).1 in
    ((handle_event h created []).0 ≡ panic)
    ⊎ ((handle_event h created [] ≡ (ok tt, 2 ∷ 1 ∷ w2))
        ⊎ (((issuer_of signed ≡ []) ⊎ IsTrusted coders clients anyone no_text daemon signed [])
            × (handle_event h created [] ≡ register_service_from_container h signed w2)))
unfolding lookup equal
handle_event-IsTrusted_example =
    handle_event-IsTrusted coders clients anyone no_text daemon created signed [] [] refl refl
      (inl refl) refl
