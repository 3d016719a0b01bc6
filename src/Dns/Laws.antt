-- ===== src/Dns/Laws.antt =====
-- What the agent's DNS handlers answer.
use ssle_project.Prelude.{
  ℕ, zero, suc, ◌<◌, ◌≡◌, ◌≢◌, refl, ltb, ◌||◌, false, none, some, List, [], ◌∷◌, ◌++◌, length,
  Bytes, arith, All, if◌then◌else◌, Bool-cases, Option-cases, inl, inr,
}
use ssle_project.Handler.{Call}
use ssle_project.Schemas.{ServiceSpec, DiscoverRequest}
use ssle_project.Keys.{split}
use ssle_project.Dns.{
  Library, Question, Rr, request_of, answer_of, answers_of, answers_of_all, query, serve_questions,
  serve_dns, forward_attempts, forward, cut_suffix, cluster_suffix,
}

-- The request for a name of one to five labels: the service is the last label, then come the location
-- and the datacenter. The fourth label is not used in a name of four labels, and the fifth is not used
-- at all.
pub request_of_labels :
    (svc loc dc node inst : Bytes)
    → (request_of (svc ∷ []) ≡ record {
      service = svc;
      location = none;
      datacenter = none;
      node = none;
      instance' = none;
    })
      × (request_of (loc ∷ svc ∷ []) ≡ record {
        service = svc;
        location = some loc;
        datacenter = none;
        node = none;
        instance' = none;
      })
      × (request_of (dc ∷ loc ∷ svc ∷ []) ≡ record {
        service = svc;
        location = some loc;
        datacenter = some dc;
        node = none;
        instance' = none;
      })
      × (request_of (node ∷ dc ∷ loc ∷ svc ∷ []) ≡ record {
        service = svc;
        location = some loc;
        datacenter = some dc;
        node = none;
        instance' = none;
      })
      × (request_of (inst ∷ node ∷ dc ∷ loc ∷ svc ∷ []) ≡ record {
        service = svc;
        location = some loc;
        datacenter = some dc;
        node = some node;
        instance' = none;
      })
unfolding request_of
request_of_labels svc loc dc node inst = (refl, refl, refl, refl, refl)

module _ (lib : Library) {W : Type 0} (discover : DiscoverRequest → Call W (List ServiceSpec)) where
  answer_of-aaaa : (q : Question) (addr : Bytes) → q.class ≢ lib.type_a → answer_of lib q addr ≡ []
  unfolding answer_of
  answer_of-aaaa q addr h = ground arith

  answers_of-aaaa :
      (q : Question) (addrs : List Bytes) → q.class ≢ lib.type_a → answers_of lib q addrs ≡ []
  unfolding answers_of
  answers_of-aaaa q [] h = refl
  answers_of-aaaa q (a ∷ addrs) h = rw (answer_of-aaaa q a h) (answers_of-aaaa q addrs h)

  answers_of_all-aaaa :
      (q : Question) (specs : List ServiceSpec)
      → q.class ≢ lib.type_a
      → answers_of_all lib q specs ≡ []
  unfolding answers_of_all
  answers_of_all-aaaa q [] h = refl
  answers_of_all-aaaa q (spec ∷ specs) h =
      rw (answers_of-aaaa q spec.addresses h) (answers_of_all-aaaa q specs h)

  -- No question's class has the value of type A.
  abbrev pub NoneIsA : List Question → Type 0
  NoneIsA = All (λ q. q.class ≢ lib.type_a)

  query-aaaa :
      (q : Question) (parts : List Bytes) (w : W) (more : List (Rr lib.Addr))
      → q.class ≢ lib.type_a
      → (query lib discover q parts w).0 ≡ some more
      → more ≡ []
  unfolding query
  query-aaaa q parts w more h eq =
      elim (Bool-cases (ltb (length parts) 1 || ltb 5 (length parts))) [
        | inl bad ↦ ground arith
        | inr good ↦ elim (Option-cases (discover (request_of parts) w).0) [
          | inl failed ↦ ground arith
          | inr (specs, found) ↦ ground (arith, answers_of_all-aaaa q specs h)
        ]
      ]

  serve_questions-aaaa :
      (questions : List Question) (rcode : ℕ) (w : W)
      → NoneIsA questions
      → (serve_questions lib discover questions rcode [] w).0.1 ≡ []
  unfolding serve_questions
  serve_questions-aaaa [] rcode w h = refl
  serve_questions-aaaa (q ∷ questions) rcode w h =
      let (path, found) = cut_suffix q.name cluster_suffix in
      let rcode' = if found then rcode else lib.rcode_name_error in
      let (got, w') = query lib discover q (split b'.' path) w in
      elim (Option-cases got) [
        | inl failed ↦ ground (arith, serve_questions-aaaa questions rcode' w h.1)
        | inr (more, found) ↦ ground (
          arith,
          query-aaaa q (split b'.' path) w more h.0,
          serve_questions-aaaa questions rcode' w h.1,
          serve_questions-aaaa questions rcode' w' h.1,
        )
      ]

  -- A message in which no question's class has the value of type A gets no answer, whatever the
  -- registry knows.
  pub serve_dns-aaaa :
      (questions : List Question) (rcode : ℕ) (w : W)
      → NoneIsA questions
      → (serve_dns lib discover questions rcode w).0.1 ≡ []
  unfolding serve_dns
  serve_dns-aaaa questions rcode w h = ground (arith, serve_questions-aaaa questions rcode w h)

  error_stays :
      (questions : List Question) (answers : List (Rr lib.Addr)) (w : W)
      → (serve_questions lib discover questions lib.rcode_name_error answers w).0.0
        ≡ lib.rcode_name_error
  unfolding serve_questions
  error_stays [] answers w = refl
  error_stays (q ∷ questions) answers w =
      let (path, found) = cut_suffix q.name cluster_suffix in
      let (got, w') = query lib discover q (split b'.' path) w in
      elim (Option-cases got) [
        | inl failed ↦ ground (arith, error_stays questions answers w)
        | inr (more, found) ↦
            ground
              (arith, error_stays questions answers w, error_stays questions (answers ++ more) w')
      ]

  outside_error :
      (before after : List Question) (q : Question) (rcode : ℕ) (answers : List (Rr lib.Addr))
      (w : W)
      → (cut_suffix q.name cluster_suffix).1 ≡ false
      → (serve_questions lib discover (before ++ q ∷ after) rcode answers w).0.0
        ≡ lib.rcode_name_error
  unfolding serve_questions
  outside_error [] after q rcode answers w h =
      let (got, w') = query lib discover q (split b'.' (cut_suffix q.name cluster_suffix).0) w in
      elim (Option-cases got) [
        | inl failed ↦ ground (arith, error_stays after answers w)
        | inr (more, found) ↦
            ground (arith, error_stays after answers w, error_stays after (answers ++ more) w')
      ]
  outside_error (b ∷ before) after q rcode answers w h =
      let (path, found) = cut_suffix b.name cluster_suffix in
      let rcode' = if found then rcode else lib.rcode_name_error in
      let (got, w') = query lib discover b (split b'.' path) w in
      elim (Option-cases got) [
        | inl failed ↦ ground (arith, outside_error before after q rcode' answers w h)
        | inr (more, found) ↦ ground (
          arith,
          outside_error before after q rcode' answers w h,
          outside_error before after q rcode' (answers ++ more) w' h,
        )
      ]

  -- A message with a question outside the cluster domain is answered with a name error and no
  -- answers, if the code of a name error is not 0.
  pub serve_dns_outside :
      (before after : List Question) (q : Question) (rcode : ℕ) (w : W)
      → lib.rcode_name_error ≢ 0
      → (cut_suffix q.name cluster_suffix).1 ≡ false
      → (serve_dns lib discover (before ++ q ∷ after) rcode w).0 ≡ (lib.rcode_name_error, [])
  unfolding serve_dns
  serve_dns_outside before after q rcode w ne h =
      ground (arith, outside_error before after q rcode [] w h)

module _ {W R : Type 0} (exchange : Bytes → Call W R) where
  attempts_reply :
      (n : ℕ) (server : Bytes) (w : W)
      → ((v : W) → (exchange server v).0 ≢ none)
      → 0 < n
      → (forward_attempts exchange n server w).0 ≢ none
  unfolding forward_attempts
  attempts_reply zero server w up h = absurd (omega arith)
  attempts_reply (suc n) server w up h = elim (Option-cases (exchange server w).0) [
    | inl down ↦ absurd (up w down)
    | inr (r, replied) ↦ ground arith
  ]

  -- If one of the configured servers always replies, and each server is asked at least once, then the
  -- forwarding handler gets a reply, whatever the servers before it do.
  pub forward_reply :
      (attempts : ℕ) (before after : List Bytes) (server : Bytes) (w : W)
      → ((v : W) → (exchange server v).0 ≢ none)
      → 0 < attempts
      → (forward exchange attempts (before ++ server ∷ after) w).0 ≢ none
  unfolding forward
  forward_reply attempts [] after server w up h =
      ground (arith, attempts_reply attempts server w up h)
  forward_reply attempts (b ∷ before) after server w up h =
      elim (Option-cases (forward_attempts exchange attempts b w).0) [
        | inl down ↦ ground (
          arith,
          forward_reply attempts before after server (forward_attempts exchange attempts b w).1 up
              h,
        )
        | inr (r, replied) ↦ ground arith
      ]
