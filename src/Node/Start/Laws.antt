-- ===== src/Node/Start/Laws.antt =====
-- A node that starts again in the directory that it has left.
use ssle_project.Prelude.{
  ◌≡◌, ◌≢◌, refl, inl, inr, Bool, true, Option, none, some, List, [], ◌∷◌, Bytes, codes, All,
  Option-cases, Bool-cases, arith, ◌∙◌, ap,
}
use mathlib.Core.Path.{subst}
use ssle_project.Handler.{ok, Outcome-cases}
use ssle_project.Files.{
  File, missing, unreadable, stored, Disk, writable, write_file, create_fails, write_fails,
}
use ssle_project.Node.{
  NodeState, Round, Answer, build, write_registry_addresses, load_registry_addresses, load_node_crt,
  scan_lines, write_provided, loaded_lines, update_addrs, get_registry_config,
  config_background_job,
}
use ssle_project.Node.Lines.{IsLine}
use ssle_project.Node.Laws.{load_written, CredentialsWritten, load_node_crt-config_background_job}
use ssle_project.Node.Start.{
  Mkdir, made, exists, mkdir_fails, Disks, Kept, Given, read_ca, fresh_state, connected,
  load_in_dir, load_node_state, files_of,
}

-- Addresses that the file can keep.
abbrev pub Printable : List Bytes → Type 0
Printable addrs = (addrs ≢ []) × All IsLine addrs

-- Every later start loads these addresses from this file, and leaves it as it is.
abbrev IsRemembered : List Bytes → File → Type 0
IsRemembered addrs f =
    (disk : Disk) (provided : List Bytes)
    → load_registry_addresses disk provided f ≡ (some addrs, f)

write_provided-IsRemembered :
    (disk : Disk) (provided addrs : List Bytes) (f f' : File)
    → Printable provided
    → write_provided disk provided f ≡ (some addrs, f')
    → IsRemembered addrs f'
unfolding write_provided write_registry_addresses write_file
write_provided-IsRemembered writable provided addrs f f' h eq =
    λ disk' provided'. let again = load_written provided h.0 h.1 disk' provided' in ground arith
write_provided-IsRemembered create_fails provided addrs f f' h eq = ground arith
write_provided-IsRemembered (write_fails partial) provided addrs f f' h eq = ground arith

load-IsRemembered :
    (disk : Disk) (provided addrs : List Bytes) (f f' : File)
    → Printable provided
    → load_registry_addresses disk provided f ≡ (some addrs, f')
    → IsRemembered addrs f'
unfolding load_registry_addresses loaded_lines
load-IsRemembered disk provided addrs missing f' h eq =
    write_provided-IsRemembered disk provided addrs missing f' h eq
load-IsRemembered disk provided addrs unreadable f' h eq = ground arith
load-IsRemembered disk provided addrs (stored text) f' h eq =
    elim (Option-cases (scan_lines text)) [
      | inl bad ↦ ground arith
      | inr ([], scanned) ↦
          write_provided-IsRemembered disk provided addrs (stored text) f' h (ground arith)
      | inr (line ∷ lines, scanned) ↦ λ disk' provided'. ground arith
    ]

-- The files of the credentials can be written, and, when the registry answers, so can the file of the
-- addresses, which the answer lists.
abbrev pub RoundWritten : Round → Type 0
RoundWritten r =
    CredentialsWritten r
    × ((res : Answer)
        → r.answer ≡ some res
        → (r.addrs_disk ≡ writable) × Printable res.registry_addrs)

module _ {K : Type 0} (x509_key_pair : Bytes → Bytes → Option K) where
  get_registry_config-IsRemembered :
      (r : Round) (s s' : NodeState K)
      → RoundWritten r
      → get_registry_config x509_key_pair r.cert_disk r.key_disk r.addrs_disk r.answer s ≡ ok s'
      → IsRemembered s.addrs s.addrs_file
      → IsRemembered s'.addrs s'.addrs_file
  unfolding get_registry_config update_addrs write_registry_addresses write_file
  get_registry_config-IsRemembered r s s' written eq old = elim (Option-cases r.answer) [
    | inl e ↦
        let same : s ≡ s' = ground arith in subst (λ x. IsRemembered x.addrs x.addrs_file) same old
    | inr (res, e) ↦ elim (Option-cases s.resolved) [
      | inl f ↦ ground arith
      | inr (before, f) ↦
          let (disk, printable) = written.1 res e in
          λ disk' provided'.
            let again = load_written res.registry_addrs printable.0 printable.1 disk' provided' in
            ground arith
    ]
  ]

  config_background_job-IsRemembered :
      (rounds : List Round) (s s' : NodeState K)
      → All RoundWritten rounds
      → config_background_job x509_key_pair rounds s ≡ ok s'
      → IsRemembered s.addrs s.addrs_file
      → IsRemembered s'.addrs s'.addrs_file
  unfolding config_background_job
  config_background_job-IsRemembered [] s s' h eq old =
      let same : s ≡ s' = ground arith in subst (λ x. IsRemembered x.addrs x.addrs_file) same old
  config_background_job-IsRemembered (r ∷ rounds) s s' h eq old =
      elim (Outcome-cases
        (get_registry_config x509_key_pair r.cert_disk r.key_disk r.addrs_disk r.answer s)) [
          | inl (s1, first) ↦
              config_background_job-IsRemembered rounds s1 s' h.1 (ground arith)
                (get_registry_config-IsRemembered r s s1 h.0 first old)
          | inr (inl (err, bad)) ↦ ground arith
          | inr (inr bad) ↦ ground arith
        ]

  All-CredentialsWritten :
      (rounds : List Round) → All RoundWritten rounds → All CredentialsWritten rounds
  All-CredentialsWritten [] h = tt
  All-CredentialsWritten (r ∷ rounds) h = (h.0.0, All-CredentialsWritten rounds h.1)

  module _ (new_client : Bytes → Bytes → Bytes → Bool) where
    -- What a start has found.
    record Loaded (disks : Disks) (given : Given) (kept : Kept) (s : NodeState K) : Type 0 where
      ca_pem : Bytes
      has_ca : read_ca given.ca_file ≡ some ca_pem
      creds :
          load_node_crt x509_key_pair disks.cert disks.key kept.cert_file kept.key_file
            given.crt_file given.key_file
          ≡ some s.credentials
      addrs :
          load_registry_addresses disks.addrs given.provided_urls kept.addrs_file
          ≡ (some s.addrs, s.addrs_file)
      unresolved : s.resolved ≡ none
      connects : new_client (codes "registry:///") (codes "registry.cluster.internal") ca_pem ≡ true

    load_in_dir-Loaded :
        (disks : Disks) (given : Given) (kept : Kept) (s : NodeState K)
        → load_in_dir x509_key_pair new_client disks given kept ≡ some s
        → Loaded disks given kept s
    unfolding load_in_dir fresh_state connected
    load_in_dir-Loaded disks given kept s eq = elim (Option-cases (read_ca given.ca_file)) [
      | inl bad ↦ ground arith
      | inr (ca_pem, has_ca) ↦
          elim (Option-cases (
            load_node_crt x509_key_pair disks.cert disks.key kept.cert_file kept.key_file
              given.crt_file given.key_file)) [
                | inl bad ↦ ground arith
                | inr (creds, loads) ↦
                    let f =
                      load_registry_addresses disks.addrs given.provided_urls kept.addrs_file in
                    elim (Option-cases f.0) [
                      | inl bad ↦ ground arith
                      | inr (addrs, lists) ↦
                          elim (Bool-cases (
                            new_client (codes "registry:///") (codes "registry.cluster.internal")
                              ca_pem)) [
                                | inl connects ↦
                                    let done : record {
                                      credentials = creds;
                                      addrs = addrs;
                                      resolved = none;
                                      addrs_file = f.1;
                                    }
                                        ≡ s =
                                      ground arith in
                                    subst (Loaded disks given kept) done (record {
                                      ca_pem = ca_pem;
                                      has_ca = has_ca;
                                      creds = loads;
                                      addrs = ap (λ o. (o, f.1)) lists;
                                      unresolved = refl;
                                      connects = connects;
                                    })
                                | inr bad ↦ ground arith
                              ]
                    ]
              ]
    ]

    load_node_state-Loaded :
        (mkdir : Mkdir) (disks : Disks) (given : Given) (kept : Kept) (s : NodeState K)
        → load_node_state x509_key_pair new_client mkdir disks given kept ≡ some s
        → Loaded disks given kept s
    unfolding load_node_state
    load_node_state-Loaded made disks given kept s eq = load_in_dir-Loaded disks given kept s eq
    load_node_state-Loaded exists disks given kept s eq = load_in_dir-Loaded disks given kept s eq
    load_node_state-Loaded mkdir_fails disks given kept s eq = ground arith

    -- A node that has started with at least one given address, all of which a line of the file can
    -- hold, and whose later writes go well, with such addresses in every answer of the registry, builds
    -- its resolver and goes through any number of rounds of the configuration job with no panic. A
    -- start after them, with the same authority and whatever else is configured, finds the credentials
    -- and the addresses that the node uses then.
    pub load_node_state-config_background_job :
        (mkdir : Mkdir) (disks : Disks) (given : Given) (kept : Kept) (s : NodeState K)
        (rounds : List Round)
        → load_node_state x509_key_pair new_client mkdir disks given kept ≡ some s
        → Printable given.provided_urls
        → All RoundWritten rounds
        → (s' : NodeState K) × (config_background_job x509_key_pair rounds (build x509_key_pair s)
            ≡ ok s')
          × ((again : Given)
              → again.ca_file ≡ given.ca_file
              → load_node_state x509_key_pair new_client exists
                  (record { cert = writable; key = writable; addrs = writable })
                  again
                  (files_of s')
                ≡ some (record s' { resolved = none }))
    unfolding build load_node_state load_in_dir fresh_state connected
    load_node_state-config_background_job mkdir disks given kept s rounds eq printable written =
        let l = load_node_state-Loaded mkdir disks given kept s eq in
        let (s', run, creds) =
          load_node_crt-config_background_job x509_key_pair disks.cert disks.key kept.cert_file
            kept.key_file given.crt_file given.key_file rounds (build x509_key_pair s) l.creds
            (λ p. cc) (All-CredentialsWritten rounds written) in
        let first =
          load-IsRemembered disks.addrs given.provided_urls s.addrs kept.addrs_file s.addrs_file
            printable l.addrs in
        let remembered =
          config_background_job-IsRemembered rounds (build x509_key_pair s) s' written run first in
        (
          s',
          run,
          λ again same.
              let has_ca : read_ca again.ca_file ≡ some l.ca_pem = ap read_ca same ∙ l.has_ca in
              let connects = l.connects in
              ground (
                arith,
                creds again.crt_file again.key_file,
                remembered writable again.provided_urls,
              ),
        )
