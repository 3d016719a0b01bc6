-- ===== src/Node/Laws.antt =====
-- What a node finds in its files when it starts again is what it used before.
use mathlib.Core.Path.{subst}
use ssle_project.Prelude.{
  ◌≡◌, ◌≢◌, refl, sym, inl, inr, Option, none, some, List, [], ◌∷◌, Bytes, All, Option-cases, arith,
}
use ssle_project.Handler.{ok}
use ssle_project.Files.{File, stored, Disk, writable, write_file}
use ssle_project.Node.{
  Credentials, NodeState, Round, write_registry_addresses, load_registry_addresses, read_kept,
  keep_crt, load_node_crt, print_lines, update_credentials, update_addrs, renewed_credentials,
  get_registry_config, config_background_job,
}
use ssle_project.Node.Lines.{IsLine, scan_lines-print_lines}

pub load_written :
    (addrs : List Bytes)
    → addrs ≢ []
    → All IsLine addrs
    → (disk : Disk) (provided : List Bytes)
    → load_registry_addresses disk provided (stored (print_lines addrs))
      ≡ (some addrs, stored (print_lines addrs))
unfolding load_registry_addresses
load_written [] nonempty lines disk provided = absurd (nonempty refl)
load_written (a ∷ addrs) nonempty lines disk provided =
    rw (scan_lines-print_lines (a ∷ addrs) lines)

-- The certificate and the key file can be written in this round.
abbrev pub CredentialsWritten : Round → Type 0
CredentialsWritten r = (r.cert_disk ≡ writable) × (r.key_disk ≡ writable)

module _ {K : Type 0} (x509_key_pair : Bytes → Bytes → Option K) where
  -- A node with a connection that is given new addresses tells them to the connection. If the
  -- addresses file could be written, then a later start loads the same addresses from it, whatever
  -- addresses it is provided with, when there is at least one address, and none has a newline, ends in
  -- a carriage return, or has 65536 bytes or more.
  pub load_registry_addresses-update_addrs :
      (s : NodeState K) (addrs : List Bytes)
      → s.resolved ≢ none
      → addrs ≢ []
      → All IsLine addrs
      → (s' : NodeState K) × (update_addrs x509_key_pair writable addrs s ≡ ok s')
        × (s'.resolved ≡ some addrs)
        × ((disk : Disk) (provided : List Bytes)
            → load_registry_addresses disk provided s'.addrs_file ≡ (some addrs, s'.addrs_file))
  unfolding update_addrs write_registry_addresses
  load_registry_addresses-update_addrs s addrs built nonempty lines =
      elim (Option-cases s.resolved) [
        | inl e ↦ absurd (built e)
        | inr (before, e) ↦ rw e (
          record s {
            addrs = addrs;
            resolved = some addrs;
            addrs_file = stored (print_lines addrs);
          },
          refl,
          refl,
          load_written addrs nonempty lines,
        )
      ]

  -- Both files hold the pair that is in use.
  record IsKept (creds : Credentials K) : Type 0 where
    crt : Bytes
    key : Bytes
    cert_file : creds.cert_file ≡ stored crt
    key_file : creds.key_file ≡ stored key
    is_pair : x509_key_pair crt key ≡ some creds.key_pair

  load_node_crt-IsKept :
      (cert_disk key_disk : Disk) (cert_file key_file crt_given key_given : File)
      (creds : Credentials K)
      → load_node_crt x509_key_pair cert_disk key_disk cert_file key_file crt_given key_given
        ≡ some creds
      → IsKept creds
  unfolding load_node_crt keep_crt write_file
  load_node_crt-IsKept cert_disk key_disk cert_file key_file crt_given key_given creds p =
      elim (Option-cases (read_kept cert_file crt_given)) [
        | inl e ↦ ground arith
        | inr (crt, e) ↦ elim (Option-cases (read_kept key_file key_given)) [
          | inl f ↦ ground arith
          | inr (key, f) ↦ elim (Option-cases (x509_key_pair crt key)) [
            | inl g ↦ ground arith
            | inr (pair, g) ↦ record {
              crt = crt;
              key = key;
              cert_file = ground arith;
              key_file = ground arith;
              is_pair = ground arith;
            }
          ]
        ]
      ]

  load_node_crt-kept :
      (creds : Credentials K) (crt_given key_given : File)
      → IsKept creds
      → load_node_crt x509_key_pair writable writable creds.cert_file creds.key_file crt_given
          key_given
        ≡ some creds
  unfolding load_node_crt keep_crt write_file read_kept
  load_node_crt-kept creds crt_given key_given h =
      let in_crt = h.cert_file in let in_key = h.key_file in let pair = h.is_pair in ground arith

  update_credentials-none :
      (crt key : Bytes) (creds : Credentials K)
      → x509_key_pair crt key ≡ none
      → update_credentials x509_key_pair writable writable crt key creds ≡ creds
  unfolding update_credentials
  update_credentials-none crt key creds e = ground arith

  update_credentials-some :
      (crt key : Bytes) (pair : K) (creds : Credentials K)
      → x509_key_pair crt key ≡ some pair
      → update_credentials x509_key_pair writable writable crt key creds
        ≡ record { key_pair = pair; cert_file = stored crt; key_file = stored key }
  unfolding update_credentials write_file
  update_credentials-some crt key pair creds e = ground arith

  renewed_credentials-IsKept :
      (crt key : Option Bytes) (creds : Credentials K)
      → IsKept creds
      → IsKept (renewed_credentials x509_key_pair writable writable crt key creds)
  unfolding renewed_credentials update_credentials write_file
  renewed_credentials-IsKept none key creds h = h
  renewed_credentials-IsKept (some crt) none creds h = h
  renewed_credentials-IsKept (some crt) (some key) creds h =
      elim (Option-cases (x509_key_pair crt key)) [
        | inl e ↦ subst IsKept (sym (update_credentials-none crt key creds e)) h
        | inr (pair, e) ↦
            subst IsKept (sym (update_credentials-some crt key pair creds e))
              (record { crt = crt; key = key; cert_file = refl; key_file = refl; is_pair = e })
      ]

  -- The credentials are kept in the files, and the connection has its resolver.
  abbrev IsReady : NodeState K → Type 0
  IsReady s = IsKept s.credentials × (s.resolved ≢ none)

  get_registry_config-IsReady :
      (r : Round) (s : NodeState K)
      → CredentialsWritten r
      → IsReady s
      → (s' : NodeState K) × (get_registry_config x509_key_pair r.cert_disk r.key_disk r.addrs_disk
            r.answer s
          ≡ ok s')
        × IsReady s'
  unfolding get_registry_config update_addrs
  get_registry_config-IsReady r s (c, k) ready = elim (Option-cases r.answer) [
    | inl e ↦ (s, ground arith, ready)
    | inr (res, e) ↦ elim (Option-cases s.resolved) [
      | inl f ↦ absurd (ready.1 f)
      | inr (before, f) ↦
          let s' : NodeState K = record {
            credentials =
                renewed_credentials x509_key_pair writable writable res.certificate res.key
                  s.credentials;
            addrs = res.registry_addrs;
            resolved = some res.registry_addrs;
            addrs_file = (write_registry_addresses r.addrs_disk res.registry_addrs s.addrs_file).1;
          } in
          (
            s',
            ground arith,
            (
              renewed_credentials-IsKept res.certificate res.key s.credentials ready.0,
              ground arith,
            ),
          )
    ]
  ]

  config_background_job-IsReady :
      (rounds : List Round) (s : NodeState K)
      → All CredentialsWritten rounds
      → IsReady s
      → (s' : NodeState K) × (config_background_job x509_key_pair rounds s ≡ ok s') × IsReady s'
  unfolding config_background_job
  config_background_job-IsReady [] s h ready = (s, refl, ready)
  config_background_job-IsReady (r ∷ rounds) s h ready =
      let (s1, first, ready1) = get_registry_config-IsReady r s h.0 ready in
      let (s2, others, ready2) = config_background_job-IsReady rounds s1 h.1 ready1 in
      (s2, rw (config_background_job, first) others, ready2)

  -- A node that loaded its credentials and has its connection, and whose certificate and key files can
  -- be written, goes through any number of rounds of the configuration job with no panic, whatever the
  -- registry answers. A start after them loads the very credentials that the node uses then, whatever
  -- files it is given for a first start.
  pub load_node_crt-config_background_job :
      (cert_disk key_disk : Disk) (cert_file key_file crt_given key_given : File)
      (rounds : List Round) (s : NodeState K)
      → load_node_crt x509_key_pair cert_disk key_disk cert_file key_file crt_given key_given
        ≡ some s.credentials
      → s.resolved ≢ none
      → All CredentialsWritten rounds
      → (s' : NodeState K) × (config_background_job x509_key_pair rounds s ≡ ok s')
        × ((crt key : File)
            → load_node_crt x509_key_pair writable writable s'.credentials.cert_file
                s'.credentials.key_file crt key
              ≡ some s'.credentials)
  load_node_crt-config_background_job cert_disk key_disk cert_file key_file crt_given key_given
        rounds s loaded built written =
      let kept =
        load_node_crt-IsKept cert_disk key_disk cert_file key_file crt_given key_given s.credentials
          loaded in
      let (s', run, ready) = config_background_job-IsReady rounds s written (kept, built) in
      (s', run, λ crt key. load_node_crt-kept s'.credentials crt key ready.0)
