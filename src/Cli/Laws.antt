-- ===== src/Cli/Laws.antt =====
-- What the commands of cmd/cmd leave for a node to start with.
use ssle_project.Prelude.{
  ℕ, ◌≡◌, ◌≢◌, refl, inl, inr, false, Option, none, some, [], ◌∷◌, Bytes, codes, equal, equal_refl,
  arith, Option-cases, if◌then◌else◌,
}
use ssle_project.Handler.{Error, auth_failure, Outcome, ok, fail, panic}
use ssle_project.Files.{missing, stored, Disk, writable, write_file}
use ssle_project.Etcd.{Etcd, IsHealthy, RoundTrips}
use ssle_project.Registry.Auth.{
  Certificate, tls_info, Template, Signer, node_template, create_node_crt, authenticate_node,
}
use ssle_project.Registry.Auth.Laws.{Names}
use ssle_project.Registry.PeerApi.{
  AddNodeRequest, node_of, implicit_of, add_node, get_node_credentials,
}
use ssle_project.Registry.PeerApi.Laws.{
  add_node_lem, get_node_credentials-add_node, authenticate_node-add_node,
}
use ssle_project.Node.{Credentials, read_kept, keep_crt, load_node_crt}
use ssle_project.Cli.{
  Terminal, finished, panicked, Reply, issued, rejected, Flags, AddFlags, CredsFlags, TlsConfig,
  write_to_file, is_written, write_credentials, add_request, new_peer_api_client, add_with, add,
  creds_with, creds, node_type_of,
}

-- The response of a call: what was issued, as bytes, or the text of an error. A panic of the handler ends
-- the connection.
unfoldable pub reply_of :
    {P : Type 0} → (P → Bytes) → (Option Error → Bytes) → Outcome (P × P) → Reply
reply_of pem text (ok made) = issued (pem made.0) (pem made.1)
reply_of pem text (fail err) = rejected (text (some err))
reply_of pem text panic = rejected (text none)

-- Each written file holds what was written, if the paths name two files.
write_credentials-finished :
    (crt_disk key_disk : Disk) (node_crt node_key : Bytes) (reply : Reply) (t t' : Terminal)
    → equal node_crt (codes "-") ≡ false
    → equal node_key (codes "-") ≡ false
    → equal node_key node_crt ≡ false
    → write_credentials crt_disk key_disk node_crt node_key reply t ≡ (finished, t')
    → (certificate : Bytes) × (key : Bytes) × (reply ≡ issued certificate key)
      × (t'.files node_crt ≡ stored certificate)
      × (t'.files node_key ≡ stored key)
unfolding write_credentials write_to_file write_file is_written
write_credentials-finished crt_disk key_disk node_crt node_key (rejected message) t t' a b c eq =
    ground arith
write_credentials-finished writable writable node_crt node_key (issued certificate key) t t' a b c
      eq =
    (
      certificate,
      key,
      refl,
      ground (arith, equal_refl node_crt),
      ground (arith, equal_refl node_key),
    )
write_credentials-finished _ _ node_crt node_key (issued certificate key) t t' a b c eq =
    ground arith

write_credentials-panicked :
    (crt_disk key_disk : Disk) (node_crt node_key : Bytes) (reply : Reply) (t t' : Terminal)
    → write_credentials crt_disk key_disk node_crt node_key reply t ≡ (panicked, t')
    → (certificate : Bytes) × (key : Bytes) × (reply ≡ issued certificate key)
unfolding write_credentials
write_credentials-panicked crt_disk key_disk node_crt node_key (rejected message) t t' eq =
    ground arith
write_credentials-panicked crt_disk key_disk node_crt node_key (issued certificate key) t t' eq =
    (certificate, key, refl)

write_credentials-writable :
    (node_crt node_key certificate key : Bytes) (t : Terminal)
    → equal node_crt (codes "-") ≡ false
    → equal node_key (codes "-") ≡ false
    → equal node_key node_crt ≡ false
    → (t' : Terminal) × (write_credentials writable writable node_crt node_key
          (issued certificate key)
          t
        ≡ (finished, t'))
      × (t'.files node_crt ≡ stored certificate)
      × (t'.files node_key ≡ stored key)
unfolding write_credentials write_to_file write_file is_written
write_credentials-writable node_crt node_key certificate key t a b c =
    let t' = (write_credentials writable writable node_crt node_key (issued certificate key) t).1 in
    (t', ground arith, ground (arith, equal_refl node_crt), ground (arith, equal_refl node_key))

reply_of-ok :
    {P : Type 0} (pem : P → Bytes) (text : Option Error → Bytes) (r : Outcome (P × P))
    (certificate key : Bytes)
    → reply_of pem text r ≡ issued certificate key
    → (made : P × P) × (r ≡ ok made) × (pem made.0 ≡ certificate) × (pem made.1 ≡ key)
unfolding reply_of
reply_of-ok pem text (ok made) certificate key eq = (made, refl, ground arith, ground arith)
reply_of-ok pem text (fail err) certificate key eq = ground arith
reply_of-ok pem text panic certificate key eq = ground arith

-- A node that finds no files of its own takes the given ones, and keeps them.
load_node_crt-given :
    {K : Type 0} (x509_key_pair : Bytes → Bytes → Option K) (crt key : Bytes) (pair : K)
    → x509_key_pair crt key ≡ some pair
    → load_node_crt x509_key_pair writable writable missing missing (stored crt) (stored key)
      ≡ some (record { key_pair = pair; cert_file = stored crt; key_file = stored key })
unfolding load_node_crt read_kept keep_crt write_file
load_node_crt-given x509_key_pair crt key pair eq = ground arith

-- A certificate that the registry signs and its key are a pair, which presents that certificate.
abbrev pub Pairs :
    {K : Type 0} (x : Signer)
    → (x.Pem → Bytes)
    → (Bytes → Bytes → Option K)
    → (K → Certificate)
    → Type 0
Pairs {K} x pem x509_key_pair leaf =
    (t : Template)
    → (pair : K) × (x509_key_pair (pem (x.sign t).0) (pem (x.sign t).1) ≡ some pair)
      × (leaf pair ≡ x.presents (x.sign t).0)

module _ (x : Signer) (e : Etcd) (pem : x.Pem → Bytes) (text : Option Error → Bytes)
    {Client : Type 0} where
  -- The calls of the peer API at this time, as the registry handles them.
  unfoldable pub add_node_call : ℕ → Client → AddNodeRequest → e.Store → Reply × e.Store
  unfolding reply_of
  add_node_call now client req s =
      let (made, s') = add_node x e now req s in (reply_of pem text made, s')

  unfoldable pub get_node_credentials_call : ℕ → Client → Bytes → Bytes → e.Store → Reply × e.Store
  unfolding reply_of
  get_node_credentials_call now client dc name s =
      let (made, s') = get_node_credentials x e now dc name s in (reply_of pem text made, s')

module _ (x : Signer) (e : Etcd) (h : IsHealthy e) (pem : x.Pem → Bytes)
    (text : Option Error → Bytes) {K Client : Type 0} (x509_key_pair : Bytes → Bytes → Option K)
    (new_client : TlsConfig K → Bytes → Option Client) (leaf : K → Certificate) where
  -- When `ssle-cli node add` finishes, on a registry whose server answers and whose coder of node
  -- records reads back what it wrote, with two different paths that are not the standard output, and
  -- where a certificate and its key in PEM load as a pair with that certificate, a node that is given the two files it wrote, and that has none of its own, starts
  -- with credentials that authenticate it for its role and for no other, if the certificate lists the
  -- datacenter before the role once Go has parsed it.
  pub authenticate_node-add :
      (now : ℕ) (root : Flags) (crt_disk key_disk : Disk) (flags : AddFlags) (name : Bytes)
      (t t' : Terminal) (s s' : e.Store) (implicit addr : Bytes)
      → RoundTrips e.node_json
      → Pairs x pem x509_key_pair leaf
      → equal flags.node_crt (codes "-") ≡ false
      → equal flags.node_key (codes "-") ≡ false
      → equal flags.node_key flags.node_crt ≡ false
      → add x509_key_pair new_client
          (add_node_call x e pem text now)
          (get_node_credentials_call x e pem text now)
          root
          crt_disk
          key_disk
          flags
          name
          t
          s
        ≡ (finished, t', s')
      → (let req = add_request name flags in
          let role = implicit_of req.node_type in
          Names
            (x.presents (create_node_crt x now req.datacenter req.name role).0)
            req.datacenter
            req.name
            role)
      → (creds : Credentials K) × (load_node_crt x509_key_pair writable writable missing missing
            (t'.files flags.node_crt)
            (t'.files flags.node_key)
          ≡ some creds)
        × (authenticate_node e implicit (tls_info (leaf creds.key_pair ∷ []) addr) s' ≡ (
          if equal (implicit_of (add_request name flags).node_type) implicit
              then ok (node_of (add_request name flags))
              else fail auth_failure,
          s',
        ))
  unfolding add add_with add_node_call create_node_crt
  authenticate_node-add now root crt_disk key_disk flags name t t' s s' implicit addr rt pairs a b c
        eq names =
      elim (Option-cases (new_peer_api_client x509_key_pair new_client root t.files)) [
        | inl down ↦ ground arith
        | inr (client, up) ↦
            let req = add_request name flags in
            let made = (add_node x e now req s).0 in
            let (certificate, key, granted, crt_there, key_there) =
              write_credentials-finished crt_disk key_disk flags.node_crt flags.node_key
                (reply_of pem text made) t t' a b c (ground arith) in
            let (pair_made, done, is_crt, is_key) =
              reply_of-ok pem text made certificate key granted in
            let same : add_node x e now req s ≡ (ok pair_made, s') = ground arith in
            let issued_now = (add_node_lem x e h rt now req s s' pair_made same).1 in
            let (pair, is_pair, is_leaf) =
              pairs (node_template now req.datacenter req.name (implicit_of req.node_type)) in
            let signed =
              create_node_crt x now req.datacenter req.name (implicit_of req.node_type) in
            let answered : add_node x e now req s ≡ (ok signed, s') = ground arith in
            let loads : x509_key_pair certificate key ≡ some pair = ground arith in
            (
              record { key_pair = pair; cert_file = stored certificate; key_file = stored key },
              rw crt_there
                  (rw key_there (load_node_crt-given x509_key_pair certificate key pair loads)),
              rw is_leaf (
                  authenticate_node-add_node x e h now req s s' signed implicit addr rt answered
                    names),
            )
      ]

  -- If `ssle-cli node add` panics because a file could not be written, on a registry whose server answers
  -- and whose coder of node records reads back what it wrote, and the files that it leaves still give a
  -- client of the registry, then `ssle-cli node creds` for the same node, with two different paths that
  -- can be written and are not the standard output, finishes, and writes a certificate and a key that are issued for the datacenter, the name
  -- and the role of the node that was to be added.
  pub creds-add :
      (now later : ℕ) (root : Flags) (crt_disk key_disk : Disk) (flags : AddFlags)
      (again : CredsFlags) (name : Bytes) (t t' : Terminal) (s s' : e.Store)
      → RoundTrips e.node_json
      → add x509_key_pair new_client
          (add_node_call x e pem text now)
          (get_node_credentials_call x e pem text now)
          root
          crt_disk
          key_disk
          flags
          name
          t
          s
        ≡ (panicked, t', s')
      → new_peer_api_client x509_key_pair new_client root t'.files ≢ none
      → again.datacenter ≡ flags.datacenter
      → equal again.node_crt (codes "-") ≡ false
      → equal again.node_key (codes "-") ≡ false
      → equal again.node_key again.node_crt ≡ false
      → (let made =
            create_node_crt x later flags.datacenter name
              (implicit_of (node_type_of flags.is_observer)) in
          (t2 : Terminal) × (creds x509_key_pair new_client
              (add_node_call x e pem text later)
              (get_node_credentials_call x e pem text later)
              root
              writable
              writable
              again
              name
              t'
              s'
            ≡ (finished, t2, s'))
          × (t2.files again.node_crt ≡ stored (pem made.0))
          × (t2.files again.node_key ≡ stored (pem made.1)))
  unfolding add add_with creds creds_with add_node_call get_node_credentials_call reply_of
      add_request
  creds-add now later root crt_disk key_disk flags again name t t' s s' rt eq can_call same_dc a b
        c =
      elim (Option-cases (new_peer_api_client x509_key_pair new_client root t.files)) [
        | inl down ↦ ground arith
        | inr (first, up) ↦
            elim (Option-cases (new_peer_api_client x509_key_pair new_client root t'.files)) [
              | inl lost ↦ absurd (can_call lost)
              | inr (client, still_up) ↦
                  let req = add_request name flags in
                  let reply = reply_of pem text (add_node x e now req s).0 in
                  let (certificate, key, granted) =
                    write_credentials-panicked crt_disk key_disk flags.node_crt flags.node_key reply
                      t t' (ground arith) in
                  let (pair_made, done, is_crt, is_key) =
                    reply_of-ok pem text (add_node x e now req s).0 certificate key granted in
                  let same : add_node x e now req s ≡ (ok pair_made, s') = ground arith in
                  let found =
                    get_node_credentials-add_node x e h now later req s s' pair_made rt same in
                  let made =
                    create_node_crt x later flags.datacenter name (implicit_of req.node_type) in
                  let (t2, wrote, crt_there, key_there) =
                    write_credentials-writable again.node_crt again.node_key (pem made.0)
                      (pem made.1) t' a b c in
                  (t2, ground arith, crt_there, key_there)
            ]
      ]
