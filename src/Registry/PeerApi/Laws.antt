-- ===== src/Registry/PeerApi/Laws.antt =====
-- Adding a node, then asking for its credentials, adding it again, or authenticating with what was
-- issued.
use ssle_project.Prelude.{
  ℕ, ◌≡◌, ◌≢◌, refl, ◌∙◌, true, false, Option, none, some, Option-cases, inl, inr, [], ◌∷◌, Bytes,
  equal, equal_refl, arith, if◌then◌else◌,
}
use mathlib.Core.Path.{ap₂}
use ssle_project.Handler.{auth_failure, agent_already_exists, ok, fail, panic}
use ssle_project.Schemas.{NodeSchema}
use ssle_project.Keys.{node_key}
use ssle_project.Etcd.{Etcd, IsHealthy, RoundTrips, Entry, create_is, put, TxnRequest}
use ssle_project.Registry.Auth.{
  Certificate, tls_info, Signer, create_node_crt, get_node_schema, authenticate_node,
  authenticate_node_from_certificate, extract_peer_certificate, extract_peer_datacenter_node,
  decode_first,
}
use ssle_project.Registry.Auth.Laws.{Names, Stores, get_node_schema_lem, authenticate_node_exact}
use ssle_project.Registry.PeerApi.{
  AddNodeRequest, node_of, implicit_of, add_node, get_node_credentials,
}

module _ (x : Signer) (e : Etcd) (h : IsHealthy e) where
  open h use {contents}

  abbrev node_txn : Bytes → e.Wire → TxnRequest e.Wire
  node_txn key w = record { compare = create_is key 0 ∷ []; success = put key w 0 ∷ [] }

  txn-absent :
      (key : Bytes) (w : e.Wire) (s : e.Store)
      → (e.txn (node_txn key w) s).0 ≡ some true
      → contents s key ≡ none
  txn-absent key w s done = elim (Option-cases (contents s key)) [
    | inl absent ↦ absent
    | inr (entry, present) ↦ ground (arith, h.txn_succeeds (node_txn key w) s)
  ]

  txn-Stores :
      (key : Bytes) (w : e.Wire) (s : e.Store) (node : NodeSchema)
      → (e.txn (node_txn key w) s).0 ≡ some true
      → e.node_json.unmarshal w ≡ some node
      → Stores e (contents (e.txn (node_txn key w) s).1 key) node
  txn-Stores key w s node done decodes =
      rw (h.txn_applies (node_txn key w) s key)
        (rw (txn-absent key w s done) (rw (equal_refl key) decodes))

  pub add_node_lem :
      RoundTrips e.node_json
      → (now : ℕ) (req : AddNodeRequest) (s s' : e.Store) (issued : x.Pem × x.Pem)
      → add_node x e now req s ≡ (ok issued, s')
      → Stores e (contents s' (node_key req.datacenter req.name)) (node_of req)
        × (issued ≡ create_node_crt x now req.datacenter req.name (implicit_of req.node_type))
  unfolding add_node
  add_node_lem rt now req s s' issued eq = elim (Option-cases (e.node_json.marshal (node_of req))) [
    | inl bad ↦ ground arith
    | inr (w, coded) ↦
        let key = node_key req.datacenter req.name in
        elim (Option-cases (e.txn (node_txn key w) s).0) [
          | inl down ↦ ground arith
          | inr (false, lost) ↦ ground arith
          | inr (true, done) ↦
              let here : (e.txn (node_txn key w) s).1 ≡ s' = ground arith in
              (
                rw here at (txn-Stores key w s (node_of req) done (rt (node_of req) w coded)),
                ground arith,
              )
        ]
  ]

  present :
      (entry : Option (Entry e.Wire)) (node : NodeSchema)
      → Stores e entry node
      → (old : Entry e.Wire) × (entry ≡ some old)
  present none node st = absurd st
  present (some old) node st = (old, refl)

  add_node-present :
      (now : ℕ) (req : AddNodeRequest) (s : e.Store) (old : Entry e.Wire) (w : e.Wire)
      → contents s (node_key req.datacenter req.name) ≡ some old
      → e.node_json.marshal (node_of req) ≡ some w
      → (add_node x e now req s ≡ (
        fail agent_already_exists,
        (e.txn (node_txn (node_key req.datacenter req.name) w) s).1,
      ))
        × ((k : Bytes)
            → contents (e.txn (node_txn (node_key req.datacenter req.name) w) s).1 k ≡ contents s k)
  unfolding add_node
  add_node-present now req s old w there coded =
      let t = node_txn (node_key req.datacenter req.name) w in
      (ground (arith, h.txn_succeeds t s), λ k. ground (arith, h.txn_applies t s k))

  -- On a server that answers, with a coder of node records that reads back what it wrote, a node that
  -- was added cannot be added again: whatever the second
  -- request gives as location and type for the same datacenter and name, it is refused because the
  -- node exists, if its record can be encoded, and what the store holds is unchanged.
  pub add_node_again :
      (now later : ℕ) (req req' : AddNodeRequest) (s s' : e.Store) (issued : x.Pem × x.Pem)
      → RoundTrips e.node_json
      → add_node x e now req s ≡ (ok issued, s')
      → req'.name ≡ req.name
      → req'.datacenter ≡ req.datacenter
      → e.node_json.marshal (node_of req') ≢ none
      → ((add_node x e later req' s').0 ≡ fail agent_already_exists)
        × ((k : Bytes) → contents (add_node x e later req' s').1 k ≡ contents s' k)
  add_node_again now later req req' s s' issued rt eq same_name same_dc marshals =
      elim (Option-cases (e.node_json.marshal (node_of req'))) [
        | inl bad ↦ absurd (marshals bad)
        | inr (w, coded) ↦
            let key = node_key req.datacenter req.name in
            let (old, there) =
              present (contents s' key) (node_of req) (add_node_lem rt now req s s' issued eq).0 in
            let (refused, keeps) =
              add_node-present later req' s' old w
                (ap₂ (λ dc name. contents s' (node_key dc name)) same_dc same_name ∙ there) coded in
            (cc, λ k. rw refused (keeps k))
      ]

  -- On a server that answers, `GetNodeCredentials` for a node that was added issues a certificate for
  -- the same datacenter, name and role as `AddNode` did, and leaves the store as it is.
  pub get_node_credentials-add_node :
      (now later : ℕ) (req : AddNodeRequest) (s s' : e.Store) (issued : x.Pem × x.Pem)
      → RoundTrips e.node_json
      → add_node x e now req s ≡ (ok issued, s')
      → get_node_credentials x e later req.datacenter req.name s'
        ≡ (ok (create_node_crt x later req.datacenter req.name (implicit_of req.node_type)), s')
  unfolding get_node_credentials node_of
  get_node_credentials-add_node now later req s s' issued rt eq = ground (
    arith,
    get_node_schema_lem e h req.datacenter req.name s' (node_of req),
    add_node_lem rt now req s s' issued eq,
  )

  -- On a server that answers, `GetNodeCredentials` for a node that is not stored panics.
  pub get_node_credentials_panics :
      (now : ℕ) (dc name : Bytes) (s : e.Store)
      → contents s (node_key dc name) ≡ none
      → (get_node_credentials x e now dc name s).0 ≡ panic
  unfolding get_node_credentials get_node_schema decode_first
  get_node_credentials_panics now dc name s absent =
      ground (arith, h.range_key (node_key dc name) 1 s)

  -- On a server that answers: if the certificate that `AddNode` issued lists the datacenter before
  -- the role once Go has parsed it, then it authenticates the new node for its role, and for no
  -- other.
  pub authenticate_node-add_node :
      (now : ℕ) (req : AddNodeRequest) (s s' : e.Store) (issued : x.Pem × x.Pem)
      (implicit addr : Bytes)
      → RoundTrips e.node_json
      → add_node x e now req s ≡ (ok issued, s')
      → Names (x.presents issued.0) req.datacenter req.name (implicit_of req.node_type)
      → authenticate_node e implicit (tls_info (x.presents issued.0 ∷ []) addr) s' ≡ (
        if equal (implicit_of req.node_type) implicit then ok (node_of req) else fail auth_failure,
        s',
      )
  authenticate_node-add_node now req s s' issued implicit addr rt eq names =
      authenticate_node_exact e h implicit req.datacenter req.name (implicit_of req.node_type) addr
        (x.presents issued.0) [] s' (node_of req) names (add_node_lem rt now req s s' issued eq).0

module _ (e : Etcd) (h : IsHealthy e) where
  open h use {contents}

  -- On a server that answers: if the parsed certificate keeps the order in which its template lists
  -- the role and the datacenter, then the node is looked up in a datacenter that is named like its
  -- role, and authentication fails for every role, unless a node of that name is stored there.
  pub authenticate_node_template_order :
      (role dc name implicit addr : Bytes) (cert : Certificate) (s : e.Store)
      → cert.organizational_unit ≡ role ∷ dc ∷ []
      → cert.common_name ≡ name
      → contents s (node_key role name) ≡ none
      → authenticate_node e implicit (tls_info (cert ∷ []) addr) s ≡ (fail auth_failure, s)
  unfolding authenticate_node authenticate_node_from_certificate extract_peer_certificate
      extract_peer_datacenter_node get_node_schema decode_first
  authenticate_node_template_order role dc name implicit addr cert s units named absent =
      ground (arith, h.range_key (node_key role name) 1 s)
