-- ===== src/Registry/Auth/Laws.antt =====
-- What authentication establishes, and what it does with a certificate of the wrong shape.
use ssle_project.Prelude.{
  ◌≡◌, Option, none, some, Option-cases, inl, inr, List, [], ◌∷◌, Bytes, equal, equal_iff, arith,
  if◌then◌else◌,
}
use ssle_project.Handler.{auth_failure, ok, fail, Outcome-cases}
use ssle_project.Schemas.{NodeSchema}
use ssle_project.Keys.{node_key}
use ssle_project.Etcd.{Etcd, IsHealthy, Entry, found_at}
use ssle_project.Registry.Auth.{
  Certificate, PeerInfo, tls_info, extract_peer_certificate, extract_peer_datacenter_node, Identity,
  get_node_schema, authenticate_node_from_certificate, authenticate_node, decode_first, identity_of,
}

-- The certificate names a datacenter and then a role.
abbrev pub Names : Certificate → Bytes → Bytes → Bytes → Type 0
Names cert dc name role = (cert.organizational_unit ≡ dc ∷ role ∷ []) × (cert.common_name ≡ name)

units_inv :
    (units : List Bytes) (name : Bytes) (id : Identity)
    → identity_of units name ≡ some id
    → (units ≡ id.datacenter ∷ id.role ∷ []) × (name ≡ id.name)
unfolding identity_of
units_inv [] name id eq = cc
units_inv (a ∷ []) name id eq = cc
units_inv (a ∷ b ∷ []) name id eq = ground arith
units_inv (a ∷ b ∷ c ∷ units) name id eq = cc

extract_inv :
    (cert : Certificate) (id : Identity)
    → extract_peer_datacenter_node cert ≡ some id
    → Names cert id.datacenter id.name id.role
unfolding extract_peer_datacenter_node
extract_inv cert id eq =
    let (units, same) = units_inv cert.organizational_unit cert.common_name id eq in (units, same)

-- The stored value of the node decodes to it.
abbrev pub Stores : (e : Etcd) → Option (Entry e.Wire) → NodeSchema → Type 0
Stores e none node = ⊥
Stores e (some entry) node = e.node_json.unmarshal entry.value ≡ some node

module _ (e : Etcd) where
  certificate_sound :
      (cert : Certificate) (s s' : e.Store) (role : Bytes) (node : NodeSchema)
      → authenticate_node_from_certificate e cert s ≡ (ok (role, node), s')
      → (dc : Bytes) × (name : Bytes) × Names cert dc name role
        × (get_node_schema e dc name s ≡ (ok (some node), s'))
  unfolding authenticate_node_from_certificate
  certificate_sound cert s s' role node eq =
      elim (Option-cases (extract_peer_datacenter_node cert)) [
        | inl malformed ↦ ground arith
        | inr (id, named) ↦
            (id.datacenter, id.name, ground (arith, extract_inv cert id named), fetched id named)
      ]
    where
      fetched :
          (id : Identity)
          → extract_peer_datacenter_node cert ≡ some id
          → get_node_schema e id.datacenter id.name s ≡ (ok (some node), s')
      fetched id named = elim (Outcome-cases (get_node_schema e id.datacenter id.name s).0) [
        | inl (none, p) ↦ ground arith
        | inl (some n, p) ↦ ground arith
        | inr (inl (err, p)) ↦ ground arith
        | inr (inr p) ↦ ground arith
      ]

  -- A node that is authenticated for a role came with a TLS certificate whose two organizational
  -- units are a datacenter and that role, and the store knows the node of that datacenter with the
  -- certificate's common name.
  pub authenticate_node_sound :
      (implicit : Bytes) (ctx : PeerInfo) (s s' : e.Store) (node : NodeSchema)
      → authenticate_node e implicit ctx s ≡ (ok node, s')
      → (cert : Certificate) × (dc : Bytes) × (name : Bytes) × (extract_peer_certificate ctx
          ≡ ok cert)
        × Names cert dc name implicit
        × (get_node_schema e dc name s ≡ (ok (some node), s'))
  unfolding authenticate_node
  authenticate_node_sound implicit ctx s s' node eq =
      elim (Outcome-cases (extract_peer_certificate ctx)) [
        | inl (cert, shown) ↦ elim (Outcome-cases (authenticate_node_from_certificate e cert s).0) [
          | inl ((role, n), p) ↦
              let s1 = (authenticate_node_from_certificate e cert s).1 in
              let (dc, name, names, fetched) = certificate_sound cert s s1 role n (ground arith) in
              (
                cert,
                dc,
                name,
                shown,
                ground (arith, equal_iff role implicit),
                ground (arith, equal_iff role implicit),
              )
          | inr (inl (err, p)) ↦ ground arith
          | inr (inr p) ↦ ground arith
        ]
        | inr (inl (err, p)) ↦ ground arith
        | inr (inr p) ↦ ground arith
      ]

module _ (e : Etcd) (h : IsHealthy e) where
  open h use {contents}

  decoded :
      (entry : Option (Entry e.Wire)) (k : Bytes) (node : NodeSchema)
      → Stores e entry node
      → decode_first e (found_at k entry) ≡ ok (some node)
  unfolding decode_first
  decoded none k node st = absurd st
  decoded (some entry) k node st = ground arith

  -- On a server that answers, `GetNodeSchema` returns the node that is stored at the node's key, and
  -- changes nothing.
  pub get_node_schema_lem :
      (dc name : Bytes) (s : e.Store) (node : NodeSchema)
      → Stores e (contents s (node_key dc name)) node
      → get_node_schema e dc name s ≡ (ok (some node), s)
  unfolding get_node_schema
  get_node_schema_lem dc name s node st = ground (
    arith,
    h.range_key (node_key dc name) 1 s,
    decoded (contents s (node_key dc name)) (node_key dc name) node st,
  )

  -- On a server that answers: a peer whose first TLS certificate names a datacenter and a role, and
  -- whose node is stored, is authenticated for exactly that role; for any other role the answer is an
  -- authentication failure. The store is unchanged.
  pub authenticate_node_exact :
      (implicit dc name role addr : Bytes) (cert : Certificate) (rest : List Certificate)
      (s : e.Store) (node : NodeSchema)
      → Names cert dc name role
      → Stores e (contents s (node_key dc name)) node
      → authenticate_node e implicit (tls_info (cert ∷ rest) addr) s
        ≡ (if equal role implicit then ok node else fail auth_failure, s)
  unfolding authenticate_node authenticate_node_from_certificate extract_peer_certificate
      extract_peer_datacenter_node
  authenticate_node_exact implicit dc name role addr cert rest s node names st =
      ground (arith, get_node_schema_lem dc name s node st)
