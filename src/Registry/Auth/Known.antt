-- ===== src/Registry/Auth/Known.antt =====
-- What authentication reads of the store.
use ssle_project.Prelude.{◌≡◌, ap, Option, none, some, Option-cases, inl, inr, Bytes, arith}
use ssle_project.Handler.{ok, Outcome-cases}
use ssle_project.Schemas.{NodeSchema}
use ssle_project.Keys.{node_key}
use ssle_project.Etcd.{Etcd, IsHealthy, Entry, found_at}
use ssle_project.Registry.Auth.{
  agent_certificate_ou, PeerInfo, extract_peer_certificate, extract_peer_datacenter_node,
  Certificate, decode_first, get_node_schema, authenticate_node_from_certificate, authenticate_node,
  authenticate_agent,
}
use ssle_project.Registry.Auth.Laws.{Stores, authenticate_node_sound}

module _ (e : Etcd) (h : IsHealthy e) where
  open h use {contents}

  get_node_schema_keeps : (dc name : Bytes) (s : e.Store) → (get_node_schema e dc name s).1 ≡ s
  unfolding get_node_schema
  get_node_schema_keeps dc name s = ground (arith, h.range_key (node_key dc name) 1 s)

  pub from_certificate_keeps :
      (cert : Certificate) (s : e.Store) → (authenticate_node_from_certificate e cert s).1 ≡ s
  unfolding authenticate_node_from_certificate
  from_certificate_keeps cert s = elim (Option-cases (extract_peer_datacenter_node cert)) [
    | inl malformed ↦ ground arith
    | inr (id, named) ↦
        let kept = get_node_schema_keeps id.datacenter id.name s in
        elim (Outcome-cases (get_node_schema e id.datacenter id.name s).0) [
          | inl (none, p) ↦ ground arith
          | inl (some node, p) ↦ ground arith
          | inr (inl (err, p)) ↦ ground arith
          | inr (inr p) ↦ ground arith
        ]
  ]

  pub authenticate_keeps : (ctx : PeerInfo) (s : e.Store) → (authenticate_agent e ctx s).1 ≡ s
  unfolding authenticate_agent authenticate_node
  authenticate_keeps ctx s = elim (Outcome-cases (extract_peer_certificate ctx)) [
    | inl (cert, shown) ↦
        let kept = from_certificate_keeps cert s in
        elim (Outcome-cases (authenticate_node_from_certificate e cert s).0) [
          | inl ((role, node), p) ↦ ground arith
          | inr (inl (err, p)) ↦ ground arith
          | inr (inr p) ↦ ground arith
        ]
    | inr (inl (err, p)) ↦ ground arith
    | inr (inr p) ↦ ground arith
  ]

  decoded_Stores :
      (k : Bytes) (entry : Option (Entry e.Wire)) (node : NodeSchema)
      → decode_first e (found_at k entry) ≡ ok (some node)
      → Stores e entry node
  unfolding decode_first
  decoded_Stores k none node eq = ground arith
  decoded_Stores k (some entry) node eq = elim (Option-cases (e.node_json.unmarshal entry.value)) [
    | inl bad ↦ ground arith
    | inr (n, good) ↦ ground arith
  ]

  found-Stores :
      (dc name : Bytes) (s : e.Store) (node : NodeSchema)
      → (get_node_schema e dc name s).0 ≡ ok (some node)
      → Stores e (contents s (node_key dc name)) node
  unfolding get_node_schema
  found-Stores dc name s node eq =
      decoded_Stores (node_key dc name) (contents s (node_key dc name)) node
        (ground (arith, h.range_key (node_key dc name) 1 s))

  pub authenticated :
      (ctx : PeerInfo) (s : e.Store) (node : NodeSchema)
      → (authenticate_agent e ctx s).0 ≡ ok node
      → (dc : Bytes) × (name : Bytes) × Stores e (contents s (node_key dc name)) node
  unfolding authenticate_agent
  authenticated ctx s node eq =
      let (cert, dc, name, shown, names, found) =
        authenticate_node_sound e agent_certificate_ou ctx s (authenticate_agent e ctx s).1 node
          (ground arith) in
      (dc, name, found-Stores dc name s node (ap (λ r. r.0) found))
