-- ===== src/Registry/NodeApi/Laws.antt =====
-- When `Config` renews a certificate, and what it tells the node.
use ssle_project.Prelude.{
  ℕ, ◌+◌, ◌-◌, ◌/◌, ◌*◌, ◌≡◌, none, some, Option-cases, inl, inr, List, map, Bytes, arith, leb,
  if◌then◌else◌,
}
use ssle_project.Handler.{ok, Outcome-cases}
use ssle_project.Schemas.{NodeSchema}
use ssle_project.Keys.{peer_agent_api_namespace, prefix_end}
use ssle_project.Etcd.{Etcd, KeyValue, RangeRequest}
use ssle_project.Registry.Auth.{
  second, Certificate, PeerInfo, extract_peer_certificate, authenticate_node_from_certificate,
  Signer, create_node_crt,
}
use ssle_project.Registry.NodeApi.{ConfigResponse, renew_at, renewal, config}

-- The answer of `Config` as its documentation has it: with half of the validity of a new certificate
-- left or more, the time until that half is reached; with less, a new certificate for the same node
-- and role.
unfoldable pub expected :
    (x : Signer) → ℕ → ℕ → ℕ → Bytes → NodeSchema → List Bytes → ConfigResponse x.Pem
expected x now later not_after role node addrs =
    if leb (now + 302400 * second) not_after
    then record {
      certificate = none;
      key = none;
      heartbeat_period = 15;
      renew_period = (not_after - now - 302400 * second) / second;
      registry_addrs = addrs;
    }
    else record {
      certificate = some (create_node_crt x later node.datacenter node.name role).0;
      key = some (create_node_crt x later node.datacenter node.name role).1;
      heartbeat_period = 15;
      renew_period = 302400;
      registry_addrs = addrs;
    }

renewal_lem :
    (x : Signer) (now later : ℕ) (role : Bytes) (node : NodeSchema) (cert : Certificate)
    (addrs : List Bytes)
    → (let res : ConfigResponse x.Pem = renewal x later role node (renew_at cert now) in
        record res { registry_addrs = addrs })
      ≡ expected x now later cert.not_after role node addrs
unfolding renewal renew_at expected
renewal_lem x now later role node cert addrs = ground arith

-- The request for the addresses of the registries.
abbrev pub addrs_request : RangeRequest
addrs_request = record {
  key = peer_agent_api_namespace;
  range_end = some (prefix_end peer_agent_api_namespace);
  limit = 0;
}

module _ (x : Signer) (e : Etcd) where
  -- A `Config` call that succeeds authenticated the node of its peer certificate, in any role. The
  -- peer keeps its certificate while half of a new certificate's validity is left, and is told the
  -- whole seconds until then; otherwise it gets a new certificate for the same node and role and a
  -- renew period of 302400 seconds. The addresses are those that the store lists.
  pub config-expected :
      (now later : ℕ) (ctx : PeerInfo) (s s' : e.Store) (res : ConfigResponse x.Pem)
      → config x e now later ctx s ≡ (ok res, s')
      → (cert : Certificate) × (role : Bytes) × (node : NodeSchema) × (kvs : List (KeyValue e.Wire))
        × (extract_peer_certificate ctx ≡ ok cert)
        × ((authenticate_node_from_certificate e cert s).0 ≡ ok (role, node))
        × (e.range addrs_request (authenticate_node_from_certificate e cert s).1 ≡ (some kvs, s'))
        × (res ≡ expected x now later cert.not_after role node (map (λ kv. e.text kv.value) kvs))
  unfolding config
  config-expected now later ctx s s' res eq = elim (Outcome-cases (extract_peer_certificate ctx)) [
    | inl (cert, shown) ↦ elim (Outcome-cases (authenticate_node_from_certificate e cert s).0) [
      | inl ((role, node), known) ↦
          let s1 = (authenticate_node_from_certificate e cert s).1 in
          elim (Option-cases (e.range addrs_request s1).0) [
            | inl down ↦ ground arith
            | inr (kvs, listed) ↦ (
              cert,
              role,
              node,
              kvs,
              shown,
              known,
              ground arith,
              ground
                  (arith, renewal_lem x now later role node cert (map (λ kv. e.text kv.value) kvs)),
            )
          ]
      | inr (inl (err, p)) ↦ ground arith
      | inr (inr p) ↦ ground arith
    ]
    | inr (inl (err, p)) ↦ ground arith
    | inr (inr p) ↦ ground arith
  ]
