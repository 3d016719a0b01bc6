-- ===== src/Tests/Nodes.antt =====
-- Adding nodes, authenticating them, their leases and their certificates, on the server in memory.
use ssle_project.Prelude.{
  ◌*◌, ◌≡◌, refl, false, none, some, Option-cases, inl, inr, in_range, List, [], ◌∷◌, Bytes, codes,
  equal, arith, if◌then◌else◌, map,
}
use ssle_project.Handler.{ok, fail, panic, auth_failure, agent_already_exists}
use ssle_project.Schemas.{NodeSchema}
use ssle_project.Keys.{node_key, lease_key, prefix_end}
use ssle_project.Etcd.{Etcd, KeyValue}
use ssle_project.Registry.Auth.{
  second, Certificate, PeerInfo, tls_info, create_node_crt, extract_peer_certificate,
  authenticate_node, authenticate_node_from_certificate, get_node_schema, node_template,
  extract_peer_datacenter_node, decode_first,
}
use ssle_project.Registry.Auth.Laws.{Names, authenticate_node_exact}
use ssle_project.Registry.Lease.{get_node_lease, lease_round, lease_rounds}
use ssle_project.Registry.NodeApi.{ConfigResponse, config, renewal, renew_at}
use ssle_project.Registry.NodeApi.Laws.{expected, addrs_request, config-expected}
use ssle_project.Registry.PeerApi.{
  AddNodeRequest, agent, observer, node_of, add_node, get_node_credentials, implicit_of,
}
use ssle_project.Registry.PeerApi.Laws.{add_node_again, get_node_credentials_panics}
use ssle_project.Tests.Memory.{Memory, memory, lease_of, memory-IsHealthy, node_RoundTrips, signer}

abbrev pub empty : Memory
empty = record { contents = λ k. none; keys = []; revision = 1; next_lease = 7 }

abbrev pub web : AddNodeRequest
web = record {
  name = codes "n1";
  datacenter = codes "dc01";
  location = codes "eu";
  node_type = agent;
}

abbrev pub one_node : Memory
one_node = (add_node signer memory 5 web empty).1

abbrev issued : signer.Pem × signer.Pem
issued = create_node_crt signer 5 (codes "dc01") (codes "n1") (codes "Agents")

added : add_node signer memory 5 web empty ≡ (ok issued, one_node)
unfolding add_node implicit_of node_key
added = refl

add_node_again_example :
    ((add_node signer memory 9
        (record web { location = codes "us"; node_type = observer })
        one_node).0
      ≡ fail agent_already_exists)
    × ((k : Bytes)
        → memory-IsHealthy.contents
            (add_node signer memory 9
              (record web { location = codes "us"; node_type = observer })
              one_node).1
            k
          ≡ memory-IsHealthy.contents one_node k)
add_node_again_example =
    add_node_again signer memory memory-IsHealthy 5 9 web
      (record web { location = codes "us"; node_type = observer }) empty one_node issued
      node_RoundTrips added refl refl (λ p. cc)

get_node_credentials_panics_example :
    (get_node_credentials signer memory 9 (codes "dc01") (codes "n2") empty).0 ≡ panic
get_node_credentials_panics_example =
    get_node_credentials_panics signer memory memory-IsHealthy 9 (codes "dc01") (codes "n2") empty
      refl

presented : Names (signer.presents issued.0) (codes "dc01") (codes "n1") (implicit_of agent)
unfolding create_node_crt node_template implicit_of
presented = (refl, refl)

abbrev pub certificate : Certificate
certificate = record {
  organizational_unit = codes "dc01" ∷ codes "Agents" ∷ [];
  common_name = codes "n1";
  not_after = 400000 * second;
}

abbrev pub caller : PeerInfo
caller = tls_info (certificate ∷ []) (codes "10.0.0.1:9")

authenticate_node_exact_example : authenticate_node memory (codes "Observers") caller one_node ≡ (
  if equal (codes "Agents") (codes "Observers") then ok (node_of web) else fail auth_failure,
  one_node,
)
unfolding add_node implicit_of node_key node_of equal
authenticate_node_exact_example =
    authenticate_node_exact memory memory-IsHealthy (codes "Observers") (codes "dc01") (codes "n1")
      (codes "Agents") (codes "10.0.0.1:9") certificate [] one_node (node_of web) (refl, refl) refl

authenticated :
    authenticate_node memory (codes "Agents") caller one_node ≡ (ok (node_of web), one_node)
unfolding authenticate_node authenticate_node_from_certificate extract_peer_certificate
    extract_peer_datacenter_node get_node_schema add_node implicit_of node_key equal decode_first
authenticated = refl

abbrev leased : Memory
leased = (get_node_lease memory (codes "dc01") (codes "n1") one_node).1

granted : get_node_lease memory (codes "dc01") (codes "n1") one_node ≡ (ok 7, leased)
unfolding get_node_lease lease_rounds lease_round add_node implicit_of node_key lease_key equal
granted = refl

-- A server on which another writer always comes first.
abbrev contended : Etcd
contended = record memory { txn = λ t s. (some false, s); lease_renew = λ lease s. (none, s) }

loses : (t : Memory) → (lease_round contended (lease_key (codes "dc01") (codes "n1")) t).0 ≡ ok none
unfolding lease_round
loses t = elim (Option-cases (t.contents (lease_key (codes "dc01") (codes "n1")))) [
  | inl absent ↦ ground arith
  | inr (entry, there) ↦ elim (Option-cases (lease_of entry.value)) [
    | inl other ↦ ground arith
    | inr (lease, stored) ↦ ground arith
  ]
]

abbrev renewed_response : ConfigResponse signer.Pem
renewed_response =
    expected signer (200000 * second) 200001 (400000 * second) (codes "Agents") (node_of web) []

configured :
    config signer memory (200000 * second) 200001 caller one_node ≡ (ok renewed_response, one_node)
unfolding config authenticate_node_from_certificate extract_peer_certificate
    extract_peer_datacenter_node get_node_schema add_node implicit_of node_key node_of equal
    decode_first expected renewal renew_at prefix_end in_range
configured = refl

config-expected_example :
    (cert : Certificate) × (role : Bytes) × (node : NodeSchema) × (kvs : List
      (KeyValue memory.Wire))
    × (extract_peer_certificate caller ≡ ok cert)
    × ((authenticate_node_from_certificate memory cert one_node).0 ≡ ok (role, node))
    × (memory.range addrs_request (authenticate_node_from_certificate memory cert one_node).1
        ≡ (some kvs, one_node))
    × (renewed_response
        ≡ expected signer
            (200000 * second)
            200001
            cert.not_after
            role
            node
            (map (λ kv. memory.text kv.value) kvs))
config-expected_example =
    config-expected signer memory (200000 * second) 200001 caller one_node one_node renewed_response
      configured
