-- ===== src/Tests/Commands.antt =====
-- The commands `node add` and `node creds`, against the server in memory.
use ssle_project.Prelude.{
  ◌≡◌, refl, Option, none, some, [], ◌∷◌, Bytes, codes, equal, equal_refl, if◌then◌else◌, arith,
}
use ssle_project.Handler.{Error, ok, fail, auth_failure}
use ssle_project.Files.{missing, stored, Disk, writable, create_fails}
use ssle_project.Registry.Auth.{
  Certificate, Signer, tls_info, authenticate_node, create_node_crt, node_template,
}
use ssle_project.Registry.PeerApi.{add_node, implicit_of, node_of}
use ssle_project.Node.{Credentials, load_node_crt}
use ssle_project.Cli.{
  Terminal, Exit, finished, panicked, default_flags, default_add, default_creds, AddFlags,
  CredsFlags, TlsConfig, add, creds, new_peer_api_client, add_request, node_type_of,
}
use ssle_project.Cli.Laws.{
  Pairs, add_node_call, get_node_credentials_call, authenticate_node-add, creds-add,
}
use ssle_project.Tests.Memory.{Memory, memory, memory-IsHealthy, node_RoundTrips}
use ssle_project.Tests.Nodes.{empty}

abbrev shown : Bytes → Certificate
shown name = record {
  organizational_unit = codes "dc01" ∷ codes "Agents" ∷ [];
  common_name = name;
  not_after = 0;
}

-- The authority of the agents of one datacenter: a certificate, and its key, are the name of the node.
abbrev authority : Signer
authority = record { Pem = Bytes; sign = λ t. (t.common_name, t.common_name); presents = shown }

abbrev same_pem : Bytes → Bytes
same_pem p = p

abbrev no_text : Option Error → Bytes
no_text err = []

abbrev pair_of : Bytes → Bytes → Option Bytes
pair_of crt key = if equal crt key then some crt else none

abbrev dial : TlsConfig Bytes → Bytes → Option Bytes
dial config address = some address

-- The files of a peer.
abbrev peer : Terminal
peer = record {
  files = λ p.
      if equal p (codes "node.crt")
      then missing
      else if equal p (codes "node.key")
      then missing
      else stored (codes "peer");
  stdout = [];
  stderr = [];
}

abbrev flags : AddFlags
flags = default_add (codes "eu") (codes "dc01")

abbrev run : Disk → Exit × Terminal × Memory
run key_disk =
    add pair_of dial (add_node_call authority memory same_pem no_text 5)
      (get_node_credentials_call authority memory same_pem no_text 5) default_flags writable
      key_disk flags (codes "n1") peer empty

authority-Pairs : Pairs authority same_pem pair_of shown
authority-Pairs t = (t.common_name, ground (arith, equal_refl t.common_name), refl)

-- The node is added and both files are written.
abbrev done : Exit × Terminal × Memory
done = run writable

both_written : done ≡ (finished, done.1, done.2)
unfolding add equal add_node_call add_node
both_written = refl

authenticate_node-add_example :
    (kept : Credentials Bytes) × (load_node_crt pair_of writable writable missing missing
        (done.1.files (codes "node.crt"))
        (done.1.files (codes "node.key"))
      ≡ some kept)
    × (authenticate_node memory
          (codes "Agents")
          (tls_info (shown kept.key_pair ∷ []) (codes "10.0.0.1:9"))
          done.2
        ≡ (
          if equal (implicit_of (add_request (codes "n1") flags).node_type) (codes "Agents")
              then ok (node_of (add_request (codes "n1") flags))
              else fail auth_failure,
          done.2,
        ))
unfolding equal add_request implicit_of create_node_crt node_template
authenticate_node-add_example =
    authenticate_node-add authority memory memory-IsHealthy same_pem no_text pair_of dial shown 5
      default_flags writable writable flags (codes "n1") peer done.1 empty done.2 (codes "Agents")
      (codes "10.0.0.1:9") node_RoundTrips authority-Pairs refl refl refl both_written (refl, refl)

-- The node is added, and its key cannot be written.
abbrev half_done : Exit × Terminal × Memory
half_done = run create_fails

key_missing : half_done ≡ (panicked, half_done.1, half_done.2)
unfolding add equal add_node_call add_node
key_missing = refl

abbrev again : CredsFlags
again = record (default_creds (codes "dc01")) {
  node_crt = codes "n1.crt";
  node_key = codes "n1.key";
}

creds-add_example :
    (t2 : Terminal) × (creds pair_of dial
        (add_node_call authority memory same_pem no_text 9)
        (get_node_credentials_call authority memory same_pem no_text 9)
        default_flags
        writable
        writable
        again
        (codes "n1")
        half_done.1
        half_done.2
      ≡ (finished, t2, half_done.2))
    × (t2.files (codes "n1.crt") ≡ stored (codes "n1"))
    × (t2.files (codes "n1.key") ≡ stored (codes "n1"))
unfolding equal create_node_crt node_template add add_node_call add_node new_peer_api_client
    node_type_of implicit_of
creds-add_example =
    creds-add authority memory memory-IsHealthy same_pem no_text pair_of dial shown 5 9
      default_flags writable create_fails flags again (codes "n1") peer half_done.1 empty
      half_done.2 node_RoundTrips key_missing (λ p. cc) refl refl refl refl
