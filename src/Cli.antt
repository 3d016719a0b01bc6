-- ===== src/Cli.antt =====
-- The command line of cmd/cmd: the client of the peer API (root.go), `node add` (add.go) and
-- `node creds` (creds.go), with what they write.
pub mod Laws
use ssle_project.Prelude.{
  Bool, true, false, Option, none, some, List, [], ◌∷◌, ◌++◌, Bytes, codes, equal, if◌then◌else◌,
}
use ssle_project.Files.{
  File, missing, unreadable, stored, Disk, writable, create_fails, write_fails, write_file,
}
use ssle_project.Registry.PeerApi.{NodeType, agent, observer, AddNodeRequest}

-- The files, by their paths, and what the command has printed.
pub record Terminal : Type 0 where
  pub files : Bytes → File
  pub stdout : Bytes
  pub stderr : Bytes

-- What a write to the standard output adds to it.
unfoldable pub printed : Disk → Bytes → Bytes
printed writable content = content
printed create_fails content = []
printed (write_fails partial) content = partial

unfoldable pub is_written : Disk → Bool
is_written writable = true
is_written _ = false

abbrev pub replace_at : Bytes → File → (Bytes → File) → Bytes → File
replace_at path f files p = if equal path p then f else files p

-- `println` prints its newline to the standard error.
unfoldable pub write_to_file : Disk → Bytes → Bytes → Terminal → Bool × Terminal
unfolding printed is_written write_file
write_to_file disk path content t =
    if equal path (codes "-")
    then (
      is_written disk,
      record t { stdout = t.stdout ++ printed disk content; stderr = t.stderr ++ b'\n' ∷ [] },
    )
    else (
      (write_file disk content (t.files path)).0,
      record t { files = replace_at path (write_file disk content (t.files path)).1 t.files },
    )

-- How a command ends: its `Run` returns, behind the message of a refused call or not; `log.Fatalf`;
-- `panic`.
pub data Exit : Type 0 where
  finished refused fatal panicked : Exit

-- The answer of the registry: a certificate and its key, or the text of an error.
pub data Reply : Type 0 where
  issued : Bytes → Bytes → Reply
  rejected : Bytes → Reply

-- The persistent flags.
pub record Flags : Type 0 where
  pub ca_file : Bytes
  pub crt_file : Bytes
  pub key_file : Bytes
  pub cluster_address : Bytes

abbrev pub default_flags : Flags
default_flags = record {
  ca_file = codes "ca.crt";
  crt_file = codes "peer.crt";
  key_file = codes "peer.key";
  cluster_address = codes "127.0.0.1:2382";
}

pub record AddFlags : Type 0 where
  pub is_observer : Bool
  pub node_crt : Bytes
  pub node_key : Bytes
  pub location : Bytes
  pub datacenter : Bytes

pub record CredsFlags : Type 0 where
  pub node_crt : Bytes
  pub node_key : Bytes
  pub datacenter : Bytes

-- The flags with their defaults; the location and the datacenter are required.
abbrev pub default_add : Bytes → Bytes → AddFlags
default_add location datacenter = record {
  is_observer = false;
  node_crt = codes "node.crt";
  node_key = codes "node.key";
  location = location;
  datacenter = datacenter;
}

abbrev pub default_creds : Bytes → CredsFlags
default_creds datacenter = record {
  node_crt = codes "node.crt";
  node_key = codes "node.key";
  datacenter = datacenter;
}

-- The fields of the `tls.Config` that are set. `K` is `tls.Certificate`.
pub record TlsConfig (K : Type 0) : Type 0 where
  pub server_name : Bytes
  pub root_cas : Bytes
  pub certificate : K

-- `os.ReadFile`
unfoldable pub read_file : File → Option Bytes
read_file (stored text) = some text
read_file _ = none

-- The certificate, then the key, of a request that was granted.
unfoldable pub write_credentials : Disk → Disk → Bytes → Bytes → Reply → Terminal → Exit × Terminal
unfolding write_to_file
write_credentials crt_disk key_disk node_crt node_key (rejected message) t = (
  refused,
  record t { stdout = t.stdout ++ (codes "Failed to add node: " ++ (message ++ b'\n' ∷ [])) },
)
write_credentials crt_disk key_disk node_crt node_key (issued certificate key) t =
    let (crt_written, t1) = write_to_file crt_disk node_crt certificate t in
    let (key_written, t2) = write_to_file key_disk node_key key t1 in
    if crt_written then (if key_written then finished else panicked, t2) else (panicked, t1)

unfoldable pub node_type_of : Bool → NodeType
node_type_of true = observer
node_type_of false = agent

unfoldable pub add_request : Bytes → AddFlags → AddNodeRequest
unfolding node_type_of
add_request name flags = record {
  name = name;
  datacenter = flags.datacenter;
  location = flags.location;
  node_type = node_type_of flags.is_observer;
}

-- `x509_key_pair` is `tls.X509KeyPair` and `new_client` is `grpc.NewClient` with this configuration, at this
-- address.
module _ {K Client : Type 0} (x509_key_pair : Bytes → Bytes → Option K)
    (new_client : TlsConfig K → Bytes → Option Client) where
  -- `tls.LoadX509KeyPair`
  unfoldable pub load_x509_key_pair : File → File → Option K
  unfolding read_file
  load_x509_key_pair crt_file key_file = elim (read_file crt_file) [
    | none ↦ none
    | some crt ↦ elim (read_file key_file) [ none ↦ none | some key ↦ x509_key_pair crt key ]
  ]

  -- None is `log.Fatalf`.
  unfoldable pub new_peer_api_client : Flags → (Bytes → File) → Option Client
  unfolding read_file load_x509_key_pair
  new_peer_api_client flags files = elim (read_file (files flags.ca_file)) [
    | none ↦ none
    | some ca_pem ↦ elim (load_x509_key_pair (files flags.crt_file) (files flags.key_file)) [
      | none ↦ none
      | some cert ↦
          new_client
            (record {
              server_name = codes "registry.cluster.internal";
              root_cas = ca_pem;
              certificate = cert;
            })
            flags.cluster_address
    ]
  ]

  -- `R` is the state of the registry, and `add_node` and `get_node_credentials` are the calls.
  module _ {R : Type 0} (add_node : Client → AddNodeRequest → R → Reply × R)
      (get_node_credentials : Client → Bytes → Bytes → R → Reply × R) where
    unfoldable pub add_with :
        Option Client → Disk → Disk → AddFlags → Bytes → Terminal → R → Exit × Terminal × R
    unfolding write_credentials add_request
    add_with none crt_disk key_disk flags name t r = (fatal, t, r)
    add_with (some client) crt_disk key_disk flags name t r =
        let (reply, r') = add_node client (add_request name flags) r in
        let (exit, t') =
          write_credentials crt_disk key_disk flags.node_crt flags.node_key reply t in
        (exit, t', r')

    -- `ssle-cli node add`
    unfoldable pub add : Flags → Disk → Disk → AddFlags → Bytes → Terminal → R → Exit × Terminal × R
    unfolding new_peer_api_client add_with
    add root crt_disk key_disk flags name t r =
        add_with (new_peer_api_client root t.files) crt_disk key_disk flags name t r

    unfoldable pub creds_with :
        Option Client → Disk → Disk → CredsFlags → Bytes → Terminal → R → Exit × Terminal × R
    unfolding write_credentials
    creds_with none crt_disk key_disk flags name t r = (fatal, t, r)
    creds_with (some client) crt_disk key_disk flags name t r =
        let (reply, r') = get_node_credentials client flags.datacenter name r in
        let (exit, t') =
          write_credentials crt_disk key_disk flags.node_crt flags.node_key reply t in
        (exit, t', r')

    -- `ssle-cli node creds`
    unfoldable pub creds :
        Flags → Disk → Disk → CredsFlags → Bytes → Terminal → R → Exit × Terminal × R
    unfolding new_peer_api_client creds_with
    creds root crt_disk key_disk flags name t r =
        creds_with (new_peer_api_client root t.files) crt_disk key_disk flags name t r
