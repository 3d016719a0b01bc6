-- ===== src/Node/Start.antt =====
-- `LoadNodeState` of node-utils/lib.go.
pub mod Laws
use ssle_project.Prelude.{
  Bool, true, false, Option, none, some, List, [], Bytes, codes, if◌then◌else◌,
}
use ssle_project.Files.{File, missing, unreadable, stored, Disk}
use ssle_project.Node.{Credentials, NodeState, load_node_crt, load_registry_addresses}

-- What `os.Mkdir` of the state directory does; a directory that exists is no error.
pub data Mkdir : Type 0 where
  made exists mkdir_fails : Mkdir

-- How the writes into the state directory go.
pub record Disks : Type 0 where
  pub cert : Disk
  pub key : Disk
  pub addrs : Disk

-- The files in the state directory.
pub record Kept : Type 0 where
  pub cert_file : File
  pub key_file : File
  pub addrs_file : File

-- The files and the addresses of the configuration.
pub record Given : Type 0 where
  pub ca_file : File
  pub crt_file : File
  pub key_file : File
  pub provided_urls : List Bytes

-- `os.ReadFile` of the certificate authority.
unfoldable pub read_ca : File → Option Bytes
read_ca (stored text) = some text
read_ca _ = none

-- `x509_key_pair` is `tls.X509KeyPair`. `new_client` is whether `grpc.NewClient` returns no error for this
-- URL, this server name and these authorities.
module _ {K : Type 0} (x509_key_pair : Bytes → Bytes → Option K)
    (new_client : Bytes → Bytes → Bytes → Bool) where
  -- The state before the resolver is built.
  unfoldable pub fresh_state : Credentials K → Option (List Bytes) × File → Option (NodeState K)
  fresh_state creds (none, addrs_file) = none
  fresh_state creds (some addrs, addrs_file) =
      some (record { credentials = creds; addrs = addrs; resolved = none; addrs_file = addrs_file })

  unfoldable pub connected : Bytes → Option (NodeState K) → Option (NodeState K)
  connected ca_pem none = none
  connected ca_pem (some s) =
      if new_client (codes "registry:///") (codes "registry.cluster.internal") ca_pem
      then some s
      else none

  unfoldable pub load_in_dir : Disks → Given → Kept → Option (NodeState K)
  unfolding read_ca fresh_state connected
  load_in_dir disks given kept = elim (read_ca given.ca_file) [
    | none ↦ none
    | some ca_pem ↦
        elim (load_node_crt x509_key_pair disks.cert disks.key kept.cert_file kept.key_file
          given.crt_file given.key_file) [
            | none ↦ none
            | some creds ↦ connected ca_pem (
                fresh_state creds
                  (load_registry_addresses disks.addrs given.provided_urls kept.addrs_file))
          ]
  ]

  -- None is the end of the process.
  unfoldable pub load_node_state : Mkdir → Disks → Given → Kept → Option (NodeState K)
  unfolding load_in_dir
  load_node_state mkdir_fails disks given kept = none
  load_node_state _ disks given kept = load_in_dir disks given kept

-- What a node leaves in its state directory.
abbrev pub files_of : {K : Type 0} → NodeState K → Kept
files_of s = record {
  cert_file = s.credentials.cert_file;
  key_file = s.credentials.key_file;
  addrs_file = s.addrs_file;
}
