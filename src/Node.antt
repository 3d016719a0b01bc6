-- ===== src/Node.antt =====
-- The node library: the files, the credentials and the resolver of node-utils/lib.go, and
-- `GetRegistryConfig` of node-utils/helpers.go.
pub mod Lines
pub mod Laws
pub mod Start
pub mod Jobs
use ssle_project.Prelude.{
  ℕ, Bool, true, false, Option, none, some, List, [], ◌∷◌, ◌++◌, length, Bytes, leb, ◌==◌,
  if◌then◌else◌,
}
use ssle_project.Files.{
  File, missing, unreadable, stored, Disk, writable, create_fails, write_fails, write_file,
}
use ssle_project.Handler.{Outcome, ok, fail, panic}
use ssle_project.Keys.{push_byte}

-- `fmt.Fprintln` of each address.
unfoldable pub print_lines : List Bytes → Bytes
print_lines [] = []
print_lines (line ∷ lines) = line ++ (b'\n' ∷ print_lines lines)

unfoldable pub write_registry_addresses : Disk → List Bytes → File → Bool × File
unfolding write_file print_lines
write_registry_addresses disk addrs f = write_file disk (print_lines addrs) f

-- The lines between the newlines, with no empty line after the last newline.
unfoldable pub lines_of : Bytes → List Bytes
unfolding push_byte
lines_of [] = []
lines_of (c ∷ text) = let rest = lines_of text in if c == b'\n' then [] ∷ rest else push_byte c rest

-- `bufio.ScanLines` takes a carriage return off the end of a line.
unfoldable pub drop_cr : Bytes → Bytes
drop_cr [] = []
drop_cr (c ∷ []) = if c == b'\r' then [] else c ∷ []
drop_cr (c ∷ d ∷ line) = c ∷ drop_cr (d ∷ line)

-- `bufio.MaxScanTokenSize`
abbrev pub max_scan_token_size : ℕ
max_scan_token_size = 65536

-- A line that fills the buffer of the scanner is an error.
unfoldable pub checked_lines : List Bytes → Option (List Bytes)
unfolding drop_cr
checked_lines [] = some []
checked_lines (line ∷ lines) =
    let rest = checked_lines lines in
    if leb max_scan_token_size (length line)
    then none
    else elim rest [ none ↦ none | some scanned ↦ some (drop_cr line ∷ scanned) ]

unfoldable pub scan_lines : Bytes → Option (List Bytes)
unfolding lines_of checked_lines
scan_lines text = checked_lines (lines_of text)

-- The provided addresses, once they are written.
unfoldable pub write_provided : Disk → List Bytes → File → Option (List Bytes) × File
unfolding write_registry_addresses
write_provided disk provided f =
    let (written, f') = write_registry_addresses disk provided f in
    (if written then some provided else none, f')

unfoldable pub loaded_lines :
    Disk → List Bytes → Bytes → Option (List Bytes) → Option (List Bytes) × File
unfolding write_provided
loaded_lines disk provided text none = (none, stored text)
loaded_lines disk provided text (some []) = write_provided disk provided (stored text)
loaded_lines disk provided text (some (line ∷ lines)) = (some (line ∷ lines), stored text)

-- The addresses, or none if the process ends, and the file after it.
unfoldable pub load_registry_addresses : Disk → List Bytes → File → Option (List Bytes) × File
unfolding loaded_lines scan_lines
load_registry_addresses disk provided missing = write_provided disk provided missing
load_registry_addresses disk provided unreadable = (none, unreadable)
load_registry_addresses disk provided (stored text) =
    loaded_lines disk provided text (scan_lines text)

-- `os.ReadFile` of the kept file, or of the provided one if there is none.
unfoldable pub read_kept : File → File → Option Bytes
read_kept (stored text) provided = some text
read_kept unreadable provided = none
read_kept missing (stored text) = some text
read_kept missing _ = none

-- The certificate file, the key file and the credentials; `K` is `tls.Certificate`.
pub record Credentials (K : Type 0) : Type 0 where
  pub key_pair : K
  pub cert_file : File
  pub key_file : File

-- The state of a node. `resolved` is what the connection was told last; it is none before the
-- resolver is built.
pub record NodeState (K : Type 0) : Type 0 where
  pub credentials : Credentials K
  pub addrs : List Bytes
  pub resolved : Option (List Bytes)
  pub addrs_file : File

-- The response of the registry, as far as it is read.
pub record Answer : Type 0 where
  pub certificate : Option Bytes
  pub key : Option Bytes
  pub registry_addrs : List Bytes

-- One round of `ConfigBackgroundJob`: how the writes go, and what the registry answers.
pub record Round : Type 0 where
  pub cert_disk : Disk
  pub key_disk : Disk
  pub addrs_disk : Disk
  pub answer : Option Answer

-- `x509_key_pair` is `tls.X509KeyPair`.
module _ {K : Type 0} (x509_key_pair : Bytes → Bytes → Option K) where
  -- The key file is written behind the certificate file, and only if that went well.
  unfoldable pub keep_crt : Disk → Disk → K → Bytes → Bytes → File → File → Option (Credentials K)
  unfolding write_file
  keep_crt cert_disk key_disk pair crt key cert_file key_file =
      let (cert_written, cert_file') = write_file cert_disk crt cert_file in
      let (key_written, key_file') = write_file key_disk key key_file in
      let kept : Credentials K = record {
        key_pair = pair;
        cert_file = cert_file';
        key_file = key_file';
      } in
      elim cert_written [ false ↦ none | true ↦ if key_written then some kept else none ]

  -- None is the end of the process.
  unfoldable pub load_node_crt : Disk → Disk → File → File → File → File → Option (Credentials K)
  unfolding read_kept keep_crt
  load_node_crt cert_disk key_disk cert_file key_file crt_given key_given =
      elim (read_kept cert_file crt_given) [
        | none ↦ none
        | some crt ↦ elim (read_kept key_file key_given) [
          | none ↦ none
          | some key ↦ elim (x509_key_pair crt key) [
            | none ↦ none
            | some pair ↦ keep_crt cert_disk key_disk pair crt key cert_file key_file
          ]
        ]
      ]

  -- An error of a write is only logged; certificate and key that are no pair change nothing.
  unfoldable pub update_credentials : Disk → Disk → Bytes → Bytes → Credentials K → Credentials K
  unfolding write_file
  update_credentials cert_disk key_disk crt key creds = elim (x509_key_pair crt key) [
    | none ↦ creds
    | some pair ↦ record {
      key_pair = pair;
      cert_file = (write_file cert_disk crt creds.cert_file).1;
      key_file = (write_file key_disk key creds.key_file).1;
    }
  ]

  -- `Build` of the resolver.
  unfoldable pub build : NodeState K → NodeState K
  build s = record s { resolved = some s.addrs }

  -- Telling a resolver that is not built dereferences nil.
  unfoldable pub update_addrs : Disk → List Bytes → NodeState K → Outcome (NodeState K)
  unfolding write_registry_addresses
  update_addrs disk addrs s = elim s.resolved [
    | none ↦ panic
    | some before ↦ ok (record s {
      addrs = addrs;
      resolved = some addrs;
      addrs_file = (write_registry_addresses disk addrs s.addrs_file).1;
    })
  ]

  unfoldable pub renewed_credentials :
      Disk → Disk → Option Bytes → Option Bytes → Credentials K → Credentials K
  unfolding update_credentials
  renewed_credentials cert_disk key_disk (some crt) (some key) creds =
      update_credentials cert_disk key_disk crt key creds
  renewed_credentials cert_disk key_disk _ _ creds = creds

  -- `answer` is the response of the call; none is an error, which leaves the state as it is.
  unfoldable pub get_registry_config :
      Disk → Disk → Disk → Option Answer → NodeState K → Outcome (NodeState K)
  unfolding renewed_credentials update_addrs
  get_registry_config cert_disk key_disk disk none s = ok s
  get_registry_config cert_disk key_disk disk (some res) s =
      update_addrs disk res.registry_addrs (record s {
        credentials = renewed_credentials cert_disk key_disk res.certificate res.key s.credentials;
      })

  -- The rounds of `ConfigBackgroundJob`.
  unfoldable pub config_background_job : List Round → NodeState K → Outcome (NodeState K)
  unfolding get_registry_config
  config_background_job [] s = ok s
  config_background_job (r ∷ rounds) s =
      elim (get_registry_config r.cert_disk r.key_disk r.addrs_disk r.answer s) [
        | ok s' ↦ config_background_job rounds s'
        | fail err ↦ fail err
        | panic ↦ panic
      ]
