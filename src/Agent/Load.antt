-- ===== src/Agent/Load.antt =====
-- `LoadState` of agent/state/state.go.
use ssle_project.Prelude.{
  ◌≡◌, Bool, true, Option, none, some, List, Bytes, All, arith, if◌then◌else◌,
}
use ssle_project.Handler.{ok}
use ssle_project.Files.{File, writable}
use ssle_project.Keys.{split}
use ssle_project.Keys.Parts.{split-ne-nil}
use ssle_project.Node.{NodeState, Round, build, config_background_job}
use ssle_project.Node.Lines.{IsLine}
use ssle_project.Node.Start.{Mkdir, exists, Disks, Given, Kept, load_node_state, files_of}
use ssle_project.Node.Start.Laws.{RoundWritten, load_node_state-config_background_job}

-- The fields of the configuration that are read, with the files behind the paths.
pub record Config : Type 0 where
  pub ca_file : File
  pub crt_file : File
  pub key_file : File
  pub join_url : Bytes

-- Whether each of the calls after `LoadNodeState` returns no error: the TUF client, the trusted root,
-- the verifier, the opening of the events log, and the Docker client.
pub record Opened : Type 0 where
  pub tuf_client : Bool
  pub trusted_root : Bool
  pub verifier : Bool
  pub events_file : Bool
  pub docker_client : Bool

-- `exits` is `log.Fatalf`.
pub data Started (S : Type 0) : Type 0 where
  loaded : S → Started S
  exits panicked : Started S

-- `strings.Split(config.JoinUrl, ",")` gives the addresses.
unfoldable pub given_of : Config → Given
unfolding split
given_of config = record {
  ca_file = config.ca_file;
  crt_file = config.crt_file;
  key_file = config.key_file;
  provided_urls = split b',' config.join_url;
}

unfoldable pub open_files : {S : Type 0} → Opened → S → Started S
open_files opened s =
    if opened.events_file then (if opened.docker_client then loaded s else exits) else exits

unfoldable pub open_all : {S : Type 0} → Opened → Option S → Started S
unfolding open_files
open_all opened none = exits
open_all opened (some s) =
    if opened.tuf_client
    then (if opened.trusted_root
        then (if opened.verifier then open_files opened s else panicked)
        else panicked)
    else panicked

-- Each call went well.
abbrev pub AllOpened : Opened → Type 0
AllOpened opened =
    (opened.tuf_client ≡ true)
    × (opened.trusted_root ≡ true)
    × (opened.verifier ≡ true)
    × (opened.events_file ≡ true)
    × (opened.docker_client ≡ true)

module _ {K : Type 0} (x509_key_pair : Bytes → Bytes → Option K)
    (new_client : Bytes → Bytes → Bytes → Bool) where
  unfoldable pub load_state : Mkdir → Disks → Config → Kept → Opened → Started (NodeState K)
  unfolding open_all given_of
  load_state mkdir disks config kept opened =
      open_all opened (load_node_state x509_key_pair new_client mkdir disks (given_of config) kept)

  open_all-loaded :
      (opened : Opened) (found : Option (NodeState K)) (s : NodeState K)
      → open_all opened found ≡ loaded s
      → (found ≡ some s) × AllOpened opened
  unfolding open_all open_files
  open_all-loaded opened none s eq = ground arith
  open_all-loaded opened (some n) s eq =
      (ground arith, (ground arith, ground arith, ground arith, ground arith, ground arith))

  open_all-AllOpened :
      (opened : Opened) (found : Option (NodeState K)) (s : NodeState K)
      → found ≡ some s
      → AllOpened opened
      → open_all opened found ≡ loaded s
  unfolding open_all open_files
  open_all-AllOpened opened found s eq good = ground arith

  -- An agent loads its state only if every call after `LoadNodeState` went well. One that has loaded it,
  -- from a join URL whose parts between the commas are addresses that a line can hold, builds its
  -- resolver and goes through any number of rounds of the configuration job with no panic, if its writes
  -- go well and every answer lists at least one such address. Loading its state after them, with the
  -- same authority, whatever join URL is configured then and where every call goes well again, gives the
  -- credentials and the addresses that the agent uses then.
  pub load_state-config_background_job :
      (mkdir : Mkdir) (disks : Disks) (config : Config) (kept : Kept) (opened : Opened)
      (s : NodeState K) (rounds : List Round)
      → load_state mkdir disks config kept opened ≡ loaded s
      → All IsLine (split b',' config.join_url)
      → All RoundWritten rounds
      → AllOpened opened
        × (s' : NodeState K) × (config_background_job x509_key_pair rounds (build x509_key_pair s)
            ≡ ok s')
        × ((again : Config) (reopened : Opened)
            → again.ca_file ≡ config.ca_file
            → AllOpened reopened
            → load_state exists
                (record { cert = writable; key = writable; addrs = writable })
                again
                (files_of s')
                reopened
              ≡ loaded (record s' { resolved = none }))
  unfolding load_state given_of
  load_state-config_background_job mkdir disks config kept opened s rounds eq lines written =
      let (found, all_well) =
        open_all-loaded opened
          (load_node_state x509_key_pair new_client mkdir disks (given_of config) kept) s eq in
      let (s', run, again) =
        load_node_state-config_background_job x509_key_pair new_client mkdir disks (given_of config)
          kept s rounds found (split-ne-nil b',' config.join_url, lines) written in
      (
        all_well,
        s',
        run,
        λ later reopened same well.
            open_all-AllOpened reopened
              (load_node_state x509_key_pair new_client exists
                (record { cert = writable; key = writable; addrs = writable }) (given_of later)
                (files_of s'))
              (record s' { resolved = none }) (again (given_of later) same) well,
      )
