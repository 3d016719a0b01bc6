-- ===== src/Tests/Restarts.antt =====
-- A node that starts, runs and starts again, and its heartbeats, at concrete inputs.
use ssle_project.Prelude.{
  ◌*◌, if◌then◌else◌, ◌≡◌, refl, Bool, true, false, Option, none, some, List, [], ◌∷◌, Bytes, codes,
  has_prefix, arith,
}
use mathlib.Core.Path.{subst}
use ssle_project.Prelude.Int.{pos}
use ssle_project.Handler.{ok}
use ssle_project.Files.{missing, stored, writable, write_fails}
use ssle_project.Node.{
  drop_cr, NodeState, Round, Answer, build, config_background_job, load_node_crt,
  load_registry_addresses,
}
use ssle_project.Node.Lines.{IsLine}
use ssle_project.Node.Start.{made, exists, Disks, Given, Kept, load_node_state, files_of}
use ssle_project.Node.Start.Laws.{Printable, load_node_state-config_background_job}
use ssle_project.Node.Jobs.{Request, NoLater, heartbeat_times, heartbeat_times-NoLater}
use ssle_project.Keys.{split, push_byte}
use ssle_project.Agent.Load.{
  Config, Opened, AllOpened, loaded, load_state, load_state-config_background_job,
}
use ssle_project.Registry.NodeApi.{renewal}
use ssle_project.Registry.Auth.{second}
use ssle_project.Tests.Memory.{signer}
use ssle_project.Tests.Services.{node}

-- A certificate and a key are a pair if the key begins with the certificate.
abbrev key_pair : Bytes → Bytes → Option Bytes
key_pair crt key = if has_prefix crt key then some key else none

abbrev two_addrs : List Bytes
two_addrs = codes "r1:2383" ∷ codes "r2:2383" ∷ []

r1-IsLine : IsLine (codes "r1:2383")
unfolding drop_cr
r1-IsLine = record {
  no_newline = (refl, (refl, (refl, (refl, (refl, (refl, (refl, tt)))))));
  no_return = refl;
  is_short = omega arith;
}

r2-IsLine : IsLine (codes "r2:2383")
unfolding drop_cr
r2-IsLine = record {
  no_newline = (refl, (refl, (refl, (refl, (refl, (refl, (refl, tt)))))));
  no_return = refl;
  is_short = omega arith;
}

abbrev all_writable : Disks
all_writable = record { cert = writable; key = writable; addrs = writable }

abbrev first_given : Given
first_given = record {
  ca_file = stored (codes "ca");
  crt_file = stored (codes "a");
  key_file = stored (codes "ab");
  provided_urls = codes "r1:2383" ∷ [];
}

abbrev new_dir : Kept
new_dir = record { cert_file = missing; key_file = missing; addrs_file = missing }

abbrev always : Bytes → Bytes → Bytes → Bool
always url server ca_pem = true

abbrev first_state : NodeState Bytes
first_state = record {
  credentials = record {
    key_pair = codes "ab";
    cert_file = stored (codes "a");
    key_file = stored (codes "ab");
  };
  addrs = codes "r1:2383" ∷ [];
  resolved = none;
  addrs_file = stored (codes "r1:2383\n");
}

-- A renewal with two addresses, and a call that fails.
abbrev two_rounds : List Round
two_rounds =
    record {
      cert_disk = writable;
      key_disk = writable;
      addrs_disk = writable;
      answer = some (record {
        certificate = some (codes "c");
        key = some (codes "cd");
        registry_addrs = two_addrs;
      });
    }
    ∷ record {
      cert_disk = writable;
      key_disk = writable;
      addrs_disk = write_fails [];
      answer = none;
    }
    ∷ []

two-Printable : Printable two_addrs
two-Printable = ((λ p. cc), (r1-IsLine, (r2-IsLine, tt)))

listed :
    (res : Answer)
    → some (record {
      certificate = some (codes "c");
      key = some (codes "cd");
      registry_addrs = two_addrs;
    })
      ≡ some res
    → Printable res.registry_addrs
listed res same =
    let addrs : two_addrs ≡ res.registry_addrs = ground arith in subst Printable addrs two-Printable

load_node_state-config_background_job_example :
    (s' : NodeState Bytes) × (config_background_job key_pair two_rounds (build key_pair first_state)
      ≡ ok s')
    × ((again : Given)
        → again.ca_file ≡ first_given.ca_file
        → load_node_state key_pair always exists all_writable again (files_of s')
          ≡ some (record s' { resolved = none }))
unfolding load_node_state load_node_crt has_prefix load_registry_addresses
load_node_state-config_background_job_example =
    load_node_state-config_background_job key_pair always made all_writable first_given new_dir
      first_state two_rounds refl ((λ p. cc), (r1-IsLine, tt))
      (((refl, refl), λ res same. (refl, listed res same)), (((refl, refl), λ res same. cc), tt))

-- The second heartbeat fails.
abbrev three_heartbeats : List Request
three_heartbeats =
    record { duration = second; answered = true }
    ∷ record { duration = 15 * second; answered = false }
    ∷ record { duration = 0; answered = true }
    ∷ []

heartbeat_times-NoLater_example : NoLater (30 * second) 7 (
    heartbeat_times
      (renewal signer 5 (codes "Agents") node (pos 9)).heartbeat_period
      7
      three_heartbeats)
heartbeat_times-NoLater_example =
    heartbeat_times-NoLater signer 5 (codes "Agents") node (pos 9) 7 three_heartbeats
      (omega arith, (omega arith, (omega arith, tt)))

abbrev agent_config : Config
agent_config = record {
  ca_file = stored (codes "ca");
  crt_file = stored (codes "a");
  key_file = stored (codes "ab");
  join_url = codes "r1:2383,r2:2383";
}

abbrev all_open : Opened
all_open = record {
  tuf_client = true;
  trusted_root = true;
  verifier = true;
  events_file = true;
  docker_client = true;
}

abbrev agent_state : NodeState Bytes
agent_state = record first_state {
  addrs = two_addrs;
  addrs_file = stored (codes "r1:2383\nr2:2383\n");
}

load_state-config_background_job_example :
    AllOpened all_open
    × (s' : NodeState Bytes) × (config_background_job key_pair two_rounds
          (build key_pair agent_state)
        ≡ ok s')
    × ((again : Config) (reopened : Opened)
        → again.ca_file ≡ agent_config.ca_file
        → AllOpened reopened
        → load_state key_pair always exists all_writable again (files_of s') reopened
          ≡ loaded (record s' { resolved = none }))
unfolding load_state load_node_state load_node_crt has_prefix load_registry_addresses split
    push_byte
load_state-config_background_job_example =
    load_state-config_background_job key_pair always made all_writable agent_config new_dir all_open
      agent_state two_rounds refl (r1-IsLine, (r2-IsLine, tt))
      (((refl, refl), λ res same. (refl, listed res same)), (((refl, refl), λ res same. cc), tt))
