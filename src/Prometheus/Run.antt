-- ===== src/Prometheus/Run.antt =====
-- The process of the Prometheus observer: `LoadState` of prom-sd-observer/state/state.go and `main` of
-- prom-sd-observer/main.go. The snapshot is fetched once, at any time between the notifications; each
-- change of the targets, with its write of the file, is one step, as it holds the mutex.
pub mod Laws
use mathlib.Core.List.{Perm}
use ssle_project.Prelude.{◌≡◌, Bool, true, false, Option, none, some, List, [], ◌∷◌, Bytes}
use ssle_project.Schemas.{ServiceSpec}
use ssle_project.Registry.Observer.{WatchMessage}
use ssle_project.Node.{NodeState}
use ssle_project.Prometheus.{
  Targets, State, Text, Disk, write_services, update_service_bulk, handle_notification,
}

-- The goroutine that fetches all existing services.
pub data Snapshot : Type 0 where
  fetching applied : Snapshot

-- `log.Fatalf` and `log.Fatal` end the process.
pub data Phase : Type 0 where
  watching : Snapshot → Phase
  ended : Phase

-- An iteration over a Go map visits each of its entries once.
abbrev pub IsOrder : (Targets → Targets) → Type 0
IsOrder order = (m : Targets) → Perm (order m) m

module _ (t : Text) where
  -- `created` is whether `os.Create` of the targets file went well; none is the end of the process.
  unfoldable pub load_targets : Bool → Disk → (Targets → Targets) → Option State
  load_targets false disk order = none
  load_targets true disk order = write_services t disk order (record { targets = []; file = [] })

  unfoldable pub load_state :
      {K : Type 0}
      → Option (NodeState K)
      → Bool
      → Disk
      → (Targets → Targets)
      → Option (NodeState K × State)
  unfolding load_targets
  load_state none created disk order = none
  load_state (some node) created disk order = elim (load_targets created disk order) [
    | none ↦ none
    | some s ↦ some (node, s)
  ]

  pub data Step : Phase → State → Phase → State → Type 0 where
    receives :
        {f : Snapshot} {s s' : State} (disk : Disk) (order : Targets → Targets) (msg : WatchMessage)
        → IsOrder order
        → handle_notification t disk order msg s ≡ some s'
        → Step (watching f) s (watching f) s'
    receive_fails :
        {f : Snapshot} {s : State} (disk : Disk) (order : Targets → Targets) (msg : WatchMessage)
        → handle_notification t disk order msg s ≡ none
        → Step (watching f) s ended s
    stream_ends : {f : Snapshot} {s : State} → Step (watching f) s ended s
    fetches :
        {s s' : State} (disk : Disk) (order : Targets → Targets) (svcs : List ServiceSpec)
        → IsOrder order
        → update_service_bulk t disk order svcs s ≡ some s'
        → Step (watching fetching) s (watching applied) s'
    apply_fails :
        {s : State} (disk : Disk) (order : Targets → Targets) (svcs : List ServiceSpec)
        → update_service_bulk t disk order svcs s ≡ none
        → Step (watching fetching) s ended s
    fetch_fails : {s : State} → Step (watching fetching) s ended s

  pub data Reaches (p : Phase) (s : State) : Phase → State → Type 0 where
    at_once : Reaches p s p s
    then_step : {q r : Phase} {s1 s2 : State} → Reaches p s q s1 → Step q s1 r s2 → Reaches p s r s2
