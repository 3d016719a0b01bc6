-- ===== src/Prometheus.antt =====
-- The Prometheus observer: prom-sd-observer/state/state.go and the loop of prom-sd-observer/main.go.
pub mod Targets
pub mod Laws
pub mod Observed
pub mod Run
use ssle_project.Prelude.{
  ℕ, zero, suc, Bool, true, false, ◌&&◌, Option, none, some, List, [], ◌∷◌, ◌++◌, map, take, Bytes,
  codes, equal, ◌==◌, if◌then◌else◌,
}
use ssle_project.Schemas.{ServiceSpec}
use ssle_project.Registry.Observer.{WatchMessage, update, delete, WatchServiceDelete}

pub record ServiceKey : Type 0 where
  pub node : Bytes
  pub service_name : Bytes
  pub instance' : Bytes

pub record PrometheusService : Type 0 where
  pub targets : List Bytes
  pub labels : List (Bytes × Bytes)

-- The map of targets.
abbrev pub Targets : Type 0
Targets = List (ServiceKey × PrometheusService)

unfoldable pub same_key : ServiceKey → ServiceKey → Bool
same_key a b =
    equal a.node b.node && (equal a.service_name b.service_name && equal a.instance' b.instance')

unfoldable pub lookup : ServiceKey → Targets → Option PrometheusService
lookup k [] = none
lookup k ((j, v) ∷ m) = if same_key j k then some v else lookup k m

unfoldable pub assign : ServiceKey → PrometheusService → Targets → Targets
assign k v [] = (k, v) ∷ []
assign k v ((j, w) ∷ m) = if same_key j k then (k, v) ∷ m else (j, w) ∷ assign k v m

-- `delete(m, k)`
unfoldable pub remove : ServiceKey → Targets → Targets
remove k [] = []
remove k ((j, w) ∷ m) = let rest = remove k m in if same_key j k then rest else (j, w) ∷ rest

pub record State : Type 0 where
  pub targets : Targets
  pub file : Bytes

-- `netip.ParseAddr`, the address printed again, `%d`, and the JSON of a service with no newline.
pub record Text : Type 1 where
  pub Addr : Type 0
  pub parse_addr : Bytes → Option Addr
  pub is4 : Addr → Bool
  pub print_addr : Addr → Bytes
  pub decimal : ℕ → Bytes
  pub json : PrometheusService → Bytes

-- What the file system does on one rewrite of the targets file. A write that fails has written some
-- number of bytes, and its error is ignored.
pub data Disk : Type 0 where
  writable truncate_fails : Disk
  write_fails : ℕ → Disk

-- `buf.Truncate(buf.Len() - 1)`
unfoldable pub drop_last : Bytes → Bytes
drop_last [] = []
drop_last (c ∷ []) = []
drop_last (c ∷ d ∷ buf) = c ∷ drop_last (d ∷ buf)

-- What `updateService` records of the location of a service.
unfoldable pub labels_of : ServiceSpec → List (Bytes × Bytes)
labels_of svc =
    (codes "__meta_location", svc.location)
    ∷ (codes "__meta_node", svc.location)
    ∷ (codes "__meta_datacenter", svc.location)
    ∷ (codes "__meta_prometheus_job", svc.location)
    ∷ (codes "__meta_instance", svc.instance')
    ∷ []

unfoldable pub key_of : ServiceSpec → ServiceKey
key_of svc = record { node = svc.node; service_name = svc.service_name; instance' = svc.instance' }

module _ (t : Text) where
  -- The loop of `writeServices` over the services in the order of the iteration.
  unfoldable pub write_each : Bool → Bytes → List PrometheusService → Bytes
  unfolding drop_last
  write_each first buf [] = buf
  write_each first buf (v ∷ vs) =
      let separated = if first then buf else buf ++ b',' ∷ [] in
      write_each false (drop_last (separated ++ (t.json v ++ b'\n' ∷ []))) vs

  unfoldable pub render : List PrometheusService → Bytes
  unfolding write_each
  render vs = write_each true (b'[' ∷ []) vs ++ b']' ∷ []

  -- `order` is the order in which this iteration visits the map. None is the end of the process.
  unfoldable pub write_services : Disk → (Targets → Targets) → State → Option State
  write_services writable order s =
      some (record s { file = render (map (λ kv. kv.1) (order s.targets)) })
  write_services truncate_fails order s = none
  write_services (write_fails n) order s =
      some (record s { file = take n (render (map (λ kv. kv.1) (order s.targets))) })

  print_host : Bytes → Option t.Addr → Bytes
  print_host addr none = addr
  print_host addr (some ip) =
      if t.is4 ip then t.print_addr ip else b'[' ∷ (t.print_addr ip ++ b']' ∷ [])

  unfoldable pub target_of : ℕ → Bytes → Bytes
  unfolding print_host
  target_of port addr = print_host addr (t.parse_addr addr) ++ b':' ∷ t.decimal port

  unfoldable pub service_of : ServiceSpec → ℕ → PrometheusService
  unfolding labels_of
  service_of svc port = record {
    targets = map (target_of port) svc.addresses;
    labels = labels_of svc;
  }

  -- `updateService` on the map; no metrics port, or port 0, is skipped.
  assign_with : ServiceSpec → Option ℕ → Targets → Targets
  assign_with svc none m = m
  assign_with svc (some port) m =
      if port == 0 then m else assign (key_of svc) (service_of svc port) m

  unfoldable pub update_targets : ServiceSpec → Targets → Targets
  unfolding assign_with
  update_targets svc m = assign_with svc svc.metrics_port m

  unfoldable pub update_all : List ServiceSpec → Targets → Targets
  update_all [] m = m
  update_all (svc ∷ svcs) m = update_all svcs (update_targets svc m)

  module _ (disk : Disk) (order : Targets → Targets) where
    unfoldable pub update_service : ServiceSpec → State → Option State
    update_service svc s =
        write_services disk order (record s { targets = update_targets svc s.targets })

    unfoldable pub update_service_bulk : List ServiceSpec → State → Option State
    update_service_bulk svcs s =
        write_services disk order (record s { targets = update_all svcs s.targets })

    unfoldable pub delete_service : WatchServiceDelete → State → Option State
    delete_service gone s =
        let key : ServiceKey = record {
          node = gone.node;
          service_name = gone.service_name;
          instance' = gone.instance';
        } in
        write_services disk order (record s { targets = remove key s.targets })

    -- One round of the loop of `main`.
    unfoldable pub handle_notification : WatchMessage → State → Option State
    handle_notification (update svc) s = update_service svc s
    handle_notification (delete gone) s = delete_service gone s
