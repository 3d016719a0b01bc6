-- ===== src/Prometheus/Laws.antt =====
-- What each notification does to the targets and to the targets file.
use ssle_project.Prelude.{
  ℕ, ◌≡◌, ◌≢◌, refl, Option, none, some, List, [], ◌∷◌, ◌++◌, map, arith, ◌==◌, if◌then◌else◌,
  Option-cases, inl, inr,
}
use ssle_project.Schemas.{ServiceSpec}
use ssle_project.Registry.Observer.{WatchMessage, WatchServiceDelete, update, delete}
use ssle_project.Prometheus.{
  ServiceKey, PrometheusService, Targets, State, Text, writable, same_key, lookup, remove, render,
  key_of, service_of, update_targets, write_services, update_service, update_service_bulk,
  delete_service, handle_notification,
}
use ssle_project.Prometheus.Targets.{
  same_key_iff, lookup-assign, lookup-remove, join, render-join, lookup-update_all_member,
}

-- The file holds the JSON of the services of the map, in the order of the iteration.
abbrev pub IsSynced : Text → (Targets → Targets) → State → Type 0
IsSynced t order s =
    s.file ≡ b'[' ∷ (join (map t.json (map (λ kv. kv.1) (order s.targets))) ++ b']' ∷ [])

abbrev pub key_of_delete : WatchServiceDelete → ServiceKey
key_of_delete gone = record {
  node = gone.node;
  service_name = gone.service_name;
  instance' = gone.instance';
}

-- What a lookup finds after a notification, from what it found before.
abbrev pub after_message :
    Text → WatchMessage → ServiceKey → Option PrometheusService → Option PrometheusService
after_message t (update svc) j old = elim svc.metrics_port [
  | none ↦ old
  | some port ↦
      if port == 0
      then old
      else if same_key (key_of svc) j
      then some (service_of t svc port)
      else old
]
after_message t (delete gone) j old = if same_key (key_of_delete gone) j then none else old

module _ (t : Text) (order : Targets → Targets) where
  -- While the targets file can be written, a notification changes exactly the target of its service:
  -- an update with a metrics port other than 0 sets it, an update without one leaves it as it was,
  -- and a deletion removes it. The file then lists the services of the map as JSON.
  pub handle_notification_exact :
      (msg : WatchMessage) (s : State)
      → (s' : State) × (handle_notification t writable order msg s ≡ some s')
        × ((j : ServiceKey) → lookup j s'.targets ≡ after_message t msg j (lookup j s.targets))
        × IsSynced t order s'
  unfolding handle_notification update_service delete_service write_services
  handle_notification_exact (update svc) s = (
    record {
      targets = update_targets t svc s.targets;
      file = render t (map (λ kv. kv.1) (order (update_targets t svc s.targets)));
    },
    refl,
    λ j. elim (Option-cases svc.metrics_port) [
      | inl absent ↦ unfold update_targets in ground arith
      | inr (port, given) ↦
          unfold update_targets in
          ground (arith, lookup-assign j (key_of svc) (service_of t svc port) s.targets)
    ],
    render-join t (map (λ kv. kv.1) (order (update_targets t svc s.targets))),
  )
  handle_notification_exact (delete gone) s = (
    record {
      targets = remove (key_of_delete gone) s.targets;
      file = render t (map (λ kv. kv.1) (order (remove (key_of_delete gone) s.targets)));
    },
    refl,
    λ j. lookup-remove j (key_of_delete gone) s.targets,
    render-join t (map (λ kv. kv.1) (order (remove (key_of_delete gone) s.targets))),
  )

  -- While the targets file can be written, a deletion that is handled before the snapshot of
  -- `GetDatacenterServices` is applied is lost: if
  -- the snapshot still lists the service with a metrics port other than 0, the target is there again
  -- after it.
  pub deletion_lost :
      (before after : List ServiceSpec) (svc : ServiceSpec) (gone : WatchServiceDelete) (port : ℕ)
      (s s1 s2 : State)
      → svc.metrics_port ≡ some port
      → port ≢ 0
      → key_of_delete gone ≡ key_of svc
      → delete_service t writable order gone s ≡ some s1
      → update_service_bulk t writable order (before ++ svc ∷ after) s1 ≡ some s2
      → (lookup (key_of_delete gone) s1.targets ≡ none)
        × (lookup (key_of_delete gone) s2.targets ≢ none)
  unfolding delete_service update_service_bulk write_services
  deletion_lost before after svc gone port s s1 s2 given pos same first then' = (
    ground (
      arith,
      lookup-remove (key_of_delete gone) (key_of_delete gone) s.targets,
      same_key_iff (key_of_delete gone) (key_of_delete gone),
    ),
    ground (arith, same, lookup-update_all_member t before after svc s1.targets port given pos),
  )
