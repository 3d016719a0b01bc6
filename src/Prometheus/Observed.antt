-- ===== src/Prometheus/Observed.antt =====
-- The path of a service from the agent API through the observer API to the Prometheus targets.
use ssle_project.Prelude.{ℕ, ◌≡◌, ◌≢◌, none, some, List, Bytes, arith, if◌then◌else◌}
use ssle_project.Schemas.{NodeSchema, RegisterServiceRequest}
use ssle_project.Keys.Parts.{IsPart}
use ssle_project.Etcd.{Etcd}
use ssle_project.Registry.Services.{service_spec, keys_of}
use ssle_project.Registry.Observer.{
  WatchMessage, update, delete, put_event, delete_event, message_of,
}
use ssle_project.Registry.Observer.Laws.{message_of-keys_of}
use ssle_project.Prometheus.{
  ServiceKey, Targets, State, Text, writable, same_key, lookup, key_of, service_of,
  handle_notification,
}
use ssle_project.Prometheus.Laws.{handle_notification_exact}

-- An observer whose targets file can be written follows a service. The message for its registration, at
-- the datacenter key with a metrics port other than 0, sets exactly the target of that service; the
-- message for the deletion of that key then removes exactly that target, so every other target is as it
-- was before both. The names of the node, the service and the instance contain no slash.
pub handle_notification-message_of :
    (t : Text) (order : Targets → Targets) (e : Etcd) (node : NodeSchema)
    (req : RegisterServiceRequest) (addresses : List Bytes) (port : ℕ) (w : e.Wire) (s : State)
    → IsPart node.name
    → IsPart req.service
    → IsPart req.instance'
    → req.metrics_port ≡ some port
    → port ≢ 0
    → e.spec_json.unmarshal w ≡ some (service_spec node req addresses)
    → (added : WatchMessage) × (removed : WatchMessage) × (s1 : State) × (s2 : State) × (message_of
          e
          (put_event (keys_of node req.service req.instance').1 w)
        ≡ some added)
      × (message_of e (delete_event (keys_of node req.service req.instance').1) ≡ some removed)
      × (handle_notification t writable order added s ≡ some s1)
      × (handle_notification t writable order removed s1 ≡ some s2)
      × ((j : ServiceKey)
          → lookup j s1.targets ≡ (
              if same_key (key_of (service_spec node req addresses)) j
              then some (service_of t (service_spec node req addresses) port)
              else lookup j s.targets))
      × ((j : ServiceKey)
          → lookup j s2.targets ≡ (
              if same_key (key_of (service_spec node req addresses)) j
              then none
              else lookup j s.targets))
unfolding message_of service_spec key_of
handle_notification-message_of t order e node req addresses port w s pn ps pi given set stored =
    let spec = service_spec node req addresses in
    let gone =
      delete (record { node = node.name; service_name = req.service; instance' = req.instance' }) in
    let (s1, went, targets, synced) = handle_notification_exact t order (update spec) s in
    let (s2, went', targets', synced') = handle_notification_exact t order gone s1 in
    let first : (j : ServiceKey)
        → lookup j s1.targets ≡ (
            if same_key (key_of spec) j
            then some (service_of t spec port)
            else lookup j s.targets) =
      λ j. ground (arith, targets j) in
    (
      update spec,
      gone,
      s1,
      s2,
      ground arith,
      message_of-keys_of e node req.service req.instance' pn ps pi,
      went,
      went',
      first,
      λ j. ground (arith, targets' j, first j),
    )
