-- ===== src/Registry/Observer.antt =====
-- `GetDatacenterServices` and `WatchDatacenterServices` of registry/agent_api/observer.go.
pub mod Laws
use ssle_project.Prelude.{
  ℕ, Bool, true, false, Option, none, some, List, [], ◌∷◌, ◌++◌, Bytes, if◌then◌else◌,
}
use ssle_project.Handler.{
  server_error, Outcome, ok, fail, panic, Handler, pure, lift, or_fail, unwrap, ◌>>=◌,
}
use ssle_project.Schemas.{NodeSchema, ServiceSpec}
use ssle_project.Keys.{dc_services_namespace, under, prefix_end, split}
use ssle_project.Etcd.{Etcd, KeyValue}
use ssle_project.Registry.Auth.{PeerInfo, authenticate_observer}

-- The prefix of the services of a datacenter, with its final slash.
unfoldable pub dc_prefix : NodeSchema → Bytes
dc_prefix node = under (under dc_services_namespace node.datacenter) []

pub record WatchServiceDelete : Type 0 where
  pub node : Bytes
  pub service_name : Bytes
  pub instance' : Bytes

pub data WatchMessage : Type 0 where
  update : ServiceSpec → WatchMessage
  delete : WatchServiceDelete → WatchMessage

-- `mvccpb.PUT` with the value, and `mvccpb.DELETE`, each with the key.
pub data Event (W : Type 0) : Type 0 where
  put_event : Bytes → W → Event W
  delete_event : Bytes → Event W

-- The last three parts, if there are three at least.
unfoldable pub last_three : List Bytes → Option WatchServiceDelete
last_three (a ∷ b ∷ c ∷ []) = some (record { node = a; service_name = b; instance' = c })
last_three (a ∷ b ∷ c ∷ d ∷ parts) = last_three (b ∷ c ∷ d ∷ parts)
last_three _ = none

unfoldable pub deleted_service : Bytes → Option WatchServiceDelete
unfolding last_three
deleted_service key = last_three (split b'/' key)

-- What the select statement receives: the events of one message of the watch, or the end of the
-- context.
pub data Signal (W : Type 0) : Type 0 where
  events : List (Event W) → Signal W
  done : Signal W

-- How the loop stands behind the signals that it received.
pub data Watching : Type 0 where
  running finished stopped : Watching

module _ (e : Etcd) where
  decode_all : List (KeyValue e.Wire) → Option (List ServiceSpec)
  decode_all [] = some []
  decode_all (kv ∷ kvs) = elim (e.spec_json.unmarshal kv.value) [
    | none ↦ none
    | some svc ↦ elim (decode_all kvs) [ none ↦ none | some svcs ↦ some (svc ∷ svcs) ]
  ]

  unfoldable pub get_datacenter_services : PeerInfo → Handler e.Store (List ServiceSpec)
  unfolding decode_all
  get_datacenter_services ctx = do
    node ← authenticate_observer e ctx
    let prefix = dc_prefix node
    kvs ←
        or_fail server_error
          (e.range (record { key = prefix; range_end = some (prefix_end prefix); limit = 0 }))
    lift (unwrap server_error (decode_all kvs))

  -- The message for an event; none is an error.
  unfoldable pub message_of : Event e.Wire → Option WatchMessage
  message_of (put_event _ value) = elim (e.spec_json.unmarshal value) [
    | none ↦ none
    | some svc ↦ some (update svc)
  ]
  message_of (delete_event key) = elim (deleted_service key) [
    | none ↦ none
    | some gone ↦ some (delete gone)
  ]

  -- `send` is `stream.Send` on a stream with the messages sent so far; `false` is an error.
  module _ (send : List WatchMessage → WatchMessage → Bool) where
    -- The messages sent, and whether every event was handled.
    unfoldable pub send_events : List (Event e.Wire) → List WatchMessage → List WatchMessage × Bool
    send_events [] sent = (sent, true)
    send_events (event ∷ rest) sent = elim (message_of event) [
      | none ↦ (sent, false)
      | some msg ↦ elim (send sent msg) [
        | true ↦ send_events rest (sent ++ msg ∷ [])
        | false ↦ (sent, false)
      ]
    ]

    unfoldable pub watch_loop :
        List (Signal e.Wire) → List WatchMessage → List WatchMessage × Watching
    unfolding send_events
    watch_loop [] sent = (sent, running)
    watch_loop (done ∷ _) sent = (sent, finished)
    watch_loop (events batch ∷ signals) sent =
        let (sent', handled) = send_events batch sent in
        elim handled [ true ↦ watch_loop signals sent' | false ↦ (sent', stopped) ]

    -- Authentication, and then the loop over what the watch of the prefix delivers.
    unfoldable pub watch_datacenter_services :
        PeerInfo
        → (Bytes → Bytes → List (Signal e.Wire))
        → Handler e.Store (List WatchMessage × Watching)
    unfolding watch_loop
    watch_datacenter_services ctx watch = do
      node ← authenticate_observer e ctx
      let prefix = dc_prefix node
      pure (watch_loop (watch prefix (prefix_end prefix)) [])
