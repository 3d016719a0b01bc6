-- ===== src/Node/Jobs.antt =====
-- The times at which the endless jobs of node-utils/helpers.go send their requests.
use ssle_project.Prelude.{
  ℕ, ◌+◌, ◌*◌, ◌/◌, ◌≤◌, Bool, List, [], ◌∷◌, Bytes, All, arith, if◌then◌else◌, Bool-cases, inl,
  inr,
}
use ssle_project.Prelude.Int.{ℤ, pos, negsuc}
use ssle_project.Schemas.{NodeSchema}
use ssle_project.Registry.Auth.{second, Signer}
use ssle_project.Registry.Lease.{node_keepalive_ttl}
use ssle_project.Registry.NodeApi.{renewal}

-- One request: the time until it ends, and whether it ends with no error.
pub record Request : Type 0 where
  pub duration : ℕ
  pub answered : Bool

-- A job that starts at a time: after an answer it pauses, and after an error it goes on at once.
unfoldable pub request_times : ℕ → ℕ → List Request → List ℕ
request_times pause now [] = []
request_times pause now (r ∷ requests) =
    now ∷ request_times pause (now + r.duration + (if r.answered then pause else 0)) requests

-- `HeartbeatBackgroundJob` with this period.
unfoldable pub heartbeat_times : ℕ → ℕ → List Request → List ℕ
heartbeat_times period now requests = request_times (period * second) now requests

-- `ConfigBackgroundJob`
unfoldable pub config_times : ℕ → List Request → List ℕ
config_times now requests = request_times (60 * second) now requests

-- No more than this time passes between one request and the next, the first counted from a start.
abbrev pub NoLater : ℕ → ℕ → List ℕ → Type 0
NoLater gap start [] = Unit
NoLater gap start (t ∷ times) = (t ≤ start + gap) × NoLater gap t times

request_times-NoLater :
    (pause limit gap start now : ℕ) (requests : List Request)
    → now ≤ start + gap
    → limit + pause ≤ gap
    → All (λ r. r.duration ≤ limit) requests
    → NoLater gap start (request_times pause now requests)
unfolding request_times
request_times-NoLater pause limit gap start now [] soon fits h = tt
request_times-NoLater pause limit gap start now (r ∷ requests) soon fits h = (
  soon,
  elim (Bool-cases r.answered) [
    | inl answer ↦ rw answer (
        request_times-NoLater pause limit gap now (now + r.duration + pause) requests
          (omega (arith, h.0)) fits h.1)
    | inr error ↦ rw error (
        request_times-NoLater pause limit gap now (now + r.duration + 0) requests
          (omega (arith, h.0)) fits h.1)
  ],
)

-- A node that uses the heartbeat period of the registry's response, and none of whose heartbeats takes
-- more than half the time to live of its lease, sends each at most that time to live after the one
-- before, whether they are answered or not.
pub heartbeat_times-NoLater :
    (x : Signer) (issue : ℕ) (role : Bytes) (node : NodeSchema) (left : ℤ) (now : ℕ)
    (requests : List Request)
    → All (λ r. r.duration ≤ node_keepalive_ttl / 2 * second) requests
    → NoLater
        (node_keepalive_ttl * second)
        now
        (heartbeat_times (renewal x issue role node left).heartbeat_period now requests)
unfolding heartbeat_times renewal
heartbeat_times-NoLater x issue role node (pos left) now requests h =
    request_times-NoLater (15 * second) (15 * second) (30 * second) now now requests (omega arith)
      (omega arith) h
heartbeat_times-NoLater x issue role node (negsuc left) now requests h =
    request_times-NoLater (15 * second) (15 * second) (30 * second) now now requests (omega arith)
      (omega arith) h
