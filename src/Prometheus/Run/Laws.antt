-- ===== src/Prometheus/Run/Laws.antt =====
-- The targets file while the observer runs.
use mathlib.Core.List.{Perm}
use mathlib.Core.Path.{subst}
use ssle_project.Prelude.{◌≡◌, ap, Bool, true, false, some, [], ◌∷◌, Bytes, take, ◌++◌, map, arith}
use ssle_project.Registry.Observer.{update, delete}
use ssle_project.Prometheus.{
  Targets, State, Text, Disk, writable, truncate_fails, write_fails, render, write_services,
  update_service_bulk, handle_notification, update_service, delete_service,
}
use ssle_project.Prometheus.Targets.{join, render-join}
use ssle_project.Prometheus.Run.{
  Phase, watching, fetching, IsOrder, load_targets, Step, receives, receive_fails, stream_ends,
  fetches, apply_fails, fetch_fails, Reaches, at_once, then_step,
}

-- What a rewrite of a file leaves of its new text.
abbrev pub Landed : Disk → Bytes → Bytes → Type 0
Landed writable text file = file ≡ text
Landed truncate_fails text file = ⊥
Landed (write_fails n) text file = file ≡ take n text

module _ (t : Text) where
  abbrev listing : Targets → Bytes
  listing kvs = b'[' ∷ (join (map t.json (map (λ kv. kv.1) kvs)) ++ b']' ∷ [])

  -- The file has what a rewrite leaves of a JSON array of the services of the map in some order.
  abbrev pub IsListing : Disk → State → Type 0
  IsListing disk s = (kvs : Targets) × Perm kvs s.targets × Landed disk (listing kvs) s.file

  write_services-IsListing :
      (disk : Disk) (order : Targets → Targets) (s s' : State)
      → IsOrder order
      → write_services t disk order s ≡ some s'
      → IsListing disk s'
  unfolding write_services
  write_services-IsListing writable order s s' o eq =
      let vs = map (λ kv. kv.1) (order s.targets) in
      let same : record { targets = s.targets; file = render t vs } ≡ s' = ground arith in
      subst (IsListing writable) same (order s.targets, o s.targets, render-join t vs)
  write_services-IsListing truncate_fails order s s' o eq = ground arith
  write_services-IsListing (write_fails n) order s s' o eq =
      let vs = map (λ kv. kv.1) (order s.targets) in
      let same : record { targets = s.targets; file = take n (render t vs) } ≡ s' = ground arith in
      subst (IsListing (write_fails n)) same
        (order s.targets, o s.targets, ap (take n) (render-join t vs))

  -- How the last rewrite of the file went that did not end the process.
  abbrev write_after : {p q : Phase} {s s' : State} → Disk → Step t p s q s' → Disk
  write_after last (receives disk order msg o eq) = disk
  write_after last (receive_fails disk order msg eq) = last
  write_after last stream_ends = last
  write_after last (fetches disk order svcs o eq) = disk
  write_after last (apply_fails disk order svcs eq) = last
  write_after last fetch_fails = last

  abbrev pub last_write :
      {p : Phase} {s : State} {q : Phase} {s' : State} → Disk → Reaches t p s q s' → Disk
  last_write first at_once = first
  last_write first (then_step run step) = write_after (last_write first run) step

  Step-IsListing :
      {p q : Phase} {s s' : State} (last : Disk) (step : Step t p s q s')
      → IsListing last s
      → IsListing (write_after last step) s'
  unfolding handle_notification update_service delete_service update_service_bulk
  Step-IsListing last (receives disk order (update svc) o eq) old =
      write_services-IsListing disk order _ _ o eq
  Step-IsListing last (receives disk order (delete gone) o eq) old =
      write_services-IsListing disk order _ _ o eq
  Step-IsListing last (receive_fails disk order msg eq) old = old
  Step-IsListing last stream_ends old = old
  Step-IsListing last (fetches disk order svcs o eq) old =
      write_services-IsListing disk order _ _ o eq
  Step-IsListing last (apply_fails disk order svcs eq) old = old
  Step-IsListing last fetch_fails old = old

  -- From the start of the observer on, whatever notifications arrive, and whenever the snapshot is
  -- applied, the targets file has what the last rewrite left of a JSON array that lists each service of
  -- the map once, in some order: all of it if that write went well, and its first bytes, as many as
  -- were written, if the write failed. A failed truncation ends the process and leaves the file.
  pub Reaches-IsListing :
      (created : Bool) (disk : Disk) (order : Targets → Targets) (s : State) (q : Phase)
      (s' : State)
      → IsOrder order
      → load_targets t created disk order ≡ some s
      → (run : Reaches t (watching fetching) s q s') → IsListing (last_write disk run) s'
  unfolding load_targets
  Reaches-IsListing true disk order s q s' o eq at_once =
      write_services-IsListing disk order _ s o eq
  Reaches-IsListing false disk order s q s' o eq at_once = ground arith
  Reaches-IsListing created disk order s q s' o eq (then_step run step) =
      Step-IsListing (last_write disk run) step
        (Reaches-IsListing created disk order s _ _ o eq run)
