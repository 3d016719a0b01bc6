-- ===== src/Tests/Observations.antt =====
-- A run of the Prometheus observer at concrete inputs.
use mathlib.Core.List.Perm
use ssle_project.Prelude.{refl, true, [], ◌∷◌, map, codes}
use ssle_project.Registry.Observer.{delete}
use ssle_project.Prometheus.{
  State, writable, write_fails, write_services, update_service_bulk, delete_service,
  handle_notification, update_targets, update_all, remove, render, write_each,
}
use ssle_project.Prometheus.Run.{
  watching, fetching, applied, IsOrder, load_targets, receives, fetches, Reaches, at_once,
  then_step,
}
use ssle_project.Prometheus.Run.Laws.{IsListing, last_write, Reaches-IsListing}
use ssle_project.Tests.Clients.{text, in_place, shop, gone}

in_place-IsOrder : IsOrder in_place
in_place-IsOrder m = Perm.refl m

abbrev started : State
started = record { targets = []; file = codes "[]" }

-- The notification of a deletion, with a write that fails after one byte, comes before the snapshot.
abbrev deleted : State
deleted = record { targets = []; file = codes "[" }

abbrev listed : State
listed = record {
  targets = update_targets text shop [];
  file = render text (map (λ kv. kv.1) (update_targets text shop []));
}

observed : Reaches text (watching fetching) started (watching applied) listed
unfolding handle_notification delete_service write_services render write_each remove
    update_service_bulk update_all update_targets
observed =
    then_step
      (then_step at_once (receives (write_fails 1) in_place (delete gone) in_place-IsOrder refl))
      (fetches {s = deleted} writable in_place (shop ∷ []) in_place-IsOrder refl)

Reaches-IsListing_example : IsListing text (last_write text writable observed) listed
unfolding load_targets write_services render write_each
Reaches-IsListing_example =
    Reaches-IsListing text true writable in_place started (watching applied) listed in_place-IsOrder
      refl observed
