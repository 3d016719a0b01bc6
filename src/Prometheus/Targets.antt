-- ===== src/Prometheus/Targets.antt =====
-- Laws of the map of targets, and the text of the targets file.
use mathlib.Core.List.{append_assoc}
use ssle_project.Prelude.{
  ℕ, ◌≡◌, ◌≢◌, refl, sym, ap, ◌∙◌, ◌↔◌, true, false, none, some, List, [], ◌∷◌, ◌++◌, map, Bytes,
  equal_iff, arith, if◌then◌else◌, Option-cases, inl, inr,
}
use ssle_project.Schemas.{ServiceSpec}
use ssle_project.Prometheus.{
  ServiceKey, PrometheusService, Targets, same_key, lookup, assign, remove, Text, drop_last,
  write_each, render, key_of, service_of, update_targets, update_all,
}

pub same_key_iff : (a b : ServiceKey) → (same_key a b ≡ true) ↔ (a ≡ b)
unfolding same_key
same_key_iff a b = ground (
  arith,
  equal_iff a.node b.node,
  equal_iff a.service_name b.service_name,
  equal_iff a.instance' b.instance',
)

pub lookup-assign :
    (j k : ServiceKey) (v : PrometheusService) (m : Targets)
    → lookup j (assign k v m) ≡ (if same_key k j then some v else lookup j m)
unfolding lookup assign
lookup-assign j k v [] = refl
lookup-assign j k v ((i, w) ∷ m) =
    ground (arith, lookup-assign j k v m, same_key_iff i k, same_key_iff i j, same_key_iff k j)

pub lookup-remove :
    (j k : ServiceKey) (m : Targets)
    → lookup j (remove k m) ≡ (if same_key k j then none else lookup j m)
unfolding lookup remove
lookup-remove j k [] = ground arith
lookup-remove j k ((i, w) ∷ m) =
    ground (arith, lookup-remove j k m, same_key_iff i k, same_key_iff i j, same_key_iff k j)

-- The texts with a comma between each two.
abbrev pub join : List Bytes → Bytes
join [] = []
join (x ∷ []) = x
join (x ∷ y ∷ xs) = x ++ b',' ∷ join (y ∷ xs)

drop_last-append : (x : Bytes) (c : ℕ) → drop_last (x ++ c ∷ []) ≡ x
unfolding drop_last
drop_last-append [] c = refl
drop_last-append (a ∷ []) c = refl
drop_last-append (a ∷ b ∷ x) c = ap (◌∷◌ a) (drop_last-append (b ∷ x) c)

write_one : (buf x : Bytes) → drop_last ((buf ++ b',' ∷ []) ++ (x ++ b'\n' ∷ [])) ≡ buf ++ b',' ∷ x
write_one buf x =
    ap drop_last (sym (append_assoc (buf ++ b',' ∷ []) x (b'\n' ∷ [])))
    ∙ drop_last-append ((buf ++ b',' ∷ []) ++ x) b'\n'
    ∙ append_assoc buf (b',' ∷ []) x

module _ (t : Text) where
  write_step :
      (buf : Bytes) (v : PrometheusService) (vs : List PrometheusService)
      → write_each t false buf (v ∷ vs) ≡ write_each t false (buf ++ b',' ∷ t.json v) vs
  unfolding write_each
  write_step buf v vs = ap (λ b. write_each t false b vs) (write_one buf (t.json v))

  write_first :
      (v : PrometheusService) (vs : List PrometheusService)
      → write_each t true (b'[' ∷ []) (v ∷ vs) ≡ write_each t false (b'[' ∷ t.json v) vs
  unfolding write_each
  write_first v vs = ap (λ b. write_each t false b vs) (drop_last-append (b'[' ∷ t.json v) b'\n')

  write_rest :
      (buf : Bytes) (v : PrometheusService) (vs : List PrometheusService)
      → write_each t false buf (v ∷ vs) ≡ buf ++ b',' ∷ join (map t.json (v ∷ vs))
  write_rest buf v [] = write_step buf v [] ∙ (unfold write_each in refl)
  write_rest buf v (w ∷ vs) =
      write_step buf v (w ∷ vs)
      ∙ write_rest (buf ++ b',' ∷ t.json v) w vs
      ∙ append_assoc buf (b',' ∷ t.json v) (b',' ∷ join (map t.json (w ∷ vs)))

  -- The targets file holds the services between brackets, with a comma between each two, in the order
  -- of the iteration.
  pub render-join :
      (vs : List PrometheusService) → render t vs ≡ b'[' ∷ (join (map t.json vs) ++ b']' ∷ [])
  unfolding render
  render-join [] = unfold write_each in refl
  render-join (v ∷ []) = rw (write_first v []) (unfold write_each in refl)
  render-join (v ∷ w ∷ vs) = rw (write_first v (w ∷ vs)) (rw (write_rest (b'[' ∷ t.json v) w vs))

  lookup-update_targets :
      (svc : ServiceSpec) (m : Targets) (j : ServiceKey)
      → lookup j m ≢ none
      → lookup j (update_targets t svc m) ≢ none
  unfolding update_targets
  lookup-update_targets svc m j h = elim (Option-cases svc.metrics_port) [
    | inl none_given ↦ ground arith
    | inr (port, given) ↦ ground (arith, lookup-assign j (key_of svc) (service_of t svc port) m)
  ]

  pub lookup-update_all :
      (svcs : List ServiceSpec) (m : Targets) (j : ServiceKey)
      → lookup j m ≢ none
      → lookup j (update_all t svcs m) ≢ none
  unfolding update_all
  lookup-update_all [] m j h = h
  lookup-update_all (svc ∷ svcs) m j h =
      lookup-update_all svcs (update_targets t svc m) j (lookup-update_targets svc m j h)

  pub lookup-update_all_member :
      (before after : List ServiceSpec) (svc : ServiceSpec) (m : Targets) (port : ℕ)
      → svc.metrics_port ≡ some port
      → port ≢ 0
      → lookup (key_of svc) (update_all t (before ++ svc ∷ after) m) ≢ none
  unfolding update_all
  lookup-update_all_member [] after svc m port given pos =
      lookup-update_all after (update_targets t svc m) (key_of svc) (
        unfold update_targets in
        ground (
          arith,
          lookup-assign (key_of svc) (key_of svc) (service_of t svc port) m,
          same_key_iff (key_of svc) (key_of svc),
        ))
  lookup-update_all_member (b ∷ before) after svc m port given pos =
      lookup-update_all_member before after svc (update_targets t b m) port given pos
