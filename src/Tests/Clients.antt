-- ===== src/Tests/Clients.antt =====
-- The observers and the DNS handlers at concrete inputs.
use ssle_project.Prelude.{
  ℕ, ◌≡◌, ◌≢◌, ◌⊎◌, inl, refl, true, false, Option, none, some, List, [], ◌∷◌, Bytes, codes, equal,
  has_prefix, arith, if◌then◌else◌,
}
use ssle_project.Handler.{Call}
use ssle_project.Schemas.{NodeSchema, ServiceSpec, DiscoverRequest, RegisterServiceRequest}
use ssle_project.Keys.{split}
use ssle_project.Registry.Services.{keys_of, service_spec}
use ssle_project.Registry.Observer.{
  WatchServiceDelete, WatchMessage, update, put_event, delete_event, message_of,
}
use ssle_project.Prometheus.{
  ServiceKey, Targets, State, Text, writable, lookup as lookup_target, update_service_bulk,
  delete_service, handle_notification, key_of, write_services, same_key, service_of,
}
use ssle_project.Prometheus.Targets.{join}
use ssle_project.Prometheus.Laws.{
  IsSynced, key_of_delete, after_message, handle_notification_exact, deletion_lost,
}
use ssle_project.Dns.{Rr, Library, Question, serve_dns, cut_suffix, cluster_suffix}
use ssle_project.Dns.Replies.{Asks, Answered, addresses_of, serve_dns_single}
use ssle_project.Prometheus.Observed.{handle_notification-message_of}
use ssle_project.Tests.Memory.{memory, spec_value}

abbrev node : NodeSchema
node = record {
  name = codes "n1";
  datacenter = codes "dc01";
  location = codes "eu";
  type = codes "Agents";
}

-- Texts are printed as they are, and a service as its targets.
abbrev pub text : Text
text = record {
  Addr = Bytes;
  parse_addr = λ a. some a;
  is4 = λ a. true;
  print_addr = λ a. a;
  decimal = λ n. codes "9100";
  json = λ v. join v.targets;
}

abbrev pub no_targets : State
no_targets = record { targets = []; file = [] }

abbrev pub in_place : Targets → Targets
in_place m = m

abbrev pub shop : ServiceSpec
shop = record {
  service_name = codes "shop";
  instance' = codes "a";
  location = codes "eu";
  datacenter = codes "dc01";
  node = codes "n1";
  addresses = codes "10.0.0.1" ∷ [];
  ports = [];
  metrics_port = some 9100;
}

abbrev pub gone : WatchServiceDelete
gone = record { node = codes "n1"; service_name = codes "shop"; instance' = codes "a" }

handle_notification_exact_example :
    (s' : State) × (handle_notification text writable in_place (update shop) no_targets ≡ some s')
    × ((j : ServiceKey)
        → lookup_target j s'.targets ≡ after_message text (update shop) j (lookup_target j []))
    × IsSynced text in_place s'
handle_notification_exact_example = handle_notification_exact text in_place (update shop) no_targets

abbrev or_none : Option State → State
or_none none = no_targets
or_none (some s) = s

deletion_lost_example :
    (lookup_target
        (key_of_delete gone)
        (or_none (delete_service text writable in_place gone no_targets)).targets
      ≡ none)
    × (lookup_target
          (key_of_delete gone)
          (or_none (
            update_service_bulk text writable in_place
              (shop ∷ [])
              (or_none (delete_service text writable in_place gone no_targets)))).targets
        ≢ none)
unfolding delete_service update_service_bulk write_services key_of
deletion_lost_example =
    deletion_lost text in_place [] [] shop gone 9100 no_targets
      (or_none (delete_service text writable in_place gone no_targets))
      (or_none (
        update_service_bulk text writable in_place (shop ∷ [])
          (or_none (delete_service text writable in_place gone no_targets))))
      refl (omega arith) refl refl refl

abbrev shop_request : RegisterServiceRequest
shop_request = record {
  service = codes "shop";
  instance' = codes "a";
  addresses = [];
  ports = [];
  metrics_port = some 9100;
}

handle_notification-message_of_example :
    (added : WatchMessage) × (removed : WatchMessage) × (s1 : State) × (s2 : State) × (message_of
        memory
        (put_event (keys_of node (codes "shop") (codes "a")).1 (spec_value shop))
      ≡ some added)
    × (message_of memory (delete_event (keys_of node (codes "shop") (codes "a")).1) ≡ some removed)
    × (handle_notification text writable in_place added no_targets ≡ some s1)
    × (handle_notification text writable in_place removed s1 ≡ some s2)
    × ((j : ServiceKey)
        → lookup_target j s1.targets ≡ (
            if same_key (key_of shop) j
            then some (service_of text shop 9100)
            else lookup_target j []))
    × ((j : ServiceKey)
        → lookup_target j s2.targets
          ≡ (if same_key (key_of shop) j then none else lookup_target j []))
unfolding service_spec
handle_notification-message_of_example =
    handle_notification-message_of text in_place memory node shop_request (codes "10.0.0.1" ∷ [])
      9100 (spec_value shop) no_targets (refl, (refl, tt)) (refl, (refl, (refl, (refl, tt))))
      (refl, tt) refl (omega arith) refl

abbrev library : Library
library = record {
  Addr = Bytes;
  parse_addr = λ a. some a;
  is4 = λ a. true;
  is6 = λ a. false;
  type_a = 1;
  type_aaaa = 28;
  rcode_name_error = 3;
}

-- A registry that knows one service.
abbrev discover : DiscoverRequest → Call (Unit {0}) (List ServiceSpec)
discover req w = (some (shop ∷ []), w)

abbrev shop_question : Question
shop_question = record { name = codes "shop.cluster.internal."; class = 1 }

serve_dns_single_example :
    (req : DiscoverRequest) × (reply : ℕ × List (Rr Bytes)) × Asks
      (split b'.' (cut_suffix (codes "shop.cluster.internal.") cluster_suffix).0)
      req
    × (serve_dns library discover (shop_question ∷ []) 0 tt ≡ (reply, (discover req tt).1))
    × ((((discover req tt).0 ≡ none) × (reply ≡ (3, [])))
        ⊎ ((specs : List ServiceSpec) × ((discover req tt).0 ≡ some specs)
            × (reply.0 ≡ 0)
            × Answered library shop_question.name (addresses_of specs) reply.1))
unfolding cut_suffix split has_prefix
serve_dns_single_example =
    serve_dns_single library discover shop_question tt (λ addr ip parsed. inl refl) (omega arith)
      refl refl (omega arith) (omega arith)

abbrev second_replies : Bytes → Call (Unit {0}) ℕ
second_replies server w = (if equal server (codes "8.8.8.8") then some 5 else none, w)
