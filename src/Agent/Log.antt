-- ===== src/Agent/Log.antt =====
-- The events log: agent/events/events.go and `WriteEvent` of agent/state/state.go.
use ssle_project.Prelude.{
  ℕ, ◌≡◌, refl, sym, ap, ◌∙◌, Option, none, some, Option-cases, inl, inr, List, [], ◌∷◌, ◌++◌,
  Bytes, codes, All, All-append, arith,
}
use mathlib.Core.Path.{subst}
use mathlib.Core.List.{append_assoc, append-nil}
use ssle_project.Files.{Disk, writable, create_fails, write_fails}
use ssle_project.Node.{print_lines, lines_of}
use ssle_project.Node.Lines.{NoNewline, lines_of-print_lines}
use ssle_project.Agent.{AuditEvent, no_signature_configuration, unsigned_image}

abbrev pub unsigned_image_event_code : ℕ
unsigned_image_event_code = 1

abbrev pub no_signature_configuration_code : ℕ
no_signature_configuration_code = 2

-- `baseEvent`, with the event that it is a part of.
pub record LoggedEvent : Type 0 where
  pub timestamp : ℕ
  pub code : ℕ
  pub message : Bytes
  pub event : AuditEvent

-- `NewUnsignedImageEvent` and `NewNoSignatureConfigurationEvent`, at this time.
unfoldable pub logged_event : ℕ → AuditEvent → LoggedEvent
logged_event now (unsigned_image image reason) = record {
  timestamp = now;
  code = unsigned_image_event_code;
  message = codes "Unsigned image detected";
  event = unsigned_image image reason;
}
logged_event now (no_signature_configuration container) = record {
  timestamp = now;
  code = no_signature_configuration_code;
  message = codes "Container does not have signature verification configured";
  event = no_signature_configuration container;
}

-- A write at the end of the log, which is open; its error is not looked at.
unfoldable pub append_to : Disk → Bytes → Bytes → Bytes
append_to writable msg log = log ++ msg
append_to create_fails msg log = log
append_to (write_fails partial) msg log = log ++ partial

print_lines-append :
    (xs ys : List Bytes) → print_lines (xs ++ ys) ≡ print_lines xs ++ print_lines ys
unfolding print_lines
print_lines-append [] ys = refl
print_lines-append (x ∷ xs) ys =
    ap (λ rest. x ++ b'\n' ∷ rest) (print_lines-append xs ys)
    ∙ sym (append_assoc x (b'\n' ∷ print_lines xs) (print_lines ys))

print_one : (x : Bytes) → print_lines (x ∷ []) ≡ x ++ b'\n' ∷ []
unfolding print_lines
print_one x = refl

-- `json` is `json.Marshal`.
module _ (json : LoggedEvent → Option Bytes) where
  -- An event that cannot be encoded is left out.
  unfoldable pub write_event : Disk → LoggedEvent → Bytes → Bytes
  unfolding append_to
  write_event disk event log = elim (json event) [
    | none ↦ log
    | some msg ↦ append_to disk (msg ++ b'\n' ∷ []) log
  ]

  unfoldable pub write_events : List (ℕ × AuditEvent) → Bytes → Bytes
  unfolding write_event logged_event
  write_events [] log = log
  write_events ((now, event) ∷ events) log =
      write_events events (write_event writable (logged_event now event) log)

  -- The JSON of the events that can be encoded, in their order.
  abbrev pub encoded : List (ℕ × AuditEvent) → List Bytes
  encoded [] = []
  encoded ((now, event) ∷ events) = elim (json (logged_event now event)) [
    | none ↦ encoded events
    | some msg ↦ msg ∷ encoded events
  ]

  write_events-print_lines :
      (events : List (ℕ × AuditEvent)) (old : List Bytes)
      → write_events events (print_lines old) ≡ print_lines (old ++ encoded events)
  unfolding write_events write_event append_to
  write_events-print_lines [] old = ap print_lines (sym (append-nil old))
  write_events-print_lines ((now, event) ∷ events) old =
      elim (Option-cases (json (logged_event now event))) [
        | inl bad ↦ ground (arith, write_events-print_lines events old)
        | inr (msg, coded) ↦
            let longer = write_events-print_lines events (old ++ msg ∷ []) in
            ground (
              arith,
              longer,
              print_lines-append old (msg ∷ []),
              print_one msg,
              append_assoc old (msg ∷ []) (encoded events),
            )
      ]

  All-NoNewline-encoded :
      (events : List (ℕ × AuditEvent))
      → ((e : LoggedEvent) (msg : Bytes) → json e ≡ some msg → NoNewline msg)
      → All NoNewline (encoded events)
  All-NoNewline-encoded [] h = tt
  All-NoNewline-encoded ((now, event) ∷ events) h =
      elim (Option-cases (json (logged_event now event))) [
        | inl bad ↦
            let same : encoded events ≡ encoded ((now, event) ∷ events) = ground arith in
            subst (All NoNewline) same (All-NoNewline-encoded events h)
        | inr (msg, coded) ↦
            let same : msg ∷ encoded events ≡ encoded ((now, event) ∷ events) = ground arith in
            subst (All NoNewline) same
              (h (logged_event now event) msg coded, All-NoNewline-encoded events h)
      ]

  -- If the log ends in a whole line, each write to it goes well, and the JSON of an event has no newline,
  -- then the lines of the log after some events are those that it had and one for each event that can be
  -- encoded, its JSON, in the order of the events.
  pub lines_of-write_events :
      (events : List (ℕ × AuditEvent)) (old : List Bytes)
      → All NoNewline old
      → ((e : LoggedEvent) (msg : Bytes) → json e ≡ some msg → NoNewline msg)
      → lines_of (write_events events (print_lines old)) ≡ old ++ encoded events
  lines_of-write_events events old whole one_line =
      ap lines_of (write_events-print_lines events old)
      ∙ lines_of-print_lines (old ++ encoded events)
          (All-append NoNewline old (encoded events) whole (All-NoNewline-encoded events one_line))
