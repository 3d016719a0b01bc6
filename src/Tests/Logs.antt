-- ===== src/Tests/Logs.antt =====
-- The events log of the agent, and a run of the observer, at concrete inputs.
use ssle_project.Prelude.{
  ℕ, ◌≡◌, refl, Option, none, some, List, [], ◌∷◌, ◌++◌, Bytes, codes, arith, ◌==◌, if◌then◌else◌,
}
use mathlib.Core.Path.{subst}
use ssle_project.Node.{print_lines, lines_of}
use ssle_project.Node.Lines.{NoNewline}
use ssle_project.Agent.{AuditEvent, no_signature_configuration, unsigned_image}
use ssle_project.Agent.Log.{LoggedEvent, encoded, write_events, lines_of-write_events}

-- Only one code is encoded.
abbrev json : LoggedEvent → Option Bytes
json e = if e.code == 1 then some (codes "unsigned") else none

abbrev events : List (ℕ × AuditEvent)
events =
    (5, no_signature_configuration (codes "c")) ∷ (6, unsigned_image (codes "i") (codes "r")) ∷ []

unsigned-NoNewline : NoNewline (codes "unsigned")
unsigned-NoNewline = (refl, (refl, (refl, (refl, (refl, (refl, (refl, (refl, tt))))))))

json-NoNewline : (e : LoggedEvent) (msg : Bytes) → json e ≡ some msg → NoNewline msg
json-NoNewline e msg eq =
    let same : codes "unsigned" ≡ msg = ground arith in subst NoNewline same unsigned-NoNewline

lines_of-write_events_example :
    lines_of (write_events json events (print_lines (codes "old" ∷ [])))
    ≡ (codes "old" ∷ []) ++ encoded json events
lines_of-write_events_example =
    lines_of-write_events json events (codes "old" ∷ []) ((refl, (refl, (refl, tt))), tt)
      json-NoNewline
