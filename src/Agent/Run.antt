-- ===== src/Agent/Run.antt =====
-- The start and the end of the agent: `main` before its loops, and `cleanup`, of agent/main.go. Behind the
-- start, the loop over the events, the startup check and the cleanup are goroutines that run at the same
-- time; how they interleave is left out.
use ssle_project.Prelude.{none, some}
use ssle_project.Handler.{Call}

-- The process returns or exits before it begins to work, or goes on to its loops.
pub data Start : Type 0 where
  stopped working : Start

-- `reset` is the call of `Reset`; its error is only logged.
unfoldable pub cleanup : {W : Type 0} → Call W (Unit {0}) → W → W
cleanup reset w = (reset w).1

-- The first reset has to go well; a configuration that cannot be fetched ends the process, with no
-- cleanup. An interrupt that comes so early is left out.
unfoldable pub start_up : {W : Type 0} → Call W (Unit {0}) → Call W (Unit {0}) → W → Start × W
start_up reset get_registry_config w =
    let (done, w1) = reset w in
    let (found, w2) = get_registry_config w1 in
    elim done [
      | none ↦ (stopped, w1)
      | some _ ↦ (elim found [ none ↦ stopped | some _ ↦ working ], w2)
    ]
