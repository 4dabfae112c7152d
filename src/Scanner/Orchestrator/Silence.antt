-- ===== src/Scanner/Orchestrator/Silence.antt =====
-- Scans that say less than they should: a duration that does not start at the start.
use chainmonitor.Prelude.{ℕ, String, ◌≡◌, refl, List, [], ◌∷◌}
use chainmonitor.Float.{Float}
use chainmonitor.Scanner.Models.{TrendingToken}
use chainmonitor.Scanner.Orchestrator.Actions.{Environment, Scanner, read_clock}
use chainmonitor.Scanner.Orchestrator.Security.{security_tasks, check_security}
use chainmonitor.Scanner.Orchestrator.Chain.{scan}

module _ (float : Float) where
  open float use {F}

  module _ (env : Environment F) (chain interval : String) where
    start_hidden :
        (task : String × String) (tasks : List (String × String)) (t0 t1 : ℕ) (s : Scanner F)
        → check_security float env chain (task ∷ tasks) t0 [] s
          ≡ check_security float env chain (task ∷ tasks) t1 [] s
    unfolding check_security
    start_hidden task tasks t0 t1 s = refl

    -- Where at least one token is to be checked, the clock reading from the start of the scan is not
    -- used any more: whatever it was, the scan does, publishes and leaves the same.
    pub scan_start_hidden :
        (tokens : List (TrendingToken F)) (task : String × String) (tasks : List (String × String))
        (t0 t1 : ℕ) (s : Scanner F)
        → security_tasks float [] tokens ≡ task ∷ tasks
        → scan float env chain interval t0 tokens s ≡ scan float env chain interval t1 tokens s
    unfolding scan read_clock
    scan_start_hidden tokens task tasks t0 t1 s checked =
        rw (checked, start_hidden task tasks t0 t1)
