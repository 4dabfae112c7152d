-- ===== src/Scanner/Orchestrator/Cycle.antt =====
-- `run_cycle`: every chain each minute, and again for the hour. An exception of one chain is logged
-- and the next chain is scanned.
use chainmonitor.Prelude.{ℕ, ◌+◌, ◌-◌, ◌*◌, String, List, [], ◌∷◌, leb, if◌then◌else◌}
use chainmonitor.Float.{Float}
use chainmonitor.Scanner.Orchestrator.Actions.{Environment, Scanner, read_clock}
use chainmonitor.Scanner.Orchestrator.Chain.{run_chain}

module _ (float : Float) where
  open float use {F}

  module _ (env : Environment F) (interval_1h_seconds : ℕ) where
    -- `try: await self._run_chain(chain, interval)`, for each chain
    unfoldable pub scan_chains : String → List String → Scanner F → Scanner F
    scan_chains interval [] s = s
    scan_chains interval (chain ∷ chains) s =
        scan_chains interval chains (run_chain float env chain interval s).1

    hourly : List String → ℕ → Scanner F → Scanner F
    hourly chains now s =
        if leb (interval_1h_seconds * 1_000_000) (now - s.last_1h_run)
        then scan_chains "1h" chains (record s { last_1h_run = now })
        else s

    unfoldable pub run_cycle : List String → Scanner F → Scanner F
    unfolding hourly read_clock
    run_cycle chains s =
        let s' = scan_chains "1m" chains s in
        hourly chains (env.clock s'.reads) (record s' { reads = s'.reads + 1 })
