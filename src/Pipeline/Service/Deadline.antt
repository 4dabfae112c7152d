-- ===== src/Pipeline/Service/Deadline.antt =====
-- How long a run takes at most.
use chainmonitor.Prelude.{ℕ, ◌+◌, ◌/◌, ◌≤◌, String}
use chainmonitor.Float.{Float}
use chainmonitor.Pipeline.Runs.{Window}
use chainmonitor.Pipeline.Service.{PipelineSettings, Components, returned, raised, second, Ending}

-- Half a second, the least timeout of a stage.
abbrev half : ℕ
half = second / 2

module _ (float : Float) (settings : PipelineSettings float) (parts : Components float) (w : Window)
    (run_id trigger : String) where
  open float use {F}

  Within : ℕ → Ending float settings parts w run_id trigger → Type 0
  Within limit e =
      e.world.now ≤ limit + elim e.result [ returned _ ↦ 0 | raised _ ↦ parts.marking.took ]
