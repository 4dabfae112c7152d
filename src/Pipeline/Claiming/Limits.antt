-- ===== src/Pipeline/Claiming/Limits.antt =====
-- When a claim goes through, and how a run that was claimed ends.
use chainmonitor.Prelude.{
  ℕ, ◌+◌, ◌≤◌, ◌<◌, max, String, ◌≡◌, ap, ◌∙◌, ◌⊎◌, inl, inr, Bool, true, false, List, ◌∷◌, arith,
  eq_iff,
}
use chainmonitor.Float.{Float}
use chainmonitor.Pipeline.Runs.{
  is_claim, is_claimed, PipelineRun, Window, started, insert, try_start_pipeline_run,
  insert_pipeline_run_for_replay, count_active_replay_runs,
}
use chainmonitor.Pipeline.Service.{PipelineSettings, Components, World, Ending, run_claimed}
use chainmonitor.Pipeline.Claiming.{
  ReplaySettings, Refusal, skipped, validate_replay_window, stale_seconds, claim_run, insert_replay,
  claim_replay, claim, run_once, normalized,
}

count-started :
    (now stale : ℕ) (w : Window) (run_id : String) (rows : List PipelineRun)
    → count_active_replay_runs now w.chain_id stale (started w "replay" run_id now ∷ rows)
      ≡ count_active_replay_runs now w.chain_id stale rows + 1
unfolding count_active_replay_runs
count-started now stale w run_id rows = ground (arith, eq_iff w.chain_id w.chain_id)

room_le : (n more limit : ℕ) → more ≡ n + 1 → n < limit → more ≤ limit
room_le n more limit h k = omega arith

module _ {float : Float} where
  replay_adds :
      (w : Window) (run_id : String) (s s' : World float)
      → insert_replay w run_id s ≡ inr s'
      → s' ≡ record s { runs = started w "replay" run_id s.now ∷ s.runs }
  unfolding insert_replay insert insert_pipeline_run_for_replay
  replay_adds w run_id s s' h = ground arith

  start_adds :
      (w : Window) (trigger run_id : String) (s s' : World float)
      → claim_run w trigger run_id s ≡ inr s'
      → s' ≡ record s { runs = started w trigger run_id s.now ∷ s.runs }
  unfolding claim_run try_start_pipeline_run insert
  start_adds w trigger run_id s s' h = ground arith

  replay_guards :
      (rs : ReplaySettings) (acquired : Bool) (w : Window) (run_id : String) (s s' : World float)
      → claim_replay rs acquired w run_id s ≡ inr s'
      → (validate_replay_window rs s.now w.ts_minute ≡ true)
        × ((acquired ≡ true)
            × ((count_active_replay_runs s.now w.chain_id (stale_seconds rs) s.runs
                  < max 1 rs.replay_max_in_flight_per_chain)
                × (insert_replay w run_id s ≡ inr s')))
  unfolding claim_replay
  replay_guards rs acquired w run_id s s' h = ground arith

  -- A replay that goes through was within its time window, had the lock, and there were fewer
  -- active replays of the chain than the limit; afterwards there is one more.
  pub claim_replay-count :
      (rs : ReplaySettings) (acquired : Bool) (w : Window) (run_id : String) (s s' : World float)
      → claim_replay rs acquired w run_id s ≡ inr s'
      → (validate_replay_window rs s.now w.ts_minute ≡ true)
        × ((acquired ≡ true)
            × ((count_active_replay_runs s.now w.chain_id (stale_seconds rs) s'.runs
                  ≡ count_active_replay_runs s.now w.chain_id (stale_seconds rs) s.runs + 1)
                × (count_active_replay_runs s.now w.chain_id (stale_seconds rs) s'.runs
                    ≤ max 1 rs.replay_max_in_flight_per_chain)))
  claim_replay-count rs acquired w run_id s s' h =
      let guards = replay_guards rs acquired w run_id s s' h in
      let count = λ (rows : List PipelineRun).
        count_active_replay_runs s.now w.chain_id (stale_seconds rs) rows in
      let added = ap (λ (x : World float). x.runs) (replay_adds w run_id s s' guards.1.1.1) in
      let more = ap count added ∙ count-started s.now (stale_seconds rs) w run_id s.runs in
      (guards.0, (guards.1.0, (more, room_le _ _ _ more guards.1.1.0)))

  -- What `run_once` does with a claim that is not forced.
  abbrev skip_or_run :
      (settings : PipelineSettings float) (parts : Components float) (w : Window)
      (run_id trigger : String)
      → Refusal ⊎ World float
      → Refusal ⊎ Ending float settings parts w run_id trigger
  skip_or_run settings parts w run_id trigger (inl refusal) = inl refusal
  skip_or_run settings parts w run_id trigger (inr s') =
      inr (run_claimed float settings parts w run_id trigger s')

  claim_run-skips :
      (w : Window) (trigger run_id : String) (s : World float)
      → is_claim trigger ≡ true
      → is_claimed w s.runs ≡ true
      → claim_run w trigger run_id s ≡ inl skipped
  unfolding claim_run try_start_pipeline_run
  claim_run-skips w trigger run_id s h k = ground arith

  -- Where the window has a claim already, a call of `run_once` that is not forced is skipped.
  pub run_once-skips :
      (settings : PipelineSettings float) (parts : Components float) (rs : ReplaySettings)
      (acquired : Bool) (w : Window) (trigger run_id : String) (s : World float)
      → is_claim trigger ≡ true
      → is_claimed (normalized w) s.runs ≡ true
      → run_once settings parts rs false acquired w trigger run_id s ≡ inl skipped
  unfolding run_once claim
  run_once-skips settings parts rs acquired w trigger run_id s h k =
      ap (λ (c : Refusal ⊎ World float). skip_or_run settings parts (normalized w) run_id trigger c)
        (claim_run-skips (normalized w) trigger run_id s h k)
