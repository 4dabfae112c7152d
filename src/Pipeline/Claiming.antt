-- ===== src/Pipeline/Claiming.antt =====
-- src/app/services/chain_pipeline_service.py: `ChainPipelineService.run_once` and `replay`, which
-- claim a window and then run it.
--
-- The run id of `uuid4` and whether the replay lock was free are arguments. Times are whole
-- nanoseconds.
pub mod Limits
use chainmonitor.Prelude.{
  ℕ, ◌+◌, ◌-◌, ◌*◌, ◌/◌, min, max, String, ap, ◌⊎◌, inl, inr, Bool, true, false, not, ◌&&◌, none,
  some, leb, if◌then◌else◌, set,
}
use chainmonitor.Float.{Float}
use chainmonitor.Pipeline.Runs.{
  Window, try_start_pipeline_run, insert_pipeline_run_for_replay, count_active_replay_runs,
}
use chainmonitor.Pipeline.Service.{PipelineSettings, Components, World, Ending, run_claimed, second}

pub record ReplaySettings : Type 0 where
  pub replay_max_in_flight_per_chain : ℕ
  pub replay_max_lookback_minutes : ℕ
  pub replay_max_future_skew_seconds : ℕ
  -- `run_timeout_seconds`, whose double is the age at which a replay is stale
  pub run_timeout_seconds : ℕ

abbrev pub minute : ℕ
minute = 60 * second

-- `replace(second=0, microsecond=0)`
unfoldable pub normalize_ts : ℕ → ℕ
normalize_ts ts = ts / minute * minute

unfoldable pub validate_replay_window : ReplaySettings → ℕ → ℕ → Bool
unfolding normalize_ts
validate_replay_window rs now run_ts =
    leb (normalize_ts now) (run_ts + max 1 rs.replay_max_lookback_minutes * minute)
    && leb run_ts (now + rs.replay_max_future_skew_seconds * second)

-- `int(max(60.0, run_timeout_seconds * 2))`
unfoldable pub stale_seconds : ReplaySettings → ℕ
stale_seconds rs = max 60 (rs.run_timeout_seconds * 2 / second)

-- Why a call claims no run: the window was claimed before, or an exception.
pub data Refusal : Type 0 where
  skipped out_of_window lock_not_acquired too_many_replays database_error : Refusal

-- The trigger of the run that follows.
abbrev pub trigger_of : Bool → String → String
trigger_of force trigger = if force then "replay" else trigger

-- The window at whose start its time is.
unfoldable pub normalized : Window → Window
unfolding normalize_ts
normalized w = record w { ts_minute = normalize_ts w.ts_minute }

module _ {float : Float} where
  -- `_claim_run`: the world with the run, or the reason that there is none.
  unfoldable pub claim_run : Window → String → String → World float → (Refusal ⊎ World float)
  claim_run w trigger run_id s = elim (try_start_pipeline_run s.now w trigger run_id s.runs) [
    | none ↦ inl database_error
    | some (false, rows) ↦ inl skipped
    | some (true, rows) ↦ inr (record s { runs = rows })
  ]

  insert_replay : Window → String → World float → (Refusal ⊎ World float)
  insert_replay w run_id s = elim (insert_pipeline_run_for_replay s.now w run_id s.runs) [
    | none ↦ inl database_error
    | some rows ↦ inr (record s { runs = rows })
  ]

  -- The part of `replay` that comes before the run.
  unfoldable pub claim_replay :
      ReplaySettings → Bool → Window → String → World float → (Refusal ⊎ World float)
  unfolding insert_replay
  claim_replay rs acquired w run_id s =
      if not (validate_replay_window rs s.now w.ts_minute)
      then inl out_of_window
      else if not acquired
      then inl lock_not_acquired
      else if leb (max 1 rs.replay_max_in_flight_per_chain)
          (count_active_replay_runs s.now w.chain_id (stale_seconds rs) s.runs)
      then inl too_many_replays
      else insert_replay w run_id s

  unfoldable pub claim :
      ReplaySettings
      → Bool
      → Bool
      → Window
      → String
      → String
      → World float
      → (Refusal ⊎ World float)
  claim rs force acquired w trigger run_id s =
      if force then claim_replay rs acquired w run_id s else claim_run w trigger run_id s

  -- `run_once`, of the window of the given time.
  unfoldable pub run_once :
      (settings : PipelineSettings float) (parts : Components float)
      → ReplaySettings
      → (force : Bool) → Bool
      → (w : Window) (trigger run_id : String) → World float
      → Refusal ⊎ Ending float settings parts (normalized w) run_id (trigger_of force trigger)
  run_once settings parts rs force acquired w trigger run_id s =
      elim (claim rs force acquired (normalized w) trigger run_id s) [
        | inl refusal ↦ inl refusal
        | inr s' ↦
            inr
              (run_claimed float settings parts (normalized w) run_id (trigger_of force trigger) s')
      ]

  -- The claim of the scheduler, which runs the window later.
  unfoldable pub claim_scheduler_window : Window → String → World float → (Refusal ⊎ World float)
  claim_scheduler_window w run_id s = claim_run (normalized w) "scheduler" run_id s
