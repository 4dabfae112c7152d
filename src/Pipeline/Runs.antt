-- ===== src/Pipeline/Runs.antt =====
-- src/shared/db/repository.py: `PipelineRepository`, the table `pipeline_runs`.
--
-- The table is a list of rows. Its unique indexes are the one on `run_id` and, for rows whose
-- trigger is not "replay", the one on (chain_id, strategy_version, ts_minute), of the migrations
-- under alembic/versions. Times are whole nanoseconds.
pub mod Claims
pub mod Marking
use chainmonitor.Prelude.{
  ℕ, suc, ◌+◌, ◌-◌, ◌*◌, ◌/◌, ◌<◌, min, max, String, Bool, true, false, not, ◌&&◌, ◌||◌, Option,
  none, some, List, [], ◌∷◌, str_eq, leb, ◌==◌, if◌then◌else◌, set,
}

pub data Status : Type 0 where
  running success failed : Status

-- The texts of `error_message`: `ingestion` has the reason and the trace, the others a message.
pub data ErrorMessage : Type 0 where
  cancelled timeout persist_timeout : ErrorMessage
  ingestion : String → String → ErrorMessage
  prepare persist : String → ErrorMessage

pub record PipelineRun : Type 0 where
  pub run_id : String
  pub chain_id : String
  pub strategy_version : String
  pub ts_minute : ℕ
  pub status : Status
  pub trigger : String
  pub started_at : ℕ
  pub ended_at : Option ℕ
  pub tick_count : ℕ
  pub candidate_count : ℕ
  pub error_message : Option ErrorMessage

-- (chain_id, strategy_version, ts_minute)
pub record Window : Type 0 where
  pub chain_id : String
  pub strategy_version : String
  pub ts_minute : ℕ

-- Whether a row is in the window.
unfoldable pub in_window : Window → PipelineRun → Bool
in_window w r =
    str_eq r.chain_id w.chain_id
    && (str_eq r.strategy_version w.strategy_version && (r.ts_minute == w.ts_minute))

-- `trigger <> 'replay'`
abbrev pub is_claim : String → Bool
is_claim trigger = not (str_eq trigger "replay")

-- Whether the partial index has a row of the window.
unfoldable pub is_claimed : Window → List PipelineRun → Bool
unfolding in_window
is_claimed w [] = false
is_claimed w (r ∷ rows) = (is_claim r.trigger && in_window w r) || is_claimed w rows

unfoldable pub has_run_id : String → List PipelineRun → Bool
has_run_id run_id [] = false
has_run_id run_id (r ∷ rows) = str_eq r.run_id run_id || has_run_id run_id rows

-- The row that a run starts with; the database gives the counts.
abbrev pub started : Window → String → String → ℕ → PipelineRun
started w trigger run_id now = record {
  run_id = run_id;
  chain_id = w.chain_id;
  strategy_version = w.strategy_version;
  ts_minute = w.ts_minute;
  status = running;
  trigger = trigger;
  started_at = now;
  ended_at = none;
  tick_count = 0;
  candidate_count = 0;
  error_message = none;
}

-- A statement that a unique index rejects raises and changes nothing, which is `none`.
unfoldable pub insert : PipelineRun → List PipelineRun → Option (List PipelineRun)
insert row rows = if has_run_id row.run_id rows then none else some (row ∷ rows)

-- Whether a row was inserted. The index of claims does not see a row whose trigger is "replay".
unfoldable pub try_start_pipeline_run :
    ℕ → Window → String → String → List PipelineRun → Option (Bool × List PipelineRun)
unfolding insert
try_start_pipeline_run now w trigger run_id rows =
    if is_claim trigger && is_claimed w rows
    then some (false, rows)
    else elim (insert (started w trigger run_id now) rows) [
      | none ↦ none
      | some rows' ↦ some (true, rows')
    ]

unfoldable pub insert_pipeline_run_for_replay :
    ℕ → Window → String → List PipelineRun → Option (List PipelineRun)
unfolding insert
insert_pipeline_run_for_replay now w run_id rows = insert (started w "replay" run_id now) rows

-- `:run_id IS NULL OR run_id = :run_id`
abbrev pub selects : Option String → PipelineRun → Bool
selects none r = true
selects (some run_id) r = str_eq r.run_id run_id

-- What an update of the status sets.
pub record Update : Type 0 where
  pub status : Status
  pub ended_at : ℕ
  pub tick_count : ℕ
  pub candidate_count : ℕ
  pub error_message : Option ErrorMessage

abbrev pub updated : Update → PipelineRun → PipelineRun
updated u r = record r {
  status = u.status;
  ended_at = some u.ended_at;
  tick_count = u.tick_count;
  candidate_count = u.candidate_count;
  error_message = u.error_message;
}

-- Whether a row was updated.
unfoldable pub mark_pipeline_run_status :
    Window → Option String → Update → List PipelineRun → Bool × List PipelineRun
unfolding in_window
mark_pipeline_run_status w run_id u [] = (false, [])
mark_pipeline_run_status w run_id u (r ∷ rows) =
    let (found, rows') = mark_pipeline_run_status w run_id u rows in
    if in_window w r && selects run_id r then (true, updated u r ∷ rows') else (found, r ∷ rows')

abbrev pub is_running : Status → Bool
is_running running = true
is_running _ = false

-- One second, and `max(1, stale_seconds)` of them.
abbrev pub stale : ℕ → ℕ
stale stale_seconds = max 1 stale_seconds * 1_000_000_000

abbrev pub is_active : ℕ → String → ℕ → PipelineRun → Bool
is_active now chain_id stale_seconds r =
    str_eq r.chain_id chain_id
    && (str_eq r.trigger "replay"
        && (is_running r.status && leb now (r.started_at + stale stale_seconds)))

unfoldable pub count_active_replay_runs : ℕ → String → ℕ → List PipelineRun → ℕ
count_active_replay_runs now chain_id stale_seconds [] = 0
count_active_replay_runs now chain_id stale_seconds (r ∷ rows) =
    (if is_active now chain_id stale_seconds r then 1 else 0)
    + count_active_replay_runs now chain_id stale_seconds rows
