-- ===== src/Pipeline/Runs/Claims.antt =====
-- How often a window can be claimed.
use chainmonitor.Prelude.{
  ℕ, ◌+◌, ◌≤◌, String, ◌≡◌, refl, ◌∙◌, Bool, true, false, ◌&&◌, Option, none, some, List, [], ◌∷◌,
  arith, eq_iff, if◌then◌else◌,
}
use chainmonitor.Pipeline.Runs.{
  PipelineRun, Window, in_window, is_claim, is_claimed, started, insert, try_start_pipeline_run,
  insert_pipeline_run_for_replay, Update, mark_pipeline_run_status,
}

-- What the services do to the table, one statement at a time.
pub data Statement : Type 0 where
  starts : ℕ → Window → String → String → Statement
  replays : ℕ → Window → String → Statement
  marks : Window → Option String → Update → Statement

-- The rows after a statement; one that raises changes nothing.
unfoldable pub step : Statement → List PipelineRun → List PipelineRun
step (starts now w trigger run_id) rows = elim (try_start_pipeline_run now w trigger run_id rows) [
  | none ↦ rows
  | some r ↦ r.1
]
step (replays now w run_id) rows = elim (insert_pipeline_run_for_replay now w run_id rows) [
  | none ↦ rows
  | some rows' ↦ rows'
]
step (marks w run_id u) rows = (mark_pipeline_run_status w run_id u rows).1

-- Whether the statement claims the window w: it is a start with a trigger other than "replay", it
-- is in the window, and it answers that a row was inserted.
unfoldable pub wins : Window → Statement → List PipelineRun → Bool
wins w (starts now v trigger run_id) rows =
    is_claim trigger
    && (in_window w (started v trigger run_id now)
        && elim (try_start_pipeline_run now v trigger run_id rows) [ none ↦ false | some r ↦ r.0 ])
wins w _ rows = false

-- How many statements claim the window.
unfoldable pub count_wins : Window → List Statement → List PipelineRun → ℕ
count_wins w [] rows = 0
count_wins w (s ∷ ss) rows = (if wins w s rows then 1 else 0) + count_wins w ss (step s rows)

is_claimed-mark :
    (w v : Window) (run_id : Option String) (u : Update) (rows : List PipelineRun)
    → is_claimed w (mark_pipeline_run_status v run_id u rows).1 ≡ is_claimed w rows
unfolding is_claimed mark_pipeline_run_status in_window
is_claimed-mark w v run_id u [] = refl
is_claimed-mark w v run_id u (r ∷ rows) = ground (arith, is_claimed-mark w v run_id u rows)

-- Two rows of one window are in the same windows.
in_window-same :
    (w v : Window) (r : PipelineRun) (trigger run_id : String) (now : ℕ)
    → in_window w (started v trigger run_id now) ≡ true
    → in_window v r ≡ in_window w r
unfolding in_window
in_window-same w v r trigger run_id now h = ground (
  arith,
  eq_iff v.chain_id w.chain_id,
  eq_iff v.strategy_version w.strategy_version,
  eq_iff r.chain_id v.chain_id,
  eq_iff r.strategy_version v.strategy_version,
  eq_iff r.chain_id w.chain_id,
  eq_iff r.strategy_version w.strategy_version,
)

is_claimed-same :
    (w v : Window) (trigger run_id : String) (now : ℕ) (rows : List PipelineRun)
    → in_window w (started v trigger run_id now) ≡ true
    → is_claimed v rows ≡ is_claimed w rows
unfolding is_claimed
is_claimed-same w v trigger run_id now [] h = refl
is_claimed-same w v trigger run_id now (r ∷ rows) h =
    rw (in_window-same w v r trigger run_id now h, is_claimed-same w v trigger run_id now rows h)

wins-in_window :
    (w v : Window) (trigger run_id : String) (now : ℕ) (rows : List PipelineRun)
    → wins w (starts now v trigger run_id) rows ≡ true
    → in_window w (started v trigger run_id now) ≡ true
unfolding wins
wins-in_window w v trigger run_id now rows h = ground arith

-- A statement claims a window only when it is free, and then it is claimed.
wins-claims :
    (w : Window) (s : Statement) (rows : List PipelineRun)
    → wins w s rows ≡ true
    → (is_claimed w rows ≡ false) × (is_claimed w (step s rows) ≡ true)
unfolding wins step try_start_pipeline_run insert is_claimed
wins-claims w (starts now v trigger run_id) rows h =
    let same =
      is_claimed-same w v trigger run_id now rows (wins-in_window w v trigger run_id now rows h) in
    ground (arith, same, wins-in_window w v trigger run_id now rows h)
wins-claims w (replays now v run_id) rows h = ground arith
wins-claims w (marks v run_id u) rows h = ground arith

is_claimed-step :
    (w : Window) (s : Statement) (rows : List PipelineRun)
    → is_claimed w rows ≡ true
    → is_claimed w (step s rows) ≡ true
unfolding step try_start_pipeline_run insert_pipeline_run_for_replay insert is_claimed
is_claimed-step w (starts now v trigger run_id) rows h = ground arith
is_claimed-step w (replays now v run_id) rows h = ground arith
is_claimed-step w (marks v run_id u) rows h = is_claimed-mark w v run_id u rows ∙ h

-- Of any sequence of statements, whichever tasks they come from, at most one start that is no
-- replay claims a window, and none does where the table has a claim of it already.
pub count_wins-le :
    (w : Window) (ss : List Statement) (rows : List PipelineRun)
    → count_wins w ss rows ≤ (if is_claimed w rows then 0 else 1)
unfolding count_wins
count_wins-le w [] rows = omega arith
count_wins-le w (s ∷ ss) rows =
    ground (arith, count_wins-le w ss (step s rows), wins-claims w s rows, is_claimed-step w s rows)
