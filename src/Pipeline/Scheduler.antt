-- ===== src/Pipeline/Scheduler.antt =====
-- src/app/services/chain_scheduler.py: `ChainPipelineScheduler`, the windows that are due and what
-- one round does with them.
--
-- A window is its start, in minutes. `answers` says for each window how the lock, the claim and the
-- run go.
pub mod Windows
use chainmonitor.Prelude.{
  ℕ, zero, suc, ◌+◌, ◌-◌, ◌/◌, ◌%◌, min, max, ap, not, Option, none, some, List, [], ◌∷◌, ltb, leb,
  if◌then◌else◌, length, set,
}

pub record ChainPipelineScheduler : Type 0 where
  pub interval_seconds : ℕ
  pub catchup_windows : ℕ
  pub window_step_minutes : ℕ
  pub last_window_ts : Option ℕ

-- `round(seconds / 60)`, which rounds a half to the even number.
unfoldable pub round_minutes : ℕ → ℕ
round_minutes seconds =
    let q = seconds / 60 in
    let r = seconds % 60 in if ltb r 30 then q else if ltb 30 r then q + 1 else q + q % 2

unfoldable pub init : ℕ → ℕ → ChainPipelineScheduler
unfolding round_minutes
init interval_seconds catchup_windows = record {
  interval_seconds = max 10 interval_seconds;
  catchup_windows = max 1 catchup_windows;
  window_step_minutes = max 1 (round_minutes (max 10 interval_seconds));
  last_window_ts = none;
}

-- The `while` loop, which appends windows while they are not after `current`. The fuel is the
-- number of minutes left, and one (`Windows`).
unfoldable pub windows_from : ℕ → ℕ → ℕ → ℕ → List ℕ
windows_from zero step next current = []
windows_from (suc fuel) step next current =
    let rest = windows_from fuel step (next + step) current in
    if leb next current then next ∷ rest else []

-- `due_windows[-n:]`
abbrev pub drop : ℕ → List ℕ → List ℕ
drop zero xs = xs
drop (suc n) [] = []
drop (suc n) (x ∷ xs) = drop n xs

abbrev pub last_windows : ℕ → List ℕ → List ℕ
last_windows n xs = drop (length xs - n) xs

-- What is due, of the windows since the last one.
unfoldable pub trim : ℕ → ℕ → List ℕ → List ℕ
trim catchup current [] = current ∷ []
trim catchup current (x ∷ xs) =
    if ltb catchup (length (x ∷ xs)) then last_windows catchup (x ∷ xs) else x ∷ xs

unfoldable pub build_due_windows : ℕ → ChainPipelineScheduler → List ℕ
build_due_windows current s = elim s.last_window_ts [
  | none ↦ current ∷ []
  | some last ↦
      let next = last + s.window_step_minutes in
      trim s.catchup_windows current
        (windows_from (suc (current - next)) s.window_step_minutes next current)
]

-- How a window goes: the lock is not acquired, the window is claimed already, the run returns, or
-- one of the calls raises, which is logged.
pub data Answer : Type 0 where
  not_acquired duplicate completed raised : Answer

unfoldable pub settle : Answer → ℕ → ChainPipelineScheduler → ChainPipelineScheduler
settle not_acquired window s = s
settle duplicate window s = record s { last_window_ts = some window }
settle completed window s = record s { last_window_ts = some window }
settle raised window s = s

-- The `for` loop over the windows of a round.
unfoldable pub run_windows : (ℕ → Answer) → List ℕ → ChainPipelineScheduler → ChainPipelineScheduler
run_windows answers [] s = s
run_windows answers (window ∷ windows) s =
    run_windows answers windows (settle (answers window) window s)

unfoldable pub run_round : (ℕ → Answer) → ℕ → ChainPipelineScheduler → ChainPipelineScheduler
run_round answers current s = run_windows answers (build_due_windows current s) s

-- The sleep at the end of a round, of seconds.
unfoldable pub sleep_seconds : ℕ → ChainPipelineScheduler → ℕ
sleep_seconds now s = max 1 (s.interval_seconds - now % s.interval_seconds)
