-- ===== src/Pipeline/Runs/Marking.antt =====
-- What marking a run does to the rows.
use chainmonitor.Prelude.{
  String, ◌≡◌, refl, ap, true, false, Option, none, some, List, [], ◌∷◌, arith, str_eq, eq_iff,
  if◌then◌else◌,
}
use chainmonitor.Pipeline.Runs.{
  PipelineRun, Window, in_window, Update, updated, mark_pipeline_run_status,
}

-- The row of a run.
unfoldable pub find_run : String → List PipelineRun → Option PipelineRun
find_run run_id [] = none
find_run run_id (r ∷ rows) = if str_eq r.run_id run_id then some r else find_run run_id rows

pub find_run-mark :
    (w : Window) (run_id : String) (u : Update) (r : PipelineRun) (rows : List PipelineRun)
    → find_run run_id rows ≡ some r
    → in_window w r ≡ true
    → find_run run_id (mark_pipeline_run_status w (some run_id) u rows).1 ≡ some (updated u r)
unfolding find_run mark_pipeline_run_status
find_run-mark w run_id u r [] h k = ground arith
find_run-mark w run_id u r (q ∷ rows) h k = ground (
  arith,
  find_run-mark w run_id u r rows,
  eq_iff q.run_id run_id,
  ap (λ (x : PipelineRun). in_window w x),
  ap (updated u),
)

-- Marking one run changes no other.
pub find_run-mark_other :
    (w : Window) (run_id other : String) (u : Update) (rows : List PipelineRun)
    → str_eq run_id other ≡ false
    → find_run other (mark_pipeline_run_status w (some run_id) u rows).1 ≡ find_run other rows
unfolding find_run mark_pipeline_run_status
find_run-mark_other w run_id other u [] h = refl
find_run-mark_other w run_id other u (q ∷ rows) h = ground (
  arith,
  find_run-mark_other w run_id other u rows h,
  eq_iff q.run_id run_id,
  eq_iff q.run_id other,
  eq_iff run_id other,
)
