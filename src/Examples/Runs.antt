-- ===== src/Examples/Runs.antt =====
-- The pipeline at concrete runs, in thousandths.
use chainmonitor.Prelude.{
  ℕ, ◌+◌, ◌*◌, ◌≤◌, String, ◌≡◌, refl, inr, true, false, none, some, List, [], ◌∷◌, arith, leb,
  if◌then◌else◌,
}
use chainmonitor.Float.{thousandths}
use chainmonitor.Scanner.Models.{TrendingToken}
use chainmonitor.Pipeline.Schemas.{ScoreRowInput}
use chainmonitor.Pipeline.Tables.{Key, Tables, find, same_key, save_scores_and_candidates}
use chainmonitor.Pipeline.Tables.Upserts.{candidate_stays, is_selected, selects}
use chainmonitor.Pipeline.Runs.{
  Window, PipelineRun, success, failed, is_claimed, in_window, started, has_run_id,
  count_active_replay_runs, insert_pipeline_run_for_replay, insert,
}
use chainmonitor.Pipeline.Runs.Claims.{starts, replays, Statement, count_wins, count_wins-le}
use chainmonitor.Pipeline.Runs.Marking.{find_run}
use chainmonitor.Pipeline.Service.{
  PipelineSettings, Components, World, gives, run_claimed, second, commit_pending, fail_with,
  await_transaction, persist, prepare, stage, wait_for, bounded_timeout, apply_gate, Prepared,
}
use chainmonitor.Pipeline.Service.Outcomes.{status_in, status_for, pending-contradicts}
use chainmonitor.Pipeline.Claiming.{
  ReplaySettings, claim_replay, validate_replay_window, normalize_ts,
}
use chainmonitor.Pipeline.Scheduler.{ChainPipelineScheduler, build_due_windows}
use chainmonitor.Pipeline.Scheduler.Windows.{build_due_windows-has, has}

abbrev window : Window
window = record { chain_id = "sol"; strategy_version = "v1"; ts_minute = 600_000_000_000 }

abbrev statements : List Statement
statements =
    starts 1 window "scheduler" "a" ∷ starts 2 window "manual" "b" ∷ replays 3 window "c" ∷ []

count_wins-le_example : count_wins window statements [] ≤ (if is_claimed window [] then 0 else 1)
count_wins-le_example = count_wins-le window statements []

abbrev row_key : Key
row_key = record { strategy_version = ""; chain_id = "sol"; token_id = "t"; ts_minute = 1 }

abbrev new_rows : List (Key × ℕ)
new_rows = (row_key, 5) ∷ (row_key, 6) ∷ []

abbrev no_tables : Tables thousandths
no_tables = record {
  market_ticks = [];
  onchain_flow_features = [];
  risk_features = [];
  token_scores = [];
  candidate_pool_snapshots = [];
}

abbrev score_of : String → ScoreRowInput ℕ
score_of tier = record {
  strategy_version = "v1";
  chain_id = "sol";
  token_id = "t";
  ts_minute = 1;
  alpha_score = 0;
  momentum_score = 0;
  smart_money_score = 0;
  narrative_score = 0;
  risk_penalty = 0;
  final_score = 0;
  conviction = 40_000;
  confidence = 0;
  tier = tier;
  reason_codes = [];
}

abbrev candidate_key : Key
candidate_key = record { strategy_version = "v1"; chain_id = "sol"; token_id = "t"; ts_minute = 1 }

abbrev with_candidate : Tables thousandths
with_candidate = record no_tables {
  candidate_pool_snapshots =
      (candidate_key, record { tier = "A"; rank = 1; reason_codes = [] }) ∷ [];
}

candidate_stays_example :
    find
      (save_scores_and_candidates thousandths
        (score_of "D" ∷ [])
        with_candidate).candidate_pool_snapshots
      candidate_key
    ≡ find with_candidate.candidate_pool_snapshots candidate_key
unfolding is_selected selects same_key
candidate_stays_example =
    candidate_stays thousandths (score_of "D" ∷ []) with_candidate candidate_key refl

abbrev settings : PipelineSettings thousandths
settings = record {
  run_timeout_seconds = 45 * second;
  fetch_timeout_seconds = 10 * second;
  feature_timeout_seconds = 10 * second;
  score_timeout_seconds = 10 * second;
  persist_timeout_seconds = 10 * second;
  min_liquidity_usd = 0;
  min_volume_5m_usd = 0;
  min_tx_1m = 0;
}

-- The transaction takes longer than its timeout.
abbrev parts : Components thousandths
parts = record {
  fetch_market_ticks = λ ts. record { took = 1; outcome = gives [] };
  build_features = λ ticks. record { took = 1; outcome = gives [] };
  score = λ ticks features version. record { took = 1; outcome = gives (score_of "A" ∷ []) };
  transaction = record { took = 20 * second; rolled_back = none; cancelled_after = none };
  marking = record { took = second; rolled_back = none; cancelled_after = none };
}

abbrev run : PipelineRun
run = started window "manual" "a" 5

abbrev world : World thousandths
world = record { now = 600_000_000_005; runs = run ∷ []; tables = no_tables }

run_found : find_run "a" world.runs ≡ some run
unfolding find_run
run_found = refl

run_inside : in_window window run ≡ true
unfolding in_window
run_inside = refl

abbrev prepared : Prepared thousandths
prepared = record { ticks = []; features = []; scores = score_of "A" ∷ [] }

run_pending :
    (run_claimed thousandths settings parts window "a" "manual" world).pending ≡ some prepared
unfolding run_claimed prepare stage wait_for bounded_timeout persist await_transaction fail_with
    apply_gate
run_pending = refl

pending-contradicts_example :
    let e = run_claimed thousandths settings parts window "a" "manual" world in
    (status_for e.result ≡ failed)
    × (status_in "a"
          (commit_pending thousandths settings parts window "a" "manual" prepared e.world).runs
        ≡ some success)
pending-contradicts_example =
    pending-contradicts thousandths settings parts window "a" "manual" world run prepared run_found
      run_inside run_pending

abbrev replay_settings : ReplaySettings
replay_settings = record {
  replay_max_in_flight_per_chain = 1;
  replay_max_lookback_minutes = 60;
  replay_max_future_skew_seconds = 5;
  run_timeout_seconds = 45 * second;
}

replayed :
    claim_replay replay_settings true window "b" world
    ≡ inr (record world { runs = started window "replay" "b" world.now ∷ world.runs })
unfolding claim_replay validate_replay_window normalize_ts count_active_replay_runs
    insert_pipeline_run_for_replay insert has_run_id
replayed = refl

abbrev replayed_world : World thousandths
replayed_world = record world { runs = started window "replay" "b" world.now ∷ world.runs }

-- Two rounds a minute apart were missed.
abbrev scheduler : ChainPipelineScheduler
scheduler = record {
  interval_seconds = 60;
  catchup_windows = 3;
  window_step_minutes = 1;
  last_window_ts = some 100;
}

build_due_windows-has_example :
    has (100 + 1 + 1 * 1) (build_due_windows 102 scheduler) ≡ leb (100 + 1 + 1 * 1) 102
build_due_windows-has_example =
    build_due_windows-has 102 100 1 scheduler refl (omega arith) (omega arith) (omega arith)

abbrev token : TrendingToken ℕ
token = record {
  address = "a";
  symbol = "AAA";
  name = "Token";
  price_usd = 1_000;
  volume_1m = none;
  volume_1h = none;
  market_cap = none;
  liquidity = some 50_000;
  smart_degen_count = none;
  rank = 3;
  chain = "sol";
  also_in_1h = false;
}
