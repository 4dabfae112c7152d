-- ===== src/Backtest/Batch.antt =====
-- src/backtest/batch.py: `BacktestBatchCenter`.
--
-- The runner's outcomes and the id of the job, from `uuid4`, are arguments; `text` is `str` of a
-- number. A config is of any type C, a report of any type R.
pub mod Jobs
use chainmonitor.Prelude.{
  ℕ, suc, ◌+◌, ◌-◌, ◌/◌, String, ap, Option, none, some, List, [], ◌∷◌, ◌++◌, ◌==◌, if◌then◌else◌,
  length, append,
}
use chainmonitor.Dict
use chainmonitor.Dict.{Dict}

pub data Status : Type 0 where
  running success failed partial_failed : Status

-- What a runner comes to: a report, or an exception with its text.
pub data Outcome (R : Type 0) : Type 0 where
  report_of : R → Outcome R
  error_of : String → Outcome R

pub record BatchBacktestItem (R : Type 0) : Type 0 where
  pub item_id : String
  pub chain_id : String
  pub status : Status
  pub result : Option R
  pub error : Option String

pub record BatchBacktestJobReport (R : Type 0) : Type 0 where
  pub job_id : String
  pub chain_id : String
  pub status : Status
  pub total : ℕ
  pub succeeded : ℕ
  pub failed : ℕ
  pub items : List (BatchBacktestItem R)

-- The jobs of the center.
abbrev pub Jobs : Type 0 → Type 0
Jobs R = Dict (BatchBacktestJobReport R)

-- The variables of the loop.
pub record Progress (R : Type 0) : Type 0 where
  pub items : List (BatchBacktestItem R)
  pub succeeded : ℕ
  pub failed : ℕ

module _ {C R : Type 0} (text : ℕ → String) (runner : C → Outcome R) where
  unfoldable pub add_outcome : String → String → ℕ → Outcome R → Progress R → Progress R
  add_outcome job_id chain_id index (report_of r) p = record p {
    succeeded = p.succeeded + 1;
    items =
        p.items
        ++ record {
          item_id = append job_id (append "_" (text (index + 1)));
          chain_id = chain_id;
          status = success;
          result = some r;
          error = none;
        }
          ∷ [];
  }
  add_outcome job_id chain_id index (error_of e) p = record p {
    failed = p.failed + 1;
    items =
        p.items
        ++ record {
          item_id = append job_id (append "_" (text (index + 1)));
          chain_id = chain_id;
          status = failed;
          result = none;
          error = some e;
        }
          ∷ [];
  }

  unfoldable pub run_configs : String → String → ℕ → List C → Progress R → Progress R
  unfolding add_outcome
  run_configs job_id chain_id index [] p = p
  run_configs job_id chain_id index (c ∷ cs) p =
      run_configs job_id chain_id (index + 1) cs (add_outcome job_id chain_id index (runner c) p)

  unfoldable pub start_job : String → String → List C → Jobs R → Jobs R
  start_job job_id chain_id configs jobs = Dict.put jobs job_id (record {
    job_id = job_id;
    chain_id = chain_id;
    status = running;
    total = length configs;
    succeeded = 0;
    failed = 0;
    items = [];
  })

  unfoldable pub finalized : String → String → List C → Progress R → BatchBacktestJobReport R
  finalized job_id chain_id configs p = record {
    job_id = job_id;
    chain_id = chain_id;
    status = if p.failed == 0 then success else partial_failed;
    total = length configs;
    succeeded = p.succeeded;
    failed = p.failed;
    items = p.items;
  }

  unfoldable pub submit : String → String → List C → Jobs R → BatchBacktestJobReport R × Jobs R
  unfolding run_configs start_job finalized
  submit job_id chain_id configs jobs =
      let p =
        run_configs job_id chain_id 0 configs (record { items = []; succeeded = 0; failed = 0 }) in
      let report = finalized job_id chain_id configs p in
      (report, Dict.put (start_job job_id chain_id configs jobs) job_id report)

unfoldable pub get_job : {R : Type 0} → String → Jobs R → Option (BatchBacktestJobReport R)
get_job job_id jobs = Dict.get jobs job_id
