-- ===== src/Backtest/Batch/Jobs.antt =====
-- What a job counts.
use chainmonitor.Prelude.{
  ℕ, ◌+◌, String, ◌≡◌, sym, ap, ◌∙◌, Option, none, some, List, [], ◌∷◌, ◌++◌, map, arith, eq_iff,
  ◌==◌, if◌then◌else◌, length, sum,
}
use mathlib.Core.List.{append-nil, append_assoc, map-append}
use chainmonitor.Dict.{get-put}
use chainmonitor.Backtest.Batch.{
  success, partial_failed, Outcome, report_of, error_of, BatchBacktestItem, Jobs, Progress,
  add_outcome, run_configs, start_job, finalized, submit, get_job,
}

-- An independent description: the configs whose runs raise.
unfoldable pub raises : {R : Type 0} → Outcome R → ℕ
raises (report_of r) = 0
raises (error_of e) = 1

abbrev pub failures : {C R : Type 0} → (C → Outcome R) → List C → ℕ
failures runner configs = sum (map (λ c. raises (runner c)) configs)

-- The outcome that an item is of.
unfoldable pub outcome : {R : Type 0} → BatchBacktestItem R → Option R × Option String
outcome item = (item.result, item.error)

unfoldable pub told : {R : Type 0} → Outcome R → Option R × Option String
told (report_of r) = (some r, none)
told (error_of e) = (none, some e)

module _ {C R : Type 0} (text : ℕ → String) (runner : C → Outcome R)
    (job_id chain_id : String) where
  -- The counters and the items before and after.
  abbrev Counts : List C → Progress R → Progress R → Type 0
  Counts configs p q =
      (q.failed ≡ p.failed + failures runner configs)
      × (q.succeeded + q.failed ≡ p.succeeded + p.failed + length configs)
      × (map outcome q.items ≡ map outcome p.items ++ map (λ c. told (runner c)) configs)

  add_outcome-Counts :
      (index : ℕ) (o : Outcome R) (p : Progress R)
      → let q = add_outcome text runner job_id chain_id index o p in
        (q.failed ≡ p.failed + raises o)
        × (q.succeeded + q.failed ≡ p.succeeded + p.failed + 1)
        × (map outcome q.items ≡ map outcome p.items ++ told o ∷ [])
  unfolding add_outcome raises outcome told
  add_outcome-Counts index (report_of r) p =
      (omega arith, omega arith, map-append outcome p.items _)
  add_outcome-Counts index (error_of e) p = (omega arith, omega arith, map-append outcome p.items _)

  run_configs-Counts :
      (index : ℕ) (configs : List C) (p : Progress R)
      → Counts configs p (run_configs text runner job_id chain_id index configs p)
  unfolding run_configs
  run_configs-Counts index [] p = (omega arith, omega arith, sym (append-nil (map outcome p.items)))
  run_configs-Counts index (c ∷ cs) p =
      let q = add_outcome text runner job_id chain_id index (runner c) p in
      let (failed_1, count_1, items_1) = add_outcome-Counts index (runner c) p in
      let (failed_n, count_n, items_n) = run_configs-Counts (index + 1) cs q in
      (
        omega (arith, failed_1, failed_n),
        omega (arith, count_1, count_n),
        items_n
            ∙ (ap (λ (xs : List (Option R × Option String)). xs ++ map (λ x. told (runner x)) cs)
                  items_1
                ∙ append_assoc (map outcome p.items) (told (runner c) ∷ [])
                    (map (λ x. told (runner x)) cs)),
      )

-- A job's report counts each config once, as succeeded or failed, with as many failures as configs
-- whose runs raise; it is a success just when none does; its items are the outcomes in the order of
-- the configs; and the center keeps it under the job's id.
pub submit-counts :
    {C R : Type 0} (text : ℕ → String) (runner : C → Outcome R) (job_id chain_id : String)
    (configs : List C) (jobs : Jobs R)
    → let (report, jobs') = submit text runner job_id chain_id configs jobs in
      (report.failed ≡ failures runner configs)
      × (report.succeeded + report.failed ≡ report.total)
      × (report.status ≡ (if failures runner configs == 0 then success else partial_failed))
      × (map outcome report.items ≡ map (λ c. told (runner c)) configs)
      × (get_job job_id jobs' ≡ some report)
unfolding submit finalized get_job
submit-counts text runner job_id chain_id configs jobs =
    let (failed_n, count_n, items_n) =
      run_configs-Counts text runner job_id chain_id 0 configs
        (record { items = []; succeeded = 0; failed = 0 }) in
    let same : (submit text runner job_id chain_id configs jobs).0.failed
        ≡ failures runner configs =
      omega (arith, failed_n) in
    (
      same,
      omega (arith, count_n),
      ap (λ (n : ℕ). if n == 0 then success else partial_failed) same,
      items_n,
      ground (
        arith,
        get-put (start_job text runner job_id chain_id configs jobs) job_id job_id
            (submit text runner job_id chain_id configs jobs).0,
        eq_iff job_id job_id,
      ),
    )
