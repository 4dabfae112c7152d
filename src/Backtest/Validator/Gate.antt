-- ===== src/Backtest/Validator/Gate.antt =====
-- What the gate lets through.
use chainmonitor.Prelude.{
  ◌-◌, ◌*◌, ◌<◌, ◌≡◌, refl, sym, ap, ◌∙◌, Bool, true, false, arith, leb, if◌then◌else◌,
}
use mathlib.Core.Path.{subst}
use chainmonitor.Float.{Float}
use chainmonitor.Signed.{Signed}
use chainmonitor.Pipeline.Scoring.{Scored, rows_of, value_error, key_error}
use chainmonitor.Backtest.Engine.{minute}
use chainmonitor.Backtest.Schemas.{
  BacktestConfig, BacktestMetrics, WalkForwardReport, Gate2CheckResult,
}
use chainmonitor.Backtest.Validator.{and_then, walk_forward_check, result_of, check, too_short}

module _ {A B : Type 0} where
  -- A result of a chain comes from a result of its first step.
  pub and_then-rows :
      (a : Scored A) (f : A → Scored B) (b : B)
      → and_then a f ≡ rows_of b
      → (x : A) × (a ≡ rows_of x) × (f x ≡ rows_of b)
  unfolding and_then
  and_then-rows (rows_of x) f b e = (x, refl, e)
  and_then-rows value_error f b e = absurd (ground (arith, e))
  and_then-rows key_error f b e = absurd (ground (arith, e))

pub rows_of-eq : {A : Type 0} (a b : A) → rows_of a ≡ rows_of b → a ≡ b
rows_of-eq {A} a b e =
    ap (λ (s : Scored A). elim s [ rows_of x ↦ x | value_error ↦ a | key_error ↦ a ]) e

module _ (float : Float) (signed : Signed float) where
  open float use {F, lt, le, lit, of_int}
  open signed use {sub, abs}

  short_fails :
      (short : Bool) (rest : Scored (WalkForwardReport F)) (report : WalkForwardReport F)
      → (if short then rows_of (too_short float signed) else rest) ≡ rows_of report
      → report.passed ≡ true
      → short ≡ false
  short_fails true rest report e passed = absurd (
      ground (
        arith,
        passed,
        ap (λ (r : WalkForwardReport F). r.passed) (rows_of-eq (too_short float signed) report e),
      ))
  short_fails false rest report e passed = refl

  module _ {T : Type 0} (run : BacktestConfig F → Scored (T × BacktestMetrics F)) where
    long_enough :
        (config : BacktestConfig F) (report : WalkForwardReport F)
        → walk_forward_check float signed run config ≡ rows_of report
        → report.passed ≡ true
        → 2 * minute < config.period_end - config.period_start
    unfolding walk_forward_check
    long_enough config report walked passed = ground (
      arith,
      short_fails (leb (config.period_end - config.period_start) (2 * minute)) _ report walked
          passed,
    )

    -- A result of the check comes from the same metrics twice and from a walk-forward report.
    check-parts :
        (config : BacktestConfig F) (result : Gate2CheckResult F)
        → check float signed run config ≡ rows_of result
        → (out : T × BacktestMetrics F) × (report : WalkForwardReport F) × (run config
            ≡ rows_of out)
          × (walk_forward_check float signed run config ≡ rows_of report)
          × (result_of float signed out.1 out.1 report ≡ result)
    unfolding check
    check-parts config result e =
        let (a, ran, e1) = and_then-rows (run config) _ result e in
        let (b, again, e2) = and_then-rows (run config) _ result e1 in
        let (report, walked, e3) =
          and_then-rows (walk_forward_check float signed run config) _ result e2 in
        (
          a,
          report,
          ran,
          walked,
          ap (λ (x : T × BacktestMetrics F). result_of float signed a.1 x.1 report)
                (rows_of-eq a b (sym ran ∙ again))
              ∙ rows_of-eq _ result e3,
        )

    -- Where no difference of a number with itself is above 10^-9, the check of reproducibility
    -- passes whenever the gate gives a result, as the engine gives the same metrics twice.
    pub check-reproducible :
        (config : BacktestConfig F) (result : Gate2CheckResult F)
        → ((x : F) → le (abs (sub x x)) (lit 1 9) ≡ true)
        → check float signed run config ≡ rows_of result
        → result.reproducibility_passed ≡ true
    unfolding result_of
    check-reproducible config result small e =
        let (out, report, ran, walked, same) = check-parts config result e in
        ap (λ (r : Gate2CheckResult F). r.reproducibility_passed) (sym same)
        ∙ small out.1.net_pnl_usd

    result_of-passed :
        (config : BacktestConfig F) (out : T × BacktestMetrics F) (report : WalkForwardReport F)
        → walk_forward_check float signed run config ≡ rows_of report
        → let result = result_of float signed out.1 out.1 report in
          result.passed ≡ true
          → (lt (lit 12 1) result.metrics.pf ≡ true)
            × (lt (of_int 0) result.metrics.expectancy ≡ true)
            × (walk_forward_check float signed run config ≡ rows_of result.walk_forward)
            × (result.walk_forward.passed ≡ true)
            × (2 * minute < config.period_end - config.period_start)
    unfolding result_of
    result_of-passed config out report walked passed = (
      ground (arith, passed),
      ground (arith, passed),
      walked,
      ground (arith, passed),
      long_enough config report walked (ground (arith, passed)),
    )

    -- A result that passes the gate reports the metrics of the engine's run, with a profit factor
    -- above 1.2 and a positive expectancy, and its walk-forward check was made and passed, on a
    -- period longer than two minutes.
    pub check-passed :
        (config : BacktestConfig F) (result : Gate2CheckResult F)
        → check float signed run config ≡ rows_of result
        → result.passed ≡ true
        → (out : T × BacktestMetrics F) × (run config ≡ rows_of out)
          × (result.metrics ≡ out.1)
          × (lt (lit 12 1) result.metrics.pf ≡ true)
          × (lt (of_int 0) result.metrics.expectancy ≡ true)
          × (walk_forward_check float signed run config ≡ rows_of result.walk_forward)
          × (result.walk_forward.passed ≡ true)
          × (2 * minute < config.period_end - config.period_start)
    check-passed config result e passed =
        let (out, report, ran, walked, same) = check-parts config result e in
        let (profit, expected, checked, forward, long) =
          subst
            (λ (r : Gate2CheckResult F).
              r.passed ≡ true
              → (lt (lit 12 1) r.metrics.pf ≡ true)
                × (lt (of_int 0) r.metrics.expectancy ≡ true)
                × (walk_forward_check float signed run config ≡ rows_of r.walk_forward)
                × (r.walk_forward.passed ≡ true)
                × (2 * minute < config.period_end - config.period_start))
            same (result_of-passed config out report walked) passed in
        (
          out,
          ran,
          ap (λ (r : Gate2CheckResult F). r.metrics) (sym same) ∙ (unfold result_of in refl),
          profit,
          expected,
          checked,
          forward,
          long,
        )
