-- ===== src/Backtest/Engine/Unread.antt =====
-- The holding time is not read.
use chainmonitor.Prelude.{ℕ, String, ◌≡◌, refl, ap, ◌∙◌, inl, inr, List, [], ◌∷◌, ltb, Bool-cases}
use chainmonitor.Float.{Float}
use chainmonitor.Signed.{Signed}
use chainmonitor.Pipeline.Schemas.{ScoreRowInput}
use chainmonitor.Pipeline.Scoring.{Scored, rows_of, value_error, key_error}
use chainmonitor.Backtest.Schemas.{BacktestConfig}
use chainmonitor.Backtest.Engine.{
  BacktestEngine, Trades, trade_of, trade_rows, run_minutes, with_metrics, run,
}
use chainmonitor.Backtest.Costs.{estimate}

module _ (float : Float) (signed : Signed float) (digest : String → ℕ)
    (isoformat : ℕ → String) where
  open float use {F}

  trade_rows-hold_minutes :
      (h : ℕ) (chain_id : String) (config : BacktestConfig F) (rows : List (ScoreRowInput F))
      (t : Trades F)
      → trade_rows float signed digest isoformat chain_id
          (record config { hold_minutes = h })
          rows
          t
        ≡ trade_rows float signed digest isoformat chain_id config rows t
  unfolding trade_rows trade_of estimate
  trade_rows-hold_minutes h chain_id config [] t = refl
  trade_rows-hold_minutes h chain_id config (row ∷ rows) t =
      trade_rows-hold_minutes h chain_id config rows _

  module _ (lower : String → String) (engine : BacktestEngine F) where
    minute-hold_minutes :
        (h : ℕ) (config : BacktestConfig F) (minutes : List ℕ) (t : Trades F)
        (scores : Scored (List (ScoreRowInput F)))
        → ((t' : Trades F)
            → run_minutes float signed digest isoformat lower engine
                (record config { hold_minutes = h })
                minutes
                t'
              ≡ run_minutes float signed digest isoformat lower engine config minutes t')
        → ◌≡◌ {A = Scored (Trades F)}
            (elim scores [
              | rows_of rows ↦
                  run_minutes float signed digest isoformat lower engine
                    (record config { hold_minutes = h })
                    minutes
                    (trade_rows float signed digest isoformat engine.chain_id
                      (record config { hold_minutes = h })
                      rows
                      t)
              | value_error ↦ value_error
              | key_error ↦ key_error
            ])
            (elim scores [
              | rows_of rows ↦
                  run_minutes float signed digest isoformat lower engine config minutes
                    (trade_rows float signed digest isoformat engine.chain_id config rows t)
              | value_error ↦ value_error
              | key_error ↦ key_error
            ])
    minute-hold_minutes h config minutes t (rows_of rows) later =
        rw (trade_rows-hold_minutes h engine.chain_id config rows t) (later _)
    minute-hold_minutes h config minutes t value_error later = refl
    minute-hold_minutes h config minutes t key_error later = refl

    run_minutes-hold_minutes :
        (h : ℕ) (config : BacktestConfig F) (minutes : List ℕ) (t : Trades F)
        → run_minutes float signed digest isoformat lower engine
            (record config { hold_minutes = h })
            minutes
            t
          ≡ run_minutes float signed digest isoformat lower engine config minutes t
    unfolding run_minutes
    run_minutes-hold_minutes h config [] t = refl
    run_minutes-hold_minutes h config (ts ∷ minutes) t =
        minute-hold_minutes h config minutes t _ (run_minutes-hold_minutes h config minutes)

    with_metrics-hold_minutes :
        (h : ℕ) (config : BacktestConfig F) (s : Scored (Trades F))
        → with_metrics float signed digest isoformat (record config { hold_minutes = h }) s
          ≡ with_metrics float signed digest isoformat config s
    unfolding with_metrics
    with_metrics-hold_minutes h config (rows_of t) = refl
    with_metrics-hold_minutes h config value_error = refl
    with_metrics-hold_minutes h config key_error = refl

    -- A run has the same trades and metrics, or the same error, whatever the configured holding time
    -- is.
    pub run-hold_minutes :
        (h : ℕ) (config : BacktestConfig F)
        → run float signed digest isoformat lower engine (record config { hold_minutes = h })
          ≡ run float signed digest isoformat lower engine config
    unfolding run
    run-hold_minutes h config = elim (Bool-cases (ltb config.period_end config.period_start)) [
      | inl bad ↦ rw (bad) refl
      | inr ok ↦ rw (ok) (
          ap (with_metrics float signed digest isoformat (record config { hold_minutes = h }))
            (run_minutes-hold_minutes h config _ _)
          ∙ with_metrics-hold_minutes h config _)
    ]
