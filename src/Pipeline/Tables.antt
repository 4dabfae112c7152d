-- ===== src/Pipeline/Tables.antt =====
-- src/shared/db/repository.py: `PipelineRepository`, the tables that a run fills.
--
-- A table is a list of rows, each under the key of its `ON CONFLICT` clause; a row's other columns
-- are all in its `DO UPDATE SET`. A batch is a slice of the rows, and batches follow one another.
pub mod Upserts
use chainmonitor.Prelude.{
  ℕ, ◌+◌, ◌-◌, ◌/◌, min, String, ap, Bool, not, ◌&&◌, ◌||◌, Option, none, some, List, [], ◌∷◌, map,
  str_eq, ◌==◌, if◌then◌else◌,
}
use chainmonitor.Float.{Float}
use chainmonitor.Pipeline.Schemas.{MarketTickInput, FeatureRowInput, ScoreRowInput}

-- (chain_id, token_id, ts_minute), with the strategy version for scores and candidates and "" for
-- the other tables.
pub record Key : Type 0 where
  pub strategy_version : String
  pub chain_id : String
  pub token_id : String
  pub ts_minute : ℕ

unfoldable pub same_key : Key → Key → Bool
same_key a b =
    str_eq a.strategy_version b.strategy_version
    && (str_eq a.chain_id b.chain_id
        && (str_eq a.token_id b.token_id && (a.ts_minute == b.ts_minute)))

abbrev pub Table : Type 0 → Type 0
Table R = List (Key × R)

module _ {R : Type 0} where
  -- `INSERT ... ON CONFLICT (...) DO UPDATE SET ...`
  unfoldable pub upsert : Table R → Key → R → Table R
  upsert [] k r = (k, r) ∷ []
  upsert ((j, q) ∷ rows) k r = if same_key j k then (j, r) ∷ rows else (j, q) ∷ upsert rows k r

  unfoldable pub upsert_all : Table R → List (Key × R) → Table R
  upsert_all rows [] = rows
  upsert_all rows ((k, r) ∷ new) = upsert_all (upsert rows k r) new

  -- The row under a key.
  unfoldable pub find : Table R → Key → Option R
  find [] k = none
  find ((j, r) ∷ rows) k = if same_key j k then some r else find rows k

module _ (float : Float) where
  open float use {F, lt}

  pub record OnchainFlow : Type 0 where
    pub netflow_usd_5m : F
    pub netflow_usd_30m : F
    pub large_buy_count_30m : ℕ
    pub new_holder_30m : ℕ
    pub holder_churn_24h : F

  pub record RiskFeature : Type 0 where
    pub contract_risk_score : F
    pub lp_concentration : F
    pub holder_concentration_top10 : F
    pub wash_trade_score : F
    pub honeypot_flag : Bool

  pub record TokenScore : Type 0 where
    pub alpha_score : F
    pub momentum_score : F
    pub smart_money_score : F
    pub narrative_score : F
    pub risk_penalty : F
    pub final_score : F
    pub conviction : F
    pub confidence : F

  pub record Candidate : Type 0 where
    pub tier : String
    pub rank : ℕ
    pub reason_codes : List String

  -- The tables that a run fills.
  pub record Tables : Type 0 where
    pub market_ticks : Table (MarketTickInput F)
    pub onchain_flow_features : Table OnchainFlow
    pub risk_features : Table RiskFeature
    pub token_scores : Table TokenScore
    pub candidate_pool_snapshots : Table Candidate

  abbrev pub tick_row : MarketTickInput F → Key × MarketTickInput F
  tick_row t = (
    record {
      strategy_version = "";
      chain_id = t.chain_id;
      token_id = t.token_id;
      ts_minute = t.ts_minute;
    },
    t,
  )

  unfoldable pub save_market_ticks : List (MarketTickInput F) → Tables → Tables
  save_market_ticks rows db = record db {
    market_ticks = upsert_all db.market_ticks (map tick_row rows);
  }

  abbrev pub feature_key : FeatureRowInput F → Key
  feature_key f = record {
    strategy_version = "";
    chain_id = f.chain_id;
    token_id = f.token_id;
    ts_minute = f.ts_minute;
  }

  abbrev pub onchain_row : FeatureRowInput F → Key × OnchainFlow
  onchain_row f = (
    feature_key f,
    record {
      netflow_usd_5m = f.netflow_usd_5m;
      netflow_usd_30m = f.netflow_usd_30m;
      large_buy_count_30m = f.large_buy_count_30m;
      new_holder_30m = f.new_holder_30m;
      holder_churn_24h = f.holder_churn_24h;
    },
  )

  abbrev pub risk_row : FeatureRowInput F → Key × RiskFeature
  risk_row f = (
    feature_key f,
    record {
      contract_risk_score = f.contract_risk_score;
      lp_concentration = f.lp_concentration;
      holder_concentration_top10 = f.holder_concentration_top10;
      wash_trade_score = f.wash_trade_score;
      honeypot_flag = f.honeypot_flag;
    },
  )

  unfoldable pub save_features : List (FeatureRowInput F) → Tables → Tables
  save_features rows db = record db {
    onchain_flow_features = upsert_all db.onchain_flow_features (map onchain_row rows);
    risk_features = upsert_all db.risk_features (map risk_row rows);
  }

  abbrev pub score_key : ScoreRowInput F → Key
  score_key s = record {
    strategy_version = s.strategy_version;
    chain_id = s.chain_id;
    token_id = s.token_id;
    ts_minute = s.ts_minute;
  }

  abbrev pub score_row : ScoreRowInput F → Key × TokenScore
  score_row s = (
    score_key s,
    record {
      alpha_score = s.alpha_score;
      momentum_score = s.momentum_score;
      smart_money_score = s.smart_money_score;
      narrative_score = s.narrative_score;
      risk_penalty = s.risk_penalty;
      final_score = s.final_score;
      conviction = s.conviction;
      confidence = s.confidence;
    },
  )

  -- `sorted(rows, key=lambda x: x.conviction, reverse=True)`: stable, and rows without NaN.
  unfoldable pub insert_ranked : ScoreRowInput F → List (ScoreRowInput F) → List (ScoreRowInput F)
  insert_ranked s [] = s ∷ []
  insert_ranked s (r ∷ rs) =
      let rest = insert_ranked s rs in if lt s.conviction r.conviction then r ∷ rest else s ∷ r ∷ rs

  unfoldable pub ranking : List (ScoreRowInput F) → List (ScoreRowInput F)
  ranking [] = []
  ranking (s ∷ ss) = insert_ranked s (ranking ss)

  -- `tier in {"A", "B", "C"}`
  abbrev pub is_candidate : String → Bool
  is_candidate tier = str_eq tier "A" || (str_eq tier "B" || str_eq tier "C")

  -- The candidates of a ranking whose first place is `rank`.
  unfoldable pub candidate_rows : ℕ → List (ScoreRowInput F) → List (Key × Candidate)
  candidate_rows rank [] = []
  candidate_rows rank (s ∷ ss) =
      let rest = candidate_rows (rank + 1) ss in
      if is_candidate s.tier
      then (score_key s, record { tier = s.tier; rank = rank; reason_codes = s.reason_codes })
        ∷ rest
      else rest

  unfoldable pub save_scores_and_candidates : List (ScoreRowInput F) → Tables → Tables
  save_scores_and_candidates rows db = record db {
    token_scores = upsert_all db.token_scores (map score_row rows);
    candidate_pool_snapshots =
        upsert_all db.candidate_pool_snapshots (candidate_rows 1 (ranking rows));
  }
