-- ===== src/Scanner/Detector.antt =====
-- src/scanner/detector.py: `AlphaScorer`, over any floats.
pub mod Scores
pub mod Signals
pub mod Histogram
use chainmonitor.Prelude.{
  ℕ, zero, suc, ◌+◌, ◌-◌, ◌*◌, ◌/◌, ◌<◌, min, max, ap, Bool, true, false, not, ◌&&◌, Option, none,
  some, List, [], ◌∷◌, map, ltb, leb, ◌==◌, if◌then◌else◌, tests, length, set, sum,
}
use chainmonitor.Prelude.Int.{ℤ, pos, negsuc, pos_part, ◌+ℤ◌, min_ℤ, max_ℤ}
use chainmonitor.Float.{Float}
use chainmonitor.Dict
use chainmonitor.Dict.{Dict}
use chainmonitor.Scanner.Models.{
  TrendingToken, Snapshot, TokenRisk, empty, low_liquidity, honeypot, high_rug_risk,
  high_bundler_rat, FilterResult, Breakdown, ScoredToken, Level, high, medium, observe, AlphaSignal,
}

-- The settings of the constructor, and the histogram, which is the state.
pub record AlphaScorer (F : Type 0) : Type 0 where
  pub min_liquidity : F
  pub max_rug_risk : F
  pub max_bundler_rat_ratio : F
  pub score_high : ℕ
  pub score_medium : ℕ
  pub score_low : ℕ
  pub score_histogram : List ℕ
  pub score_histogram_scanned : ℕ

-- `[0] * 11`
abbrev pub no_scores : List ℕ
no_scores = 0 ∷ 0 ∷ 0 ∷ 0 ∷ 0 ∷ 0 ∷ 0 ∷ 0 ∷ 0 ∷ 0 ∷ 0 ∷ []

-- `list[i] += 1`
unfoldable pub increment : List ℕ → ℕ → List ℕ
increment [] i = []
increment (x ∷ xs) zero = (x + 1) ∷ xs
increment (x ∷ xs) (suc i) = x ∷ increment xs i

module _ (float : Float) where
  open float use {F, lt, le, eq, add, mul, div, lit, of_int, trunc}

  -- The constructor's defaults.
  abbrev pub default_scorer : AlphaScorer F
  default_scorer = record {
    min_liquidity = lit 50_000 0;
    max_rug_risk = lit 8 1;
    max_bundler_rat_ratio = lit 7 1;
    score_high = 75;
    score_medium = 65;
    score_low = 55;
    score_histogram = no_scores;
    score_histogram_scanned = 0;
  }

  -- The truth of an optional number: it is there and is not zero.
  abbrev pub truthy : Option F → Bool
  truthy none = false
  truthy (some x) = not (eq x (lit 0 0))

  filter_risk : AlphaScorer F → Option (TokenRisk F) → FilterResult F
  filter_risk s none = record { passed = true; reason = empty }
  filter_risk s (some risk) =
      if risk.is_honeypot
      then record { passed = false; reason = honeypot }
      else if lt s.max_rug_risk risk.rug_risk
      then record { passed = false; reason = high_rug_risk risk.rug_risk }
      else if lt s.max_bundler_rat_ratio (add risk.bundler_ratio risk.rat_ratio)
      then record {
        passed = false;
        reason = high_bundler_rat (add risk.bundler_ratio risk.rat_ratio);
      }
      else record { passed = true; reason = empty }

  -- `token.liquidity is not None and token.liquidity < self._min_liquidity`
  illiquid : AlphaScorer F → Option F → Bool
  illiquid s none = false
  illiquid s (some l) = lt l s.min_liquidity

  liquidity_reason : AlphaScorer F → Option F → FilterResult F
  liquidity_reason s none = record { passed = false; reason = empty }
  liquidity_reason s (some l) = record { passed = false; reason = low_liquidity l s.min_liquidity }

  unfoldable pub hard_filter :
      AlphaScorer F → TrendingToken F → Option (TokenRisk F) → FilterResult F
  unfolding filter_risk illiquid liquidity_reason
  hard_filter s token risk =
      if illiquid s token.liquidity then liquidity_reason s token.liquidity else filter_risk s risk

  -- `delta` is `base_count - prev_count`; where that is negative it is 0 here, which passes the
  -- same tests.
  delta_score : ℕ → ℕ → ℕ
  delta_score delta base_count =
      if leb 5 delta
      then 30
      else if leb 3 delta
      then 25
      else if leb 1 delta
      then 20
      else if leb 10 base_count
      then 15
      else 0

  -- The boost for a rise of more than half of a count that was low.
  unfoldable pub boosted : ℕ → ℕ → ℕ → ℕ
  boosted delta prev_count smart_score =
      if ltb 0 delta && ltb 0 prev_count
      then (let ratio = div (of_int delta) (of_int prev_count) in
          if lt (lit 5 1) ratio
          then min 30 (smart_score + min 5 (trunc (mul ratio (lit 10 0))))
          else smart_score)
      else smart_score

  floored : ℕ → ℕ → ℕ
  floored base_count smart_score =
      if leb 5 base_count && ltb smart_score 10 then 10 else smart_score

  smart_money_change : ℕ → ℕ → ℕ
  unfolding delta_score boosted floored
  smart_money_change base_count prev_count =
      let delta = base_count - prev_count in
      floored base_count (boosted delta prev_count (delta_score delta base_count))

  smart_money_count : ℕ → ℕ
  smart_money_count base_count = if leb 5 base_count then 15 else if leb 3 base_count then 10 else 0

  smart_money_of : Option ℕ → Option ℕ → ℕ
  unfolding smart_money_change smart_money_count
  smart_money_of none prev_count = 0
  smart_money_of (some base_count) none = smart_money_count base_count
  smart_money_of (some base_count) (some prev_count) = smart_money_change base_count prev_count

  -- The count of the previous snapshot, if the token was in it.
  prev_count_of : Option (TrendingToken F) → Option ℕ
  prev_count_of none = none
  prev_count_of (some prev) = prev.smart_degen_count

  unfoldable pub smart_money : TrendingToken F → Option (TrendingToken F) → ℕ
  unfolding smart_money_of prev_count_of
  smart_money token prev = min (smart_money_of token.smart_degen_count (prev_count_of prev)) 30

  -- `prev.rank - token.rank`, 0 where that is negative: no test is then passed.
  change_score : ℕ → ℕ
  change_score change =
      if leb 40 change
      then 25
      else if leb 20 change
      then 20
      else if leb 10 change
      then 15
      else if leb 5 change
      then 10
      else if ltb 0 change
      then 5
      else 0

  unfoldable pub rank_momentum : TrendingToken F → Option (TrendingToken F) → ℕ
  unfolding change_score
  rank_momentum token none = 10
  rank_momentum token (some prev) =
      if not (prev.rank == token.rank) then change_score (prev.rank - token.rank) else 0

  ratio_score : F → ℕ
  ratio_score ratio =
      if le (lit 5 1) ratio && le ratio (lit 50 1)
      then 15
      else if le (lit 1 1) ratio && le ratio (lit 100 1)
      then 10
      else 5

  -- The quotient, where both numbers are there and the second is positive.
  quotient : Option F → Option F → Option F
  quotient (some a) (some b) =
      if truthy (some a) && truthy (some b) && lt (lit 0 0) b then some (div a b) else none
  quotient _ _ = none

  positive : Option F → Bool
  positive none = false
  positive (some v) = truthy (some v) && lt (lit 0 0) v

  volume_floor : Option F → ℕ → ℕ
  volume_floor volume vol_score = if (vol_score == 0) && positive volume then 5 else vol_score

  unfoldable pub volume_quality : TrendingToken F → ℕ
  unfolding ratio_score quotient positive volume_floor
  volume_quality token =
      volume_floor token.volume_1m (elim (quotient token.volume_1m token.liquidity) [
        | none ↦ 0
        | some ratio ↦ ratio_score ratio
      ])

  accel_score : F → ℕ
  accel_score accel =
      if lt (lit 3 0) accel
      then 15
      else if lt (lit 2 0) accel
      then 10
      else if lt (lit 15 1) accel
      then 5
      else 0

  unfoldable pub volume_acceleration : TrendingToken F → Option (TrendingToken F) → ℕ
  unfolding quotient accel_score
  volume_acceleration token none = 0
  volume_acceleration token (some prev) = elim (quotient token.volume_1m prev.volume_1m) [
    | none ↦ 0
    | some accel ↦ accel_score accel
  ]

  unfoldable pub structure : Option (TokenRisk F) → ℕ
  structure none = 10
  structure (some risk) =
      min
        (10
          + (if lt risk.bundler_ratio (lit 2 1) then 3 else 0)
          + (if lt risk.rat_ratio (lit 2 1) then 2 else 0)
          + (if lt risk.top10_holder_pct (lit 5 1) then 3 else 0)
          + (if ltb risk.sniper_count 5 then 2 else 0))
        15

  unfoldable pub timeframe : TrendingToken F → ℕ
  timeframe token = if token.also_in_1h then 10 else 0

  risk_discount : Option (TokenRisk F) → ℤ
  risk_discount none = pos 0
  risk_discount (some risk) =
      if risk.is_honeypot
      then negsuc 9
      else if lt (lit 7 1) risk.rug_risk
      then negsuc 9
      else if lt (lit 5 1) risk.rug_risk
      then negsuc 4
      else pos 0

  -- `token.volume_1m or 0`
  volume_or_zero : Option F → F
  volume_or_zero none = lit 0 0
  volume_or_zero (some v) = if truthy (some v) then v else lit 0 0

  -- A large volume that no smart money takes part in.
  abnormal_volume : TrendingToken F → Bool
  unfolding volume_or_zero
  abnormal_volume token = elim token.smart_degen_count [
    | none ↦ false
    | some n ↦ (n == 0) && lt (lit 100_000 0) (volume_or_zero token.volume_1m)
  ]

  unfoldable pub risk_penalty : TrendingToken F → Option (TokenRisk F) → ℤ
  unfolding risk_discount abnormal_volume
  risk_penalty token risk =
      if abnormal_volume token then min_ℤ (risk_discount risk) (negsuc 9) else risk_discount risk

  unfoldable pub breakdown :
      TrendingToken F → Option (TrendingToken F) → Option (TokenRisk F) → Breakdown
  breakdown token prev risk = record {
    smart_money = smart_money token prev;
    rank_momentum = rank_momentum token prev;
    volume_quality = volume_quality token;
    volume_acceleration = volume_acceleration token prev;
    structure = structure risk;
    timeframe = timeframe token;
    risk_penalty = risk_penalty token risk;
  }

  -- `sum(breakdown.values())`
  abbrev pub total : Breakdown → ℤ
  total b =
      pos (
        b.smart_money + b.rank_momentum + b.volume_quality + b.volume_acceleration + b.structure
        + b.timeframe)
      +ℤ b.risk_penalty

  unfoldable pub score :
      TrendingToken F → Option (TrendingToken F) → Option (TokenRisk F) → ScoredToken F
  score token prev risk =
      let b = breakdown token prev risk in
      record {
        token = token;
        score = pos_part (max_ℤ (pos 0) (min_ℤ (pos 100) (total b)));
        breakdown = b;
        risk = risk;
      }

  unfoldable pub level_of : AlphaScorer F → ℕ → Option Level
  level_of s n =
      if leb s.score_high n
      then some high
      else if leb s.score_medium n
      then some medium
      else if leb s.score_low n
      then some observe
      else none

  unfoldable pub signal_of : Snapshot F → ScoredToken F → Level → AlphaSignal F
  signal_of curr scored level = record {
    token = scored;
    level = level;
    chain = curr.chain;
    interval = curr.interval;
    detected_at = curr.taken_at;
  }

  -- `{t.address: t for t in tokens}`: the last token of an address stays.
  unfoldable pub by_address :
      List (TrendingToken F) → Dict (TrendingToken F) → Dict (TrendingToken F)
  by_address [] d = d
  by_address (t ∷ ts) d = by_address ts (Dict.put d t.address t)

  -- The body of the loop over the current tokens: the signal of one token, if it gives one.
  unfoldable pub detect_token :
      AlphaScorer F
      → Dict (TrendingToken F)
      → Dict (TokenRisk F)
      → Snapshot F
      → TrendingToken F
      → Option (AlphaSignal F)
  unfolding signal_of
  detect_token s prev_map risks curr token =
      let risk = Dict.get risks token.address in
      if not (hard_filter s token risk).passed
      then none
      else let scored = score token (Dict.get prev_map token.address) risk in
        elim (level_of s scored.score) [
          | none ↦ none
          | some level ↦ some (signal_of curr scored level)
        ]

  unfoldable pub detect_tokens :
      AlphaScorer F
      → Dict (TrendingToken F)
      → Dict (TokenRisk F)
      → Snapshot F
      → List (TrendingToken F)
      → List (AlphaSignal F)
  detect_tokens s prev_map risks curr [] = []
  detect_tokens s prev_map risks curr (t ∷ ts) =
      let rest = detect_tokens s prev_map risks curr ts in
      elim (detect_token s prev_map risks curr t) [ none ↦ rest | some sig ↦ sig ∷ rest ]

  -- The histogram's buckets are 0, 10, ..., 100.
  unfoldable pub tally : List (AlphaSignal F) → List ℕ → List ℕ
  tally [] histogram = histogram
  tally (sig ∷ sigs) histogram = tally sigs (increment histogram (min (sig.token.score / 10) 10))

  unfoldable pub count_scores : ℕ → List (AlphaSignal F) → AlphaScorer F → AlphaScorer F
  count_scores tokens signals s =
      let scanned = s.score_histogram_scanned + tokens in
      if leb 100 scanned
      then record s { score_histogram = no_scores; score_histogram_scanned = 0 }
      else record s {
        score_histogram = tally signals s.score_histogram;
        score_histogram_scanned = scanned;
      }

  unfoldable pub detect :
      Option (Snapshot F)
      → Snapshot F
      → Dict (TokenRisk F)
      → AlphaScorer F
      → List (AlphaSignal F) × AlphaScorer F
  detect none curr risks s = ([], s)
  detect (some prev) curr risks s =
      let signals = detect_tokens s (by_address prev.tokens []) risks curr curr.tokens in
      (signals, count_scores (length curr.tokens) signals s)
