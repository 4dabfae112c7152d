-- ===== src/Scanner/Detector/Scores.antt =====
-- The bounds of the scores, over any floats.
use chainmonitor.Prelude.{
  ℕ, ◌+◌, ◌-◌, ◌≤◌, ◌<◌, min, ◌≡◌, refl, ◌↔◌, ◌⊎◌, true, false, Option, none, some, arith,
}
use chainmonitor.Prelude.Int.{pos, negsuc, pos_part, neg_part, min_ℤ, max_ℤ, ◌+ℤ◌}
use chainmonitor.Float.{Float, IsRounding}
use chainmonitor.Scanner.Models.{TrendingToken, TokenRisk, Breakdown}
use chainmonitor.Scanner.Detector.{
  AlphaScorer, hard_filter, boosted, smart_money, rank_momentum, volume_quality,
  volume_acceleration, structure, timeframe, risk_penalty, breakdown, total, score,
}

-- The highest values that the comments of `score` give, and the lowest of the structure.
pub record IsBounded (b : Breakdown) : Type 0 where
  pub smart_money_max : b.smart_money ≤ 30
  pub rank_momentum_max : b.rank_momentum ≤ 25
  pub volume_quality_max : b.volume_quality ≤ 15
  pub volume_acceleration_max : b.volume_acceleration ≤ 15
  pub structure_min : 10 ≤ b.structure
  pub structure_max : b.structure ≤ 15
  pub timeframe_max : b.timeframe ≤ 10
  pub penalty_values :
      (b.risk_penalty ≡ pos 0) ⊎ (b.risk_penalty ≡ negsuc 4) ⊎ (b.risk_penalty ≡ negsuc 9)

-- The sum of the entries that are not negative.
abbrev pub gains : Breakdown → ℕ
gains b =
    b.smart_money + b.rank_momentum + b.volume_quality + b.volume_acceleration + b.structure
    + b.timeframe

module _ (float : Float) where
  open float use {F, lt, div, of_int, lit}

  smart_money-le : (t : TrendingToken F) (p : Option (TrendingToken F)) → smart_money float t p ≤ 30
  unfolding smart_money
  smart_money-le t p = omega arith

  rank_momentum-le :
      (t : TrendingToken F) (p : Option (TrendingToken F)) → rank_momentum float t p ≤ 25
  unfolding rank_momentum
  rank_momentum-le t none = omega arith
  rank_momentum-le t (some p) = ground arith

  volume_quality-le : (t : TrendingToken F) → volume_quality float t ≤ 15
  unfolding volume_quality
  volume_quality-le t = ground arith

  volume_acceleration-le :
      (t : TrendingToken F) (p : Option (TrendingToken F)) → volume_acceleration float t p ≤ 15
  unfolding volume_acceleration
  volume_acceleration-le t none = omega arith
  volume_acceleration-le t (some p) = ground arith

  structure_bounds :
      (r : Option (TokenRisk F)) → (10 ≤ structure float r) × (structure float r ≤ 15)
  unfolding structure
  structure_bounds none = omega arith
  structure_bounds (some r) = ground arith

  timeframe-le : (t : TrendingToken F) → timeframe float t ≤ 10
  unfolding timeframe
  timeframe-le t = ground arith

  penalty_cases :
      (t : TrendingToken F) (r : Option (TokenRisk F))
      → (risk_penalty float t r ≡ pos 0)
        ⊎ (risk_penalty float t r ≡ negsuc 4)
        ⊎ (risk_penalty float t r ≡ negsuc 9)
  unfolding risk_penalty
  penalty_cases t none = ground arith
  penalty_cases t (some r) = ground arith

  -- Every entry of a breakdown stays within the bounds that the code's comments give it, and the
  -- penalty is 0, -5 or -10.
  pub breakdown-IsBounded :
      (t : TrendingToken F) (p : Option (TrendingToken F)) (r : Option (TokenRisk F))
      → IsBounded (breakdown float t p r)
  unfolding breakdown
  breakdown-IsBounded t p r = record {
    smart_money_max = smart_money-le t p;
    rank_momentum_max = rank_momentum-le t p;
    volume_quality_max = volume_quality-le t;
    volume_acceleration_max = volume_acceleration-le t p;
    structure_min = (structure_bounds r).0;
    structure_max = (structure_bounds r).1;
    timeframe_max = timeframe-le t;
    penalty_values = penalty_cases t r;
  }

  -- A score is what the gains leave after the penalty, up to 100: since the structure counts for
  -- at least 10, the penalty is never larger than the gains, and the lower bound of 0 has no effect.
  pub score_exact :
      (t : TrendingToken F) (p : Option (TrendingToken F)) (r : Option (TokenRisk F))
      → let b = breakdown float t p r in
        (neg_part b.risk_penalty ≤ gains b)
        × ((score float t p r).score ≡ min 100 (gains b - neg_part b.risk_penalty))
        × ((score float t p r).breakdown ≡ b)
  unfolding score ◌+ℤ◌
  score_exact t p r =
      let v = breakdown-IsBounded t p r in
      (clamped (breakdown float t p r) v, exact (breakdown float t p r) v, refl)
    where
      clamped : (b : Breakdown) → IsBounded b → neg_part b.risk_penalty ≤ gains b
      clamped b v = ground arith

      exact :
          (b : Breakdown)
          → IsBounded b
          → pos_part (max_ℤ (pos 0) (min_ℤ (pos 100) (total float b)))
            ≡ min 100 (gains b - neg_part b.risk_penalty)
      exact b v = ground arith

  -- The boost of the smart money score is called proportional, and is always 5: it is given only
  -- for a rise of more than half, and `int(ratio * 10)` is then at least 5.
  pub boost_constant :
      IsRounding float
      → (delta prev_count smart_score : ℕ) → 0 < delta
      → 0 < prev_count
      → lt (lit 5 1) (div (of_int delta) (of_int prev_count)) ≡ true
      → boosted float delta prev_count smart_score ≡ min 30 (smart_score + 5)
  unfolding boosted
  boost_constant laws delta prev_count smart_score d c h =
      let ratio = div (of_int delta) (of_int prev_count) in
      let five : float.le (lit 5 0) (float.mul ratio (lit 10 0)) ≡ true =
        rw (← laws.half_ten) (laws.mul_ten_mono (lit 5 1) ratio (laws.lt_le _ _ h)) in
      ground (arith, laws.trunc_mono (lit 5 0) (float.mul ratio (lit 10 0)) five, laws.trunc_whole)

  -- A rise in the ranking never scores less than a smaller one, between any two previous ranks.
  pub rank_momentum_mono :
      (t p q : TrendingToken F)
      → p.rank ≤ q.rank
      → rank_momentum float t (some p) ≤ rank_momentum float t (some q)
  unfolding rank_momentum
  rank_momentum_mono t p q h = ground arith

  -- A token passes the filter exactly when its liquidity is not known to be too low and, where its
  -- risk is known, it is no honeypot and both of its ratios are within their limits.
  pub hard_filter_iff :
      (s : AlphaScorer F) (t : TrendingToken F) (r : TokenRisk F) (l : F)
      → t.liquidity ≡ some l
      → ((hard_filter float s t (some r)).passed ≡ true) ↔ (
          (lt l s.min_liquidity ≡ false)
          × (r.is_honeypot ≡ false)
          × (lt s.max_rug_risk r.rug_risk ≡ false)
          × (lt s.max_bundler_rat_ratio (float.add r.bundler_ratio r.rat_ratio) ≡ false))
  unfolding hard_filter
  hard_filter_iff s t r l e = ground arith
