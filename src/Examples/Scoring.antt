-- ===== src/Examples/Scoring.antt =====
-- The scorer, in thousandths, at concrete tokens.
use chainmonitor.Prelude.{ℕ, ◌≡◌, refl, inl, true, false, none, some, [], ◌∷◌, Member}
use chainmonitor.Prelude.Int.{◌+ℤ◌}
use chainmonitor.Float.{thousandths}
use chainmonitor.Dict
use chainmonitor.Dict.{Dict}
use chainmonitor.Scanner.Models.{TrendingToken, Snapshot, TokenRisk, AlphaSignal, high}
use chainmonitor.Scanner.Detector.{
  AlphaScorer, default_scorer, hard_filter, smart_money, boosted, rank_momentum, volume_quality,
  volume_acceleration, structure, timeframe, risk_penalty, breakdown, score, level_of, signal_of,
  by_address, detect,
}
use chainmonitor.Scanner.Detector.Signals.{IsSignal, detect-sound, detect_complete}

-- A liquid token with twelve smart wallets, at rank 3.
abbrev token : TrendingToken ℕ
token = record {
  address = "a";
  symbol = "AAA";
  name = "Token";
  price_usd = 1_000;
  volume_1m = some 200_000_000;
  volume_1h = none;
  market_cap = none;
  liquidity = some 200_000_000;
  smart_degen_count = some 12;
  rank = 3;
  chain = "sol";
  also_in_1h = true;
}

-- A minute before it had six, and was at rank 50.
abbrev before : TrendingToken ℕ
before = record token { smart_degen_count = some 6; rank = 50; volume_1m = some 50_000_000 }

abbrev risk : TokenRisk ℕ
risk = record {
  rug_risk = 100;
  is_honeypot = false;
  bundler_ratio = 100;
  rat_ratio = 100;
  sniper_count = 1;
  top10_holder_pct = 200;
}

abbrev scorer : AlphaScorer ℕ
scorer = default_scorer thousandths

abbrev prev : Snapshot ℕ
prev = record { chain = "sol"; interval = "1m"; tokens = before ∷ []; taken_at = 0 }

abbrev curr : Snapshot ℕ
curr = record { chain = "sol"; interval = "1m"; tokens = token ∷ []; taken_at = 60 }

full_score : (score thousandths token (some before) (some risk)).score ≡ 100
unfolding score breakdown smart_money rank_momentum volume_quality volume_acceleration structure
    timeframe risk_penalty boosted ◌+ℤ◌
full_score = refl

abbrev previous : Dict (TrendingToken ℕ)
previous = by_address thousandths (before ∷ []) []

-- The signal that the token gives.
abbrev signal : AlphaSignal ℕ
signal =
    signal_of thousandths curr
      (score thousandths token (Dict.get previous "a") (Dict.get {V = TokenRisk ℕ} [] "a")) high

signalled : Member signal (detect thousandths (some prev) curr [] scorer).0
signalled =
    detect_complete thousandths prev curr [] scorer token high (inl refl)
      (unfold hard_filter Dict.get in refl)
      (unfold by_address Dict.get Dict.put level_of score breakdown smart_money rank_momentum
          volume_quality volume_acceleration structure timeframe risk_penalty boosted ◌+ℤ◌ in
        refl)

detect_complete_example : Member signal (detect thousandths (some prev) curr [] scorer).0
detect_complete_example =
    detect_complete thousandths prev curr [] scorer token high (inl refl)
      (unfold hard_filter Dict.get in refl)
      (unfold by_address Dict.get Dict.put level_of score breakdown smart_money rank_momentum
          volume_quality volume_acceleration structure timeframe risk_penalty boosted ◌+ℤ◌ in
        refl)

detect-sound_example : IsSignal thousandths scorer previous [] curr (token ∷ []) signal
detect-sound_example = detect-sound thousandths prev curr [] scorer signal signalled
