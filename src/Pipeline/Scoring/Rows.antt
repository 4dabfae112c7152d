-- ===== src/Pipeline/Scoring/Rows.antt =====
-- What every scored row says.
use chainmonitor.Prelude.{
  ℕ, suc, String, ◌≡◌, refl, sym, ap, true, false, Option, some, List, [], ◌∷◌, map, arith, str_eq,
  eq_iff, length, All, if_holds, option_holds,
}
use mathlib.Core.Path.{subst}
use chainmonitor.Float.{Float}
use chainmonitor.Signed.{Signed, IsOrdered, IsBetween, clamp-IsBetween, round_min-le}
use chainmonitor.Dict
use chainmonitor.Dict.{Dict, get-put}
use chainmonitor.Pipeline.Schemas.{MarketTickInput, FeatureRowInput, ScoreRowInput}
use chainmonitor.Pipeline.Features.{feature_of, build_features}
use chainmonitor.Pipeline.Scoring.{
  alpha_of, momentum_of, smart_money_of, narrative_of, TierSettings, Scored, rows_of, value_error,
  key_error, conviction_of, confidence_of, score_of, by_token, score_rows, resolved, score,
}

module _ (float : Float) (signed : Signed float) where
  open float use {F, le, lit}

  -- Rows of which each has the property, as many as n, or an error.
  Holds : (ScoreRowInput F → Type 0) → ℕ → Scored (List (ScoreRowInput F)) → Type 0
  Holds P n (rows_of rows) = All P rows × (length rows ≡ n)
  Holds P n value_error = Unit
  Holds P n key_error = Unit

  cons-Holds :
      (P : ScoreRowInput F → Type 0) (n : ℕ) (row : ScoreRowInput F)
      (rest : Scored (List (ScoreRowInput F)))
      → P row
      → Holds P n rest
      → Holds P (suc n) (elim rest [
        | rows_of rows ↦ rows_of (row ∷ rows)
        | value_error ↦ value_error
        | key_error ↦ key_error
      ])
  unfolding Holds
  cons-Holds P n row (rows_of rows) p (all, count) = ((p, all), ap suc count)
  cons-Holds P n row value_error p h = h
  cons-Holds P n row key_error p h = h

  score_rows-Holds :
      (P : ScoreRowInput F → Type 0) (settings : TierSettings F) (version : String)
      (features : Dict (FeatureRowInput F)) (ticks : List (MarketTickInput F))
      → ((tick : MarketTickInput F) (feature : FeatureRowInput F)
          → P (score_of float signed settings version tick feature))
      → Holds P (length ticks) (score_rows float signed settings version features ticks)
  unfolding score_rows
  score_rows-Holds P settings version features [] each = unfold Holds in (tt, refl)
  score_rows-Holds P settings version features (tick ∷ ticks) each =
      option_holds (Holds P (length (tick ∷ ticks))) (Dict.get features tick.token_id)
        (λ _. unfold Holds in tt)
        (λ feature _.
          cons-Holds P (length ticks) (score_of float signed settings version tick feature)
            (score_rows float signed settings version features ticks) (each tick feature)
            (score_rows-Holds P settings version features ticks each))

  pub score-All :
      (P : ScoreRowInput F → Type 0) (settings : TierSettings F) (own : String)
      (ticks : List (MarketTickInput F)) (features : List (FeatureRowInput F))
      (given : Option String) (rows : List (ScoreRowInput F))
      → ((version : String) (tick : MarketTickInput F) (feature : FeatureRowInput F)
          → P (score_of float signed settings version tick feature))
      → score float signed settings own ticks features given ≡ rows_of rows
      → All P rows × (length rows ≡ length ticks)
  unfolding score Holds
  score-All P settings own ticks features given rows each e = subst (Holds P (length ticks)) e (
      if_holds (Holds P (length ticks)) (str_eq (resolved given own) "") (λ _. tt)
        (λ _.
          score_rows-Holds P settings (resolved given own) (by_token float signed features []) ticks
            (each (resolved given own))))

  abbrev pub IsScaled : ScoreRowInput F → Type 0
  IsScaled row =
      IsBetween float signed (lit 0 1) (lit 1000 1) row.conviction
      × IsBetween float signed (lit 50 2) (lit 98 2) row.confidence
      × (le row.alpha_score (lit 1000 1) ≡ true)
      × (le row.momentum_score (lit 1000 1) ≡ true)
      × (le row.smart_money_score (lit 1000 1) ≡ true)
      × (le row.narrative_score (lit 1000 1) ≡ true)

  score_of-IsScaled :
      IsOrdered float signed
      → (settings : TierSettings F) (version : String) (tick : MarketTickInput F)
        (feature : FeatureRowInput F)
      → IsScaled (score_of float signed settings version tick feature)
  unfolding score_of conviction_of confidence_of alpha_of momentum_of smart_money_of narrative_of
  score_of-IsScaled o settings version tick feature = (
    clamp-IsBetween float signed o 0 1000 1 6 _ (omega arith) (omega arith),
    clamp-IsBetween float signed o 50 98 2 6 _ (omega arith) (omega arith),
    round_min-le float signed o 1000 1 6 _ (omega arith),
    round_min-le float signed o 1000 1 6 _ (omega arith),
    round_min-le float signed o 1000 1 6 _ (omega arith),
    round_min-le float signed o 1000 1 6 _ (omega arith),
  )

  -- Whatever the ticks, the features and the thresholds are, NaN included: when scoring returns,
  -- each row's conviction is from 0 to 100, its confidence from 0.5 to 0.98, and its partial scores
  -- are at most 100.
  pub score-IsScaled :
      IsOrdered float signed
      → (settings : TierSettings F) (own : String) (ticks : List (MarketTickInput F))
        (features : List (FeatureRowInput F)) (given : Option String)
        (rows : List (ScoreRowInput F))
      → score float signed settings own ticks features given ≡ rows_of rows
      → All IsScaled rows
  score-IsScaled o settings own ticks features given rows e =
      (score-All IsScaled settings own ticks features given rows (score_of-IsScaled o settings) e).0

  HasFeature : Dict (FeatureRowInput F) → String → Type 0
  HasFeature d token = (f : FeatureRowInput F) × (Dict.get d token ≡ some f)

  by_token-HasFeature :
      (fs : List (FeatureRowInput F)) (d : Dict (FeatureRowInput F)) (token : String)
      → HasFeature d token
      → HasFeature (by_token float signed fs d) token
  unfolding by_token HasFeature
  by_token-HasFeature [] d token h = h
  by_token-HasFeature (f ∷ fs) d token (g, h) =
      by_token-HasFeature fs (Dict.put d f.token_id f) token (
        subst (λ (o : Option (FeatureRowInput F)). (x : FeatureRowInput F) × (o ≡ some x))
          (sym (get-put d f.token_id token f))
          (if_holds (λ (o : Option (FeatureRowInput F)). (x : FeatureRowInput F) × (o ≡ some x))
            (str_eq f.token_id token) (λ _. (f, refl)) (λ _. (g, h))))

  put-HasFeature :
      (d : Dict (FeatureRowInput F)) (f : FeatureRowInput F)
      → HasFeature (Dict.put d f.token_id f) f.token_id
  unfolding HasFeature
  put-HasFeature d f =
      (f, ground (arith, get-put d f.token_id f.token_id f, eq_iff f.token_id f.token_id))

  build-HasFeature :
      (ticks : List (MarketTickInput F)) (d : Dict (FeatureRowInput F))
      → All
          (λ tick.
            HasFeature (by_token float signed (build_features float signed ticks) d) tick.token_id)
          ticks
  unfolding build_features by_token
  build-HasFeature [] d = tt
  build-HasFeature (tick ∷ ticks) d = (
    by_token-HasFeature (build_features float signed ticks)
        (Dict.put d tick.token_id (feature_of float signed tick)) tick.token_id
        (unfold feature_of in put-HasFeature d (feature_of float signed tick)),
    build-HasFeature ticks (Dict.put d tick.token_id (feature_of float signed tick)),
  )

  score_rows-found :
      (settings : TierSettings F) (version : String) (d : Dict (FeatureRowInput F))
      (ticks : List (MarketTickInput F))
      → All (λ tick. HasFeature d tick.token_id) ticks
      → (rows : List (ScoreRowInput F)) × (score_rows float signed settings version d ticks
          ≡ rows_of rows)
        × (map (λ row. row.token_id) rows ≡ map (λ tick. tick.token_id) ticks)
  unfolding score_rows HasFeature
  score_rows-found settings version d [] all = ([], refl, refl)
  score_rows-found settings version d (tick ∷ ticks) all =
      let (f, found) = all.0 in
      let (rows, done, same) = score_rows-found settings version d ticks all.1 in
      (
        score_of float signed settings version tick f ∷ rows,
        ground (arith, found, done),
        unfold score_of in ap (λ ids. tick.token_id ∷ ids) same,
      )

  -- On the features that the engine builds from the same ticks, scoring under a strategy version
  -- that is not empty never fails, and gives one row for each tick, in the order of the ticks.
  pub score-build_features :
      (settings : TierSettings F) (own : String) (ticks : List (MarketTickInput F))
      (given : Option String)
      → str_eq (resolved given own) "" ≡ false
      → (rows : List (ScoreRowInput F)) × (score float signed settings own ticks
            (build_features float signed ticks)
            given
          ≡ rows_of rows)
        × (map (λ row. row.token_id) rows ≡ map (λ tick. tick.token_id) ticks)
  unfolding score
  score-build_features settings own ticks given named =
      let (rows, done, same) =
        score_rows-found settings (resolved given own) _ ticks (build-HasFeature ticks []) in
      (rows, rw (named) done, same)
