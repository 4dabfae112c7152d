-- ===== src/Pipeline/Scoring/Candidates.antt =====
-- Which scored tokens become candidates.
use chainmonitor.Prelude.{
  ℕ, suc, ◌+◌, String, ◌≡◌, refl, ap, ◌∙◌, true, Option, List, [], ◌∷◌, arith, if◌then◌else◌,
  Bool-cases, length, All, if_holds,
}
use chainmonitor.Float.{Float}
use chainmonitor.Signed.{Signed}
use chainmonitor.Pipeline.Schemas.{MarketTickInput, FeatureRowInput, ScoreRowInput}
use chainmonitor.Pipeline.Tables.{
  Key, Candidate, score_key, is_candidate, insert_ranked, ranking, candidate_rows,
}
use chainmonitor.Pipeline.Scoring.{TierSettings, rows_of, conviction_of, tier, score_of, score}
use chainmonitor.Pipeline.Scoring.Rows.{score-All}

module _ (float : Float) (signed : Signed float) where
  open float use {F, le}
  open signed use {round}

  -- The tier of a tick's conviction before that is rounded: no threshold of tier C.
  abbrev pub Tiered : TierSettings F → ScoreRowInput F → Type 0
  Tiered settings row =
      (tick : MarketTickInput F) × (feature : FeatureRowInput F) × (row.token_id ≡ tick.token_id)
      × (row.conviction ≡ round (conviction_of float signed tick feature) 6)
      × (row.tier ≡ (
          if le settings.tier_a_threshold (conviction_of float signed tick feature)
          then "A"
          else if le settings.tier_b_threshold (conviction_of float signed tick feature)
          then "B"
          else "C"))

  score_of-Tiered :
      (settings : TierSettings F) (version : String) (tick : MarketTickInput F)
      (feature : FeatureRowInput F)
      → Tiered settings (score_of float signed settings version tick feature)
  unfolding score_of tier
  score_of-Tiered settings version tick feature =
      let x = conviction_of float signed tick feature in
      (tick, feature, refl, refl, ground (arith, Bool-cases (le settings.tier_c_threshold x)))

  Tiered-candidate :
      (settings : TierSettings F) (row : ScoreRowInput F)
      → Tiered settings row
      → is_candidate float row.tier ≡ true
  Tiered-candidate settings row (tick, feature, token, same, given) =
      let x = conviction_of float signed tick feature in
      ap (λ (t : String). is_candidate float t) given
      ∙ if_holds (λ t. is_candidate float t ≡ true) (le settings.tier_a_threshold x) (λ _. refl)
          (λ _.
            if_holds (λ t. is_candidate float t ≡ true) (le settings.tier_b_threshold x) (λ _. refl)
              (λ _. refl))

  -- All rows as candidates, with the places from the given one on.
  unfoldable pub ranked : ℕ → List (ScoreRowInput F) → List (Key × Candidate float)
  ranked rank [] = []
  ranked rank (row ∷ rows) =
      (
        score_key float row,
        record { tier = row.tier; rank = rank; reason_codes = row.reason_codes },
      )
      ∷ ranked (rank + 1) rows

  length-insert_ranked :
      (s : ScoreRowInput F) (rows : List (ScoreRowInput F))
      → length (insert_ranked float s rows) ≡ suc (length rows)
  unfolding insert_ranked
  length-insert_ranked s [] = refl
  length-insert_ranked s (r ∷ rs) = ground (arith, length-insert_ranked s rs)

  All-insert_ranked :
      (P : ScoreRowInput F → Type 0) (s : ScoreRowInput F) (rows : List (ScoreRowInput F))
      → P s
      → All P rows
      → All P (insert_ranked float s rows)
  unfolding insert_ranked
  All-insert_ranked P s [] p all = (p, all)
  All-insert_ranked P s (r ∷ rs) p all =
      if_holds (All P) (float.lt s.conviction r.conviction)
        (λ _. (all.0, All-insert_ranked P s rs p all.1)) (λ _. (p, all))

  All-ranking :
      (P : ScoreRowInput F → Type 0) (rows : List (ScoreRowInput F))
      → All P rows
      → All P (ranking float rows) × (length (ranking float rows) ≡ length rows)
  unfolding ranking
  All-ranking P [] all = (all, refl)
  All-ranking P (s ∷ ss) all =
      let (rest, count) = All-ranking P ss all.1 in
      (
        All-insert_ranked P s (ranking float ss) all.0 rest,
        omega (arith, count, length-insert_ranked s (ranking float ss)),
      )

  length-ranked :
      (rank : ℕ) (rows : List (ScoreRowInput F)) → length (ranked rank rows) ≡ length rows
  unfolding ranked
  length-ranked rank [] = refl
  length-ranked rank (row ∷ rows) = ap suc (length-ranked (rank + 1) rows)

  candidate_rows-ranked :
      (settings : TierSettings F) (rank : ℕ) (rows : List (ScoreRowInput F))
      → All (Tiered settings) rows
      → candidate_rows float rank rows ≡ ranked rank rows
  unfolding candidate_rows ranked
  candidate_rows-ranked settings rank [] all = refl
  candidate_rows-ranked settings rank (row ∷ rows) all = ground (
    arith,
    Tiered-candidate settings row all.0,
    candidate_rows-ranked settings (rank + 1) rows all.1,
  )

  -- Every token that is scored becomes a candidate, with its place in the ranking as its rank, from
  -- 1 on without a gap. With its conviction before rounding, its tier is A where that reaches the
  -- threshold of tier A, else B where it reaches that of tier B, and C in all other cases: the
  -- threshold of tier C makes no difference.
  pub score-candidates :
      (settings : TierSettings F) (own : String) (ticks : List (MarketTickInput F))
      (features : List (FeatureRowInput F)) (given : Option String) (rows : List (ScoreRowInput F))
      → score float signed settings own ticks features given ≡ rows_of rows
      → All (Tiered settings) (ranking float rows)
        × (candidate_rows float 1 (ranking float rows) ≡ ranked 1 (ranking float rows))
        × (length (candidate_rows float 1 (ranking float rows)) ≡ length ticks)
  score-candidates settings own ticks features given rows e =
      let (all, count) =
        score-All float signed (Tiered settings) settings own ticks features given rows
          (score_of-Tiered settings) e in
      let (tiered, same) = All-ranking (Tiered settings) rows all in
      let places = candidate_rows-ranked settings 1 (ranking float rows) tiered in
      (tiered, places, ap length places ∙ (length-ranked 1 (ranking float rows) ∙ (same ∙ count)))
