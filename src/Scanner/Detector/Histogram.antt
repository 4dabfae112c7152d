-- ===== src/Scanner/Detector/Histogram.antt =====
-- The histogram of the signalled scores, which `detect` empties after a hundred scanned tokens.
use chainmonitor.Prelude.{
  ℕ, zero, suc, ◌+◌, ◌/◌, ◌≤◌, ◌<◌, min, ◌≡◌, refl, ap, ◌∙◌, ◌⊎◌, inr, Option, none, some, List, [],
  ◌∷◌, arith, length, sum,
}
use chainmonitor.Float.{Float}
use chainmonitor.Dict.{Dict}
use chainmonitor.Scanner.Models.{TrendingToken, Snapshot, TokenRisk, AlphaSignal}
use chainmonitor.Scanner.Detector.{
  AlphaScorer, no_scores, increment, detect_tokens, tally, count_scores, by_address, detect,
}

length-increment : (h : List ℕ) (i : ℕ) → length (increment h i) ≡ length h
unfolding increment
length-increment [] i = refl
length-increment (x ∷ h) zero = refl
length-increment (x ∷ h) (suc i) = ap suc (length-increment h i)

sum-increment : (h : List ℕ) (i : ℕ) → i < length h → sum (increment h i) ≡ sum h + 1
unfolding increment
sum-increment [] i l = elim l [ ]
sum-increment (x ∷ h) zero l = omega arith
sum-increment (x ∷ h) (suc i) l = omega (arith, sum-increment h i (omega arith))

module _ (float : Float) where
  open float use {F}

  -- The histogram has its eleven buckets, and counts at most the tokens scanned, of which there are
  -- less than a hundred since it was last emptied.
  pub record IsValid (s : AlphaScorer F) : Type 0 where
    pub buckets : length s.score_histogram ≡ 11
    pub counted : sum s.score_histogram ≤ s.score_histogram_scanned
    pub recent : s.score_histogram_scanned < 100

  tally_counts :
      (sigs : List (AlphaSignal F)) (h : List ℕ)
      → length h ≡ 11
      → (length (tally float sigs h) ≡ 11) × (sum (tally float sigs h) ≡ sum h + length sigs)
  unfolding tally
  tally_counts [] h e = (e, omega arith)
  tally_counts (sig ∷ sigs) h e =
      let i = min (sig.token.score / 10) 10 in
      let (l, n) = tally_counts sigs (increment h i) (length-increment h i ∙ e) in
      (l, omega (arith, sum-increment h i (omega arith)))

  length-detect_tokens :
      (s : AlphaScorer F) (before : Dict (TrendingToken F)) (risks : Dict (TokenRisk F))
      (curr : Snapshot F) (ts : List (TrendingToken F))
      → length (detect_tokens float s before risks curr ts) ≤ length ts
  unfolding detect_tokens
  length-detect_tokens s before risks curr [] = omega arith
  length-detect_tokens s before risks curr (t ∷ ts) =
      ground (arith, length-detect_tokens s before risks curr ts)

  -- Every call of `detect` keeps the histogram valid: no bucket index is out of range, and no
  -- signal is counted without its token. Where it is not emptied, it has one more entry for each
  -- signal.
  pub detect-IsValid :
      (prev : Option (Snapshot F)) (curr : Snapshot F) (risks : Dict (TokenRisk F))
      (s : AlphaScorer F)
      → IsValid s
      → let (signals, after) = detect float prev curr risks s in
        IsValid after
        × ((after.score_histogram ≡ no_scores)
            ⊎ (sum after.score_histogram ≡ sum s.score_histogram + length signals))
  unfolding detect count_scores
  detect-IsValid none curr risks s v = (v, inr (omega arith))
  detect-IsValid (some prev) curr risks s v =
      let before = by_address float prev.tokens [] in
      ground (
        arith,
        length-detect_tokens s before risks curr curr.tokens,
        tally_counts (detect_tokens float s before risks curr curr.tokens) s.score_histogram
            v.buckets,
      )
