-- ===== src/Scanner/Detector/Signals.antt =====
-- Which tokens `detect` signals.
use chainmonitor.Prelude.{
  ◌≡◌, refl, sym, ap, ◌∙◌, inl, inr, true, Option, none, some, List, [], ◌∷◌, arith, Member,
}
use chainmonitor.Float.{Float}
use chainmonitor.Dict
use chainmonitor.Dict.{Dict, get-put}
use chainmonitor.Scanner.Models.{
  TrendingToken, Snapshot, TokenRisk, ScoredToken, Level, AlphaSignal,
}
use chainmonitor.Scanner.Detector.{
  AlphaScorer, hard_filter, score, level_of, signal_of, by_address, detect_token, detect_tokens,
  detect,
}

module _ (float : Float) where
  open float use {F}

  -- The signal comes from a token of the list that passes the filter and whose score, against the
  -- previous token of its address, reaches the signal's level.
  pub record IsSignal (s : AlphaScorer F) (prev_map : Dict (TrendingToken F))
      (risks : Dict (TokenRisk F)) (curr : Snapshot F) (tokens : List (TrendingToken F))
      (sig : AlphaSignal F) : Type 0 where
    pub token : TrendingToken F
    pub among : Member token tokens
    pub passes : (hard_filter float s token (Dict.get risks token.address)).passed ≡ true
    pub scored :
        sig.token
        ≡ score float token (Dict.get prev_map token.address) (Dict.get risks token.address)
    pub levelled : level_of float s sig.token.score ≡ some sig.level
    pub stamped : sig.detected_at ≡ curr.taken_at

  module _ (s : AlphaScorer F) (prev_map : Dict (TrendingToken F)) (risks : Dict (TokenRisk F))
      (curr : Snapshot F) where
    detect_token-IsSignal :
        (t : TrendingToken F) (sig : AlphaSignal F)
        → detect_token float s prev_map risks curr t ≡ some sig
        → (hard_filter float s t (Dict.get risks t.address)).passed ≡ true
          × (sig.token ≡ score float t (Dict.get prev_map t.address) (Dict.get risks t.address))
          × (level_of float s sig.token.score ≡ some sig.level)
          × (sig.detected_at ≡ curr.taken_at)
    unfolding detect_token
    detect_token-IsSignal t sig h = ground arith

    later :
        (t : TrendingToken F) (ts : List (TrendingToken F)) (sig : AlphaSignal F)
        → IsSignal s prev_map risks curr ts sig
        → IsSignal s prev_map risks curr (t ∷ ts) sig
    later t ts sig h = record {
      token = h.token;
      among = inr h.among;
      passes = h.passes;
      scored = h.scored;
      levelled = h.levelled;
      stamped = h.stamped;
    }

    here :
        (t : TrendingToken F) (ts : List (TrendingToken F)) (sig : AlphaSignal F)
        → detect_token float s prev_map risks curr t ≡ some sig
        → IsSignal s prev_map risks curr (t ∷ ts) sig
    here t ts sig h =
        let (passes, scored, levelled, stamped) = detect_token-IsSignal t sig h in
        record {
          token = t;
          among = inl refl;
          passes = passes;
          scored = scored;
          levelled = levelled;
          stamped = stamped;
        }

    detect_tokens-cons :
        (t : TrendingToken F) (ts : List (TrendingToken F)) (found : Option (AlphaSignal F))
        → detect_token float s prev_map risks curr t ≡ found
        → detect_tokens float s prev_map risks curr (t ∷ ts) ≡ elim found [
          | none ↦ detect_tokens float s prev_map risks curr ts
          | some sig ↦ sig ∷ detect_tokens float s prev_map risks curr ts
        ]
    unfolding detect_tokens
    detect_tokens-cons t ts found h = ground arith

    detect_tokens-IsSignal :
        (ts : List (TrendingToken F)) (sig : AlphaSignal F)
        → Member sig (detect_tokens float s prev_map risks curr ts)
        → IsSignal s prev_map risks curr ts sig
    detect_tokens-IsSignal [] sig m = absurd (unfold detect_tokens in m)
    detect_tokens-IsSignal (t ∷ ts) sig m =
        split (detect_token float s prev_map risks curr t) refl (detect_tokens-IsSignal ts sig)
      where
        split :
            (found : Option (AlphaSignal F))
            → detect_token float s prev_map risks curr t ≡ found
            → (Member sig (detect_tokens float s prev_map risks curr ts)
                → IsSignal s prev_map risks curr ts sig)
            → IsSignal s prev_map risks curr (t ∷ ts) sig
        split none e ih = later t ts sig (ih (rw (detect_tokens-cons t ts none e) at m))
        split (some x) e ih = elim (rw (detect_tokens-cons t ts (some x) e) at m) [
          | inl same ↦ here t ts sig (e ∙ ap some (sym same))
          | inr rest ↦ later t ts sig (ih rest)
        ]

    abbrev scored_at : TrendingToken F → ScoredToken F
    scored_at t = score float t (Dict.get prev_map t.address) (Dict.get risks t.address)

    detect_token_complete :
        (t : TrendingToken F) (level : Level)
        → (hard_filter float s t (Dict.get risks t.address)).passed ≡ true
        → level_of float s (scored_at t).score ≡ some level
        → detect_token float s prev_map risks curr t
          ≡ some (signal_of float curr (scored_at t) level)
    unfolding detect_token
    detect_token_complete t level passes levelled = ground arith

    Member-rest :
        (x : TrendingToken F) (ts : List (TrendingToken F)) (sig : AlphaSignal F)
        (found : Option (AlphaSignal F))
        → detect_token float s prev_map risks curr x ≡ found
        → Member sig (detect_tokens float s prev_map risks curr ts)
        → Member sig (detect_tokens float s prev_map risks curr (x ∷ ts))
    Member-rest x ts sig none e m = rw (detect_tokens-cons x ts none e) m
    Member-rest x ts sig (some y) e m = rw (detect_tokens-cons x ts (some y) e) (inr m)

    -- A token that passes the filter and reaches a level gives a signal of that level.
    detect_tokens_complete :
        (ts : List (TrendingToken F)) (t : TrendingToken F) (level : Level)
        → Member t ts
        → (hard_filter float s t (Dict.get risks t.address)).passed ≡ true
        → level_of float s (scored_at t).score ≡ some level
        → Member
            (signal_of float curr (scored_at t) level)
            (detect_tokens float s prev_map risks curr ts)
    detect_tokens_complete [] t level m passes levelled = absurd m
    detect_tokens_complete (x ∷ ts) t level (inl same) passes levelled =
        let found = detect_token_complete t level passes levelled in
        rw
          (detect_tokens-cons x ts _
            (ap (detect_token float s prev_map risks curr) (sym same) ∙ found))
          (inl refl)
    detect_tokens_complete (x ∷ ts) t level (inr m) passes levelled =
        Member-rest x ts _ (detect_token float s prev_map risks curr x) refl
          (detect_tokens_complete ts t level m passes levelled)

  module _ (prev curr : Snapshot F) (risks : Dict (TokenRisk F)) (s : AlphaScorer F) where
    abbrev before : Dict (TrendingToken F)
    before = by_address float prev.tokens []

    -- Every signal of `detect` comes from a current token that passes the filter, and carries the
    -- score of that token against the previous snapshot and the level that this score reaches.
    pub detect-sound :
        (sig : AlphaSignal F)
        → Member sig (detect float (some prev) curr risks s).0
        → IsSignal s before risks curr curr.tokens sig
    unfolding detect
    detect-sound sig m = detect_tokens-IsSignal s before risks curr curr.tokens sig m

    -- Where there is a previous snapshot, every current token that passes the filter and whose score
    -- reaches a level is signalled.
    pub detect_complete :
        (t : TrendingToken F) (level : Level)
        → Member t curr.tokens
        → (hard_filter float s t (Dict.get risks t.address)).passed ≡ true
        → level_of float s
            (score float t (Dict.get before t.address) (Dict.get risks t.address)).score
          ≡ some level
        → Member
            (signal_of float curr
              (score float t (Dict.get before t.address) (Dict.get risks t.address))
              level)
            (detect float (some prev) curr risks s).0
    unfolding detect
    detect_complete t level m passes levelled =
        detect_tokens_complete s before risks curr curr.tokens t level m passes levelled
