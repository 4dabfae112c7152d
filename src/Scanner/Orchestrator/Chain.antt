-- ===== src/Scanner/Orchestrator/Chain.antt =====
-- `_run_chain`: one scan of one chain.
use chainmonitor.Prelude.{
  ℕ, ◌-◌, ◌*◌, ◌/◌, String, Bool, true, false, not, Option, none, some, List, [], ◌∷◌, map, str_eq,
  ltb, ◌==◌, if◌then◌else◌, length,
}
use chainmonitor.Float.{Float}
use chainmonitor.Dict
use chainmonitor.Dict.{Dict}
use chainmonitor.Scanner.Models.{
  TrendingToken, Snapshot, TokenRisk, ScoredToken, Level, AlphaSignal,
}
use chainmonitor.Scanner.Detector.{hard_filter, score, by_address}
use chainmonitor.Scanner.Detector
use chainmonitor.Scanner.Cooldown
use chainmonitor.Scanner.SnapshotStore
use chainmonitor.Scanner.Events.{trending_fetched, token_processed, chain_scan_completed}
use chainmonitor.Scanner.Orchestrator.Actions.{
  Environment, done, Action, ◌>>=◌, ◌>>◌, pure, raise, gets, publish, answer, read_clock,
  send_alpha, is_cooling, mark,
}
use chainmonitor.Scanner.Orchestrator.Security.{contains, security_tasks, check_security}

module _ (float : Float) where
  open float use {F}

  -- `t.also_in_1h = True` for the tokens whose address is in the hourly snapshot.
  unfoldable pub mark_1h : Option (Snapshot F) → List (TrendingToken F) → List (TrendingToken F)
  mark_1h none ts = ts
  mark_1h (some prev_1h) ts =
      map
        (λ t.
          if contains (map (λ (u : TrendingToken F). u.address) prev_1h.tokens) t.address
          then record t { also_in_1h = true }
          else t)
        ts

  -- `{s.token.token.address: s for s in signals}`
  unfoldable pub signal_map : List (AlphaSignal F) → Dict (AlphaSignal F) → Dict (AlphaSignal F)
  signal_map [] d = d
  signal_map (s ∷ ss) d = signal_map ss (Dict.put d s.token.token.address s)

  -- `int((score_total or 0) * decay)`, with the factor in tenths, where it is below 1.0
  abbrev pub decayed : ℕ → Option ℕ → Option ℕ
  decayed decay score_total =
      if ltb decay 10
      then some (elim score_total [ none ↦ 0 | some n ↦ n ] * decay / 10)
      else score_total

  -- The score of a token that passes the filter.
  abbrev pub scored : Bool → ScoredToken F → Option (ScoredToken F)
  scored passed s = if passed then some s else none

  -- What happens to one token between its score and its event.
  pub record Emission : Type 0 where
    pub score_total : Option ℕ
    pub signal_emitted : Bool
    pub signal_level : Option Level
    pub cooldown_skipped : Bool

  module _ (env : Environment F) (chain interval : String) where
    skip_signal : Option ℕ → Action F Emission
    skip_signal score_total = pure (record {
      score_total = score_total;
      signal_emitted = false;
      signal_level = none;
      cooldown_skipped = true;
    })

    send_signal : String → Option ℕ → ℕ → AlphaSignal F → Action F Emission
    send_signal address score_total decay sig = do
      send_alpha env sig
      mark env address sig.level
      pure (record {
        score_total = decayed decay score_total;
        signal_emitted = true;
        signal_level = some sig.level;
        cooldown_skipped = false;
      })

    emit_signal : String → Option ℕ → AlphaSignal F → Action F Emission
    unfolding skip_signal send_signal
    emit_signal address score_total sig = do
      cooling ← is_cooling env address
      decay ← gets (λ s. Cooldown.decay_factor address s.cooldown)
      if cooling then skip_signal score_total else send_signal address score_total decay sig

    no_signal : Option ℕ → Action F Emission
    no_signal score_total = pure (record {
      score_total = score_total;
      signal_emitted = false;
      signal_level = none;
      cooldown_skipped = false;
    })

    emit : String → Option ℕ → Option (AlphaSignal F) → Action F Emission
    unfolding emit_signal no_signal
    emit address score_total none = no_signal score_total
    emit address score_total (some sig) = emit_signal address score_total sig

    -- The body of the loop over the current tokens.
    unfoldable pub process_token :
        ℕ
        → Dict (TrendingToken F)
        → Dict (TokenRisk F)
        → Dict (AlphaSignal F)
        → TrendingToken F
        → Action F (Unit {0})
    unfolding emit
    process_token t0 prev_map risks signals token = do
      scorer ← gets (λ s. s.scorer)
      let risk = Dict.get risks token.address
      let fr = hard_filter float scorer token risk
      let result = scored fr.passed (score float token (Dict.get prev_map token.address) risk)
      e ←
          emit token.address (elim result [ none ↦ none | some r ↦ some r.score ])
            (Dict.get signals token.address)
      publish (
          token_processed chain interval t0 token.address token.symbol fr.passed fr.reason
            e.score_total (elim result [ none ↦ none | some r ↦ some r.breakdown ]) e.signal_emitted
            e.signal_level e.cooldown_skipped)

    unfoldable pub process_tokens :
        ℕ
        → Dict (TrendingToken F)
        → Dict (TokenRisk F)
        → Dict (AlphaSignal F)
        → List (TrendingToken F)
        → Action F (Unit {0})
    process_tokens t0 prev_map risks signals [] = pure tt
    process_tokens t0 prev_map risks signals (t ∷ ts) = do
      process_token t0 prev_map risks signals t
      process_tokens t0 prev_map risks signals ts

    -- `self._scorer.detect(prev, curr, risks)`
    unfoldable pub detect :
        Option (Snapshot F) → Snapshot F → Dict (TokenRisk F) → Action F (List (AlphaSignal F))
    detect prev curr risks s =
        let (signals, scorer) = Detector.detect float prev curr risks s.scorer in
        (done signals, record s { scorer = scorer })

    unfoldable pub save : Snapshot F → Action F (Unit {0})
    save snapshot s =
        (done tt, record s { store = SnapshotStore.save chain interval snapshot s.store })

    -- The tokens of the previous snapshot, by address.
    abbrev pub previous : Option (Snapshot F) → Dict (TrendingToken F)
    previous none = []
    previous (some prev) = by_address float prev.tokens []

    snapshot_of : List (TrendingToken F) → ℕ → Snapshot F
    snapshot_of tokens taken_at = record {
      chain = chain;
      interval = interval;
      tokens = tokens;
      taken_at = taken_at;
    }

    -- The scan, from the fetched tokens on. `t0` is the clock reading at the start.
    unfoldable pub scan : ℕ → List (TrendingToken F) → Action F (Unit {0})
    unfolding snapshot_of
    scan t0 tokens = do
      taken_at ← read_clock env
      prev ← gets (λ s. SnapshotStore.load chain interval s.store)
      prev_1h ← gets (λ s. SnapshotStore.load chain "1h" s.store)
      let marked = if str_eq interval "1m" then mark_1h prev_1h tokens else tokens
      let curr = snapshot_of marked taken_at
      checked ← check_security float env chain (security_tasks float [] tokens) t0 []
      signals ← detect prev curr checked.1
      process_tokens checked.0 (previous prev) checked.1 (signal_map signals []) marked
      save curr
      now ← read_clock env
      publish
          (chain_scan_completed chain interval (now - checked.0) (length tokens) (length signals))

    -- `len(tokens)` raises a `TypeError` where the client answered `None`.
    fetched : ℕ → Option (List (TrendingToken F)) → Action F (Unit {0})
    unfolding scan
    fetched t0 none = do now ← read_clock env; raise
    fetched t0 (some tokens) = do
      now ← read_clock env
      publish
          (trending_fetched chain interval (length tokens) (now - t0) (not (length tokens == 0)))
      if length tokens == 0 then pure tt else scan t0 tokens

    unfoldable pub run_chain : Action F (Unit {0})
    unfolding fetched
    run_chain = do
      t0 ← read_clock env
      reads ← gets (λ s. s.reads)
      tokens ← answer (env.fetch_trending reads chain interval)
      fetched t0 tokens
