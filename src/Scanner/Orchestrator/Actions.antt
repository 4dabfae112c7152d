-- ===== src/Scanner/Orchestrator/Actions.antt =====
-- The orchestrator's state and what its methods do to it.
use chainmonitor.Prelude.{ℕ, ◌+◌, String, Bool, Option, List, [], ◌∷◌, ◌++◌, if◌then◌else◌}
use chainmonitor.Scanner.Models.{TrendingToken, TokenRisk, AlphaSignal, Level}
use chainmonitor.Scanner.Detector.{AlphaScorer}
use chainmonitor.Scanner.Cooldown
use chainmonitor.Scanner.Cooldown.{CooldownManager}
use chainmonitor.Scanner.SnapshotStore.{Row}
use chainmonitor.Scanner.Events.{Event}

-- The answer of the client: an exception, or what was fetched. `ResilientExecutor.execute` gives
-- `None` when it refuses the call or all attempts failed.
pub data Answer (A : Type 0) : Type 0 where
  raises : Answer A
  answers : Option A → Answer A

pub record Environment (F : Type 0) : Type 0 where
  -- in microseconds
  pub clock : ℕ → ℕ
  pub fetch_trending : ℕ → String → String → Answer (List (TrendingToken F))
  pub fetch_token_security : ℕ → String → String → Answer (TokenRisk F)
  -- `send_alpha` raises only what is no HTTP error.
  pub send_raises : ℕ → AlphaSignal F → Bool

pub record Scanner (F : Type 0) : Type 0 where
  pub scorer : AlphaScorer F
  pub cooldown : CooldownManager
  pub store : List (Row F)
  pub last_1h_run : ℕ
  -- What was sent and what was published, in order.
  pub sent : List (AlphaSignal F)
  pub published : List (Event F)
  pub reads : ℕ

-- How an action ends.
pub data Result (A : Type 0) : Type 0 where
  done : A → Result A
  raised : Result A

abbrev pub Action : Type 0 → Type 0 → Type 0
Action F A = Scanner F → Result A × Scanner F

abbrev pub continue :
    {F A B : Type 0} → (A → Action F B) → Result A → Scanner F → Result B × Scanner F
continue f (done a) s = f a s
continue f raised s = (raised, s)

infixl 5 ◌>>=◌ ◌>>◌
abbrev pub ◌>>=◌ : {F A B : Type 0} → Action F A → (A → Action F B) → Action F B
◌>>=◌ m f s = continue f (m s).0 (m s).1

abbrev pub ◌>>◌ : {F A B : Type 0} → Action F A → Action F B → Action F B
◌>>◌ m k s = continue (λ _. k) (m s).0 (m s).1

module _ {F : Type 0} where
  abbrev pub pure : {A : Type 0} → A → Action F A
  pure a s = (done a, s)

  abbrev pub raise : {A : Type 0} → Action F A
  raise s = (raised, s)

  abbrev pub gets : {A : Type 0} → (Scanner F → A) → Action F A
  gets f s = (done (f s), s)

  unfoldable pub publish : Event F → Action F (Unit {0})
  publish event s = (done tt, record s { published = s.published ++ event ∷ [] })

  unfoldable pub answer : {A : Type 0} → Answer A → Action F (Option A)
  answer raises = raise
  answer (answers a) = pure a

module _ {F : Type 0} (env : Environment F) where
  unfoldable pub read_clock : Action F ℕ
  read_clock s = (done (env.clock s.reads), record s { reads = s.reads + 1 })

  unfoldable pub send_alpha : AlphaSignal F → Action F (Unit {0})
  send_alpha sig s =
      if env.send_raises s.reads sig
      then (raised, s)
      else (done tt, record s { sent = s.sent ++ sig ∷ [] })

  unfoldable pub is_cooling : String → Action F Bool
  unfolding read_clock
  is_cooling address = do now ← read_clock; gets (λ s. Cooldown.is_cooling now address s.cooldown)

  marked : ℕ → String → Level → Action F (Unit {0})
  marked now address level s =
      (done tt, record s { cooldown = Cooldown.mark now address level s.cooldown })

  unfoldable pub mark : String → Level → Action F (Unit {0})
  unfolding read_clock marked
  mark address level = do now ← read_clock; marked now address level
