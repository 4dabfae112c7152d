-- ===== src/Scanner/Orchestrator/Security.antt =====
-- The security checks of `_run_chain`: which tokens are checked, and what the checks give.
use chainmonitor.Prelude.{
  ℕ, ◌-◌, String, Bool, true, false, ◌||◌, Option, none, some, List, [], ◌∷◌, str_eq, if◌then◌else◌,
}
use chainmonitor.Float.{Float}
use chainmonitor.Dict
use chainmonitor.Dict.{Dict}
use chainmonitor.Scanner.Models.{TrendingToken, TokenRisk}
use chainmonitor.Scanner.Events.{token_security_checked}
use chainmonitor.Scanner.Orchestrator.Actions.{
  raises, answers, Environment, Action, ◌>>=◌, ◌>>◌, pure, gets, publish, read_clock,
}

unfoldable pub contains : List String → String → Bool
contains [] a = false
contains (x ∷ xs) a = str_eq x a || contains xs a

module _ (float : Float) where
  open float use {F, lt, lit}

  -- `t.liquidity is not None and t.liquidity < 100_000`
  unfoldable pub wants_check : TrendingToken F → Bool
  wants_check t = elim t.liquidity [ none ↦ false | some l ↦ lt l (lit 100_000 0) ]

  -- The loop that creates the tasks, over the addresses seen so far: address and symbol of each.
  unfoldable pub security_tasks : List String → List (TrendingToken F) → List (String × String)
  security_tasks seen [] = []
  security_tasks seen (t ∷ ts) =
      let skipped = security_tasks seen ts in
      let rest = security_tasks (t.address ∷ seen) ts in
      if contains seen t.address
      then skipped
      else if wants_check t
      then (t.address, t.symbol) ∷ rest
      else rest

  abbrev pub add_risk : Dict (TokenRisk F) → String → Option (TokenRisk F) → Dict (TokenRisk F)
  add_risk risks address none = risks
  add_risk risks address (some risk) = Dict.put risks address risk

  abbrev pub is_some : {A : Type 0} → Option A → Bool
  is_some none = false
  is_some (some a) = true

  module _ (env : Environment F) (chain : String) where
    -- The loop that awaits the tasks. It returns its last `t0`, which hides that of the method, and
    -- the risks. An exception of a task is logged.
    unfoldable pub check_security :
        List (String × String) → ℕ → Dict (TokenRisk F) → Action F (ℕ × Dict (TokenRisk F))
    check_security [] t0 risks = pure (t0, risks)
    check_security ((address, symbol) ∷ tasks) t0 risks = do
      t0' ← read_clock env
      reads ← gets (λ s. s.reads)
      elim (env.fetch_token_security reads chain address) [
        | raises ↦ check_security tasks t0' risks
        | answers risk ↦ do
          now ← read_clock env
          publish (token_security_checked chain address symbol (now - t0') (is_some risk))
          check_security tasks t0' (add_risk risks address risk)
      ]
