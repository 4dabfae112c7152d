-- ===== src/Resilience/RateLimiter/Conformance.antt =====
-- A bucket never lets more through than its rate and its capacity allow, whoever calls it.
use native.Mathlib.Nat.{add-mul}
use chainmonitor.Prelude.{
  ℕ, ◌+◌, ◌-◌, ◌*◌, ◌≤◌, ◌≡◌, sym, ap, ◌∙◌, none, some, List, [], ◌∷◌, arith,
}
use chainmonitor.Resilience.RateLimiter.{AsyncTokenBucket, token, take}

-- The clock readings do not fall, from the first argument on to the last.
abbrev pub Ascends : ℕ → List ℕ → ℕ → Type 0
Ascends start [] end = start ≤ end
Ascends start (t ∷ ts) end = (start ≤ t) × Ascends t ts end

split_time : (a b c r : ℕ) → a ≤ b → b ≤ c → (b - a) * r + (c - b) * r ≡ (c - a) * r
split_time a b c r h k =
    let e : (b - a) + (c - b) ≡ c - a = omega arith in
    sym (add-mul (b - a) (c - b) r) ∙ ap (λ t. t * r) e

Ascends-le : (start : ℕ) (times : List ℕ) (end : ℕ) → Ascends start times end → start ≤ end
Ascends-le start [] end h = h
Ascends-le start (t ∷ ts) end (h, rest) = omega (arith, Ascends-le t ts end rest)

module _ (quotient : ℕ → ℕ → ℕ) where
  -- How many of the rounds at the given clock readings return with a token. Rounds of several tasks
  -- come in any order, since each holds the lock.
  pub granted : List ℕ → AsyncTokenBucket → ℕ
  granted [] b = 0
  granted (now ∷ times) b =
      let (w, b') = take quotient now b in elim w [ none ↦ 1 | some _ ↦ 0 ] + granted times b'

  -- A bucket never holds more tokens than its capacity.
  pub take-capacity :
      (now : ℕ) (b : AsyncTokenBucket)
      → let after = (take quotient now b).1 in
        (after.tokens ≤ after.capacity)
        × (after.capacity ≡ b.capacity)
        × (after.rate_per_second ≡ b.rate_per_second)
        × (after.last_refill ≡ now)
  unfolding take
  take-capacity now b = ground arith

  -- One round pays for the token that it grants.
  take-pays :
      (now : ℕ) (b : AsyncTokenBucket)
      → elim (take quotient now b).0 [ none ↦ token | some _ ↦ 0 ] + (take quotient now b).1.tokens
        ≤ b.tokens + (now - b.last_refill) * b.rate_per_second
  unfolding take
  take-pays now b = ground arith

  -- Between two clock readings, the tokens granted are at most those that the bucket held at first
  -- and those that its rate brings in meanwhile, whatever rounds are made and in whatever order.
  pub granted-le :
      (times : List ℕ) (end : ℕ) (b : AsyncTokenBucket)
      → Ascends b.last_refill times end
      → granted times b * token ≤ b.tokens + (end - b.last_refill) * b.rate_per_second
  unfolding granted
  granted-le [] end b h = omega arith
  granted-le (now ∷ times) end b (h, rest) =
      let (full, same, rate, last) = take-capacity now b in
      let b' = (take quotient now b).1 in
      let same_income : (end - b'.last_refill) * b'.rate_per_second
          ≡ (end - now) * b.rate_per_second =
        ap (λ l. (end - l) * b'.rate_per_second) last ∙ ap (λ r. (end - now) * r) rate in
      ground (
        arith,
        same_income,
        granted-le times end b' (rw last rest),
        take-pays now b,
        split_time b.last_refill now end b.rate_per_second h (Ascends-le now times end rest),
      )
