-- ===== src/Ingestion/SingleFlight/Weights.antt =====
-- Sums of a weight over the tasks.
use chainmonitor.Prelude.{
  ℕ, zero, suc, ◌+◌, ◌≤◌, ◌≡◌, refl, ap, ◌≢◌, Option, none, some, List, [], ◌∷◌, ◌++◌, arith,
  get_elem?, set,
}

-- The sum of a weight over a list.
unfoldable pub total {ℓ} : {A : Type ℓ} → (A → ℕ) → List A → ℕ
total w [] = 0
total w (x ∷ xs) = w x + total w xs

module _ {A : Type 0} (w : A → ℕ) where
  pub total-append : (xs ys : List A) → total w (xs ++ ys) ≡ total w xs + total w ys
  unfolding total
  total-append [] ys = omega arith
  total-append (x ∷ xs) ys = omega (arith, total-append xs ys)

  pub total-set :
      (xs : List A) (i : ℕ) (a b : A)
      → get_elem? xs i ≡ some a
      → total w (set xs i b) + w a ≡ total w xs + w b
  unfolding total
  total-set [] i a b h = ground arith
  total-set (x ∷ xs) zero a b h =
      let e : w x ≡ w a = ap (λ (o : Option A). elim o [ none ↦ 0 | some y ↦ w y ]) h in
      omega (arith, e)
  total-set (x ∷ xs) (suc i) a b h = omega (arith, total-set xs i a b h)

  pub total-ge : (xs : List A) (i : ℕ) (a : A) → get_elem? xs i ≡ some a → w a ≤ total w xs
  unfolding total
  total-ge [] i a h = ground arith
  total-ge (x ∷ xs) zero a h =
      let e : w x ≡ w a = ap (λ (o : Option A). elim o [ none ↦ 0 | some y ↦ w y ]) h in
      omega (arith, e)
  total-ge (x ∷ xs) (suc i) a h = omega (arith, total-ge xs i a h)

  -- Two different places count twice.
  pub total-two :
      (xs : List A) (i j : ℕ) (a b : A)
      → get_elem? xs i ≡ some a
      → get_elem? xs j ≡ some b
      → i ≢ j
      → w a + w b ≤ total w xs
  unfolding total
  total-two [] i j a b h k n = ground arith
  total-two (x ∷ xs) zero zero a b h k n = absurd (n refl)
  total-two (x ∷ xs) zero (suc j) a b h k n =
      let e : w x ≡ w a = ap (λ (o : Option A). elim o [ none ↦ 0 | some y ↦ w y ]) h in
      omega (arith, e, total-ge xs j b k)
  total-two (x ∷ xs) (suc i) zero a b h k n =
      let e : w x ≡ w b = ap (λ (o : Option A). elim o [ none ↦ 0 | some y ↦ w y ]) k in
      omega (arith, e, total-ge xs i a h)
  total-two (x ∷ xs) (suc i) (suc j) a b h k n =
      omega (arith, total-two xs i j a b h k (λ e. n (ap suc e)))

pub two_many :
    {A : Type 0} (w : A → ℕ) (xs : List A) (i j : ℕ) (a b : A)
    → get_elem? xs i ≡ some a
    → get_elem? xs j ≡ some b
    → i ≢ j
    → w a ≡ 1
    → w b ≡ 1
    → total w xs ≤ 1
    → ⊥
two_many w xs i j a b at_i at_j other one_a one_b few =
    omega (arith, total-two w xs i j a b at_i at_j other)
