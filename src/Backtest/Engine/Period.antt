-- ===== src/Backtest/Engine/Period.antt =====
-- The minutes of a period.
use chainmonitor.Prelude.{
  ℕ, zero, suc, ◌+◌, ◌-◌, ◌*◌, ◌/◌, ◌≤◌, ◌<◌, ◌≡◌, refl, sym, ap, ◌∙◌, true, List, [], ◌∷◌, ◌++◌,
  arith, leb, le→leb,
}
use chainmonitor.Backtest.Engine.{minute, whole_minute, minutes_from, iter_minutes}

-- An independent description: so many minutes from the minute a on.
unfoldable pub count_from : ℕ → ℕ → List ℕ
count_from a zero = []
count_from a (suc n) = a * minute ∷ count_from (a + 1) n

count_from-eq : (a b n m : ℕ) → a ≡ b → n ≡ m → count_from a n ≡ count_from b m
count_from-eq a b n m same_start same_count =
    ap (λ (x : ℕ). count_from x n) same_start ∙ ap (λ (x : ℕ). count_from b x) same_count

count_from-append : (a n k : ℕ) → count_from a n ++ count_from (a + n) k ≡ count_from a (n + k)
unfolding count_from
count_from-append a zero k = count_from-eq (a + 0) a k (0 + k) (omega arith) (omega arith)
count_from-append a (suc n) k =
    ap (λ (b : ℕ). a * minute ∷ (count_from (a + 1) n ++ count_from b k)) {x = a + suc n}
      {y = a + 1 + n} (omega arith)
    ∙ (ap (λ (rest : List ℕ). a * minute ∷ rest) (count_from-append (a + 1) n k)
        ∙ sym (count_from-eq a a (suc n + k) (suc (n + k)) refl (omega arith)))

minutes_from-done : (fuel cursor stop : ℕ) → stop < cursor → minutes_from fuel cursor stop ≡ []
unfolding minutes_from
minutes_from-done zero cursor stop done = refl
minutes_from-done (suc fuel) cursor stop done = ground (arith, done)

minutes_from-count :
    (fuel a b n : ℕ)
    → n ≤ fuel
    → n ≡ b + 1 - a
    → minutes_from fuel (a * minute) (b * minute) ≡ count_from a n
unfolding minutes_from count_from
minutes_from-count fuel a b zero enough count =
    minutes_from-done fuel (a * minute) (b * minute) (omega (arith, count))
minutes_from-count zero a b (suc n) enough count = absurd (omega (arith, enough))
minutes_from-count (suc fuel) a b (suc n) enough count =
    let more : leb (a * minute) (b * minute) ≡ true = le→leb _ _ (omega (arith, count)) in
    let next : (a + 1) * minute ≡ a * minute + minute = omega arith in
    rw (more) (
      ap (λ (rest : List ℕ). a * minute ∷ rest)
        (ap (λ (c : ℕ). minutes_from fuel c (b * minute)) (sym next)
          ∙ minutes_from-count fuel (a + 1) b n (omega (arith, enough)) (omega (arith, count))))

-- The minutes of a period are all whole minutes from that of its start to that of its end, in order:
-- the loop's fuel, the minutes since 1970 and one, is enough.
pub iter_minutes-count :
    (start end : ℕ)
    → iter_minutes start end ≡ count_from (start / minute) (end / minute + 1 - start / minute)
unfolding iter_minutes
iter_minutes-count start end =
    minutes_from-count (whole_minute end / minute + 1) (start / minute) (end / minute)
      (end / minute + 1 - start / minute) (omega arith) refl

-- The two windows of the walk-forward check, from the start to the split and from a minute after
-- the split to the end, have each minute of the period once, in order.
pub iter_minutes-split :
    (start split end : ℕ)
    → start ≤ split
    → split ≤ end
    → iter_minutes start split ++ iter_minutes (split + minute) end ≡ iter_minutes start end
iter_minutes-split start split end before after =
    let s = start / minute in
    let p = split / minute in
    let e = end / minute in
    ap (λ (xs : List ℕ). xs ++ iter_minutes (split + minute) end) (iter_minutes-count start split)
    ∙ (ap (λ (xs : List ℕ). count_from s (p + 1 - s) ++ xs)
          (iter_minutes-count (split + minute) end
            ∙ count_from-eq ((split + minute) / minute) (s + (p + 1 - s)) _ (e - p) (omega arith)
                (omega arith))
        ∙ (count_from-append s (p + 1 - s) (e - p)
            ∙ (count_from-eq s s (p + 1 - s + (e - p)) (e + 1 - s) refl (omega arith)
                ∙ sym (iter_minutes-count start end))))
