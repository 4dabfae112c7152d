-- ===== src/Signed.antt =====
-- What the pipeline, the ingestion and the backtest do with a `float` besides Float: differences,
-- absolute values, mixed arithmetic with `int`, and `round`.
use chainmonitor.Prelude.{
  ℕ, zero, suc, ◌+◌, ◌*◌, ◌/◌, ◌^◌, ◌≤◌, ◌≡◌, refl, true, false, ◌&&◌, List, [], ◌∷◌, arith, ltb,
  leb, if◌then◌else◌, le→leb, if_holds,
}
use native.Mathlib.Nat.{le-div_iff_mul-le, div-mul-le_self}
use mathlib.Core.Path.{subst}
use chainmonitor.Prelude.Int.{ℤ, pos, pos_part, neg_part, sub_ℕ, ◌+ℤ◌, ◌-ℤ◌, ltb_ℤ, leb_ℤ}
use chainmonitor.Float.{Float}

pub record Signed (f : Float) : Type 0 where
  pub sub : f.F → f.F → f.F
  pub neg : f.F → f.F
  pub abs : f.F → f.F
  pub of_ℤ : ℤ → f.F
  -- int(x)
  pub to_ℤ : f.F → ℤ
  -- round(x, digits)
  pub round : f.F → ℕ → f.F

module _ (float : Float) (signed : Signed float) where
  open float use {F, lt, le, lit, add, of_int}
  open signed use {round}

  -- `max(a, b)` and `min(a, b)`: the first of two equals, and of two that do not compare.
  abbrev pub max_float : F → F → F
  max_float a b = if lt a b then b else a

  abbrev pub min_float : F → F → F
  min_float a b = if lt b a then b else a

  -- The sum of a list from a start.
  unfoldable pub sum_from : F → List F → F
  sum_from start [] = start
  sum_from start (x ∷ xs) = sum_from (add start x) xs

  -- `sum(xs)`
  abbrev pub sum_float : List F → F
  sum_float = sum_from (of_int 0)

  -- What IEEE 754 says of comparisons of numbers that are not NaN, and of `round`: it keeps the order
  -- and the numbers that have no more digits.
  pub record IsOrdered : Type 0 where
    pub lt_le : (x y : F) → lt x y ≡ true → le x y ≡ true
    pub lit_le : (m n e : ℕ) → m ≤ n → le (lit m e) (lit n e) ≡ true
    pub lit_not_lt : (m n e : ℕ) → m ≤ n → lt (lit n e) (lit m e) ≡ false
    pub round_mono :
        (x y : F) (digits : ℕ) → le x y ≡ true → le (round x digits) (round y digits) ≡ true
    pub round_lit : (m e digits : ℕ) → e ≤ digits → round (lit m e) digits ≡ lit m e

  abbrev pub IsBetween : F → F → F → Type 0
  IsBetween low high x = (le low x ≡ true) × (le x high ≡ true)

  round-IsBetween :
      IsOrdered
      → (low high e digits : ℕ) (x : F) → e ≤ digits
      → IsBetween (lit low e) (lit high e) x
      → IsBetween (lit low e) (lit high e) (round x digits)
  round-IsBetween o low high e digits x fits (above, below) = (
    subst (λ y. le y (round x digits) ≡ true) (o.round_lit low e digits fits)
        (o.round_mono (lit low e) x digits above),
    subst (λ y. le (round x digits) y ≡ true) (o.round_lit high e digits fits)
        (o.round_mono x (lit high e) digits below),
  )

  min-le : IsOrdered → (high e : ℕ) (x : F) → le (min_float (lit high e) x) (lit high e) ≡ true
  min-le o high e x =
      if_holds (λ y. le y (lit high e) ≡ true) (lt x (lit high e)) (o.lt_le x (lit high e))
        (λ _. o.lit_le high high e (omega arith))

  pub max-le : IsOrdered → (low e : ℕ) (x : F) → le (lit low e) (max_float (lit low e) x) ≡ true
  max-le o low e x =
      if_holds (λ y. le (lit low e) y ≡ true) (lt (lit low e) x) (o.lt_le (lit low e) x)
        (λ _. o.lit_le low low e (omega arith))

  -- A value that is cut to an interval, in either order, and rounded stays in it, whatever it was,
  -- NaN included.
  pub clamp-IsBetween :
      IsOrdered
      → (low high e digits : ℕ) (x : F) → low ≤ high
      → e ≤ digits
      → IsBetween
          (lit low e)
          (lit high e)
          (round (max_float (lit low e) (min_float (lit high e) x)) digits)
  clamp-IsBetween o low high e digits x ordered fits = round-IsBetween o low high e digits _ fits (
    max-le o low e _,
    if_holds (λ y. le y (lit high e) ≡ true) (lt (lit low e) (min_float (lit high e) x))
        (λ _. min-le o high e x) (λ _. o.lit_le low high e ordered),
  )

  pub clamp_down-IsBetween :
      IsOrdered
      → (low high e digits : ℕ) (x : F) → low ≤ high
      → e ≤ digits
      → IsBetween
          (lit low e)
          (lit high e)
          (round (min_float (lit high e) (max_float (lit low e) x)) digits)
  clamp_down-IsBetween o low high e digits x ordered fits =
      round-IsBetween o low high e digits _ fits (
        if_holds (λ y. le (lit low e) y ≡ true) (lt (max_float (lit low e) x) (lit high e))
            (λ _. max-le o low e x) (λ _. o.lit_le low high e ordered),
        min-le o high e _,
      )

  pub round_min-le :
      IsOrdered
      → (high e digits : ℕ) (x : F) → e ≤ digits
      → le (round (min_float (lit high e) x) digits) (lit high e) ≡ true
  round_min-le o high e digits x fits =
      subst (λ y. le (round (min_float (lit high e) x) digits) y ≡ true)
        (o.round_lit high e digits fits) (o.round_mono _ (lit high e) digits (min-le o high e x))

-- Whole thousandths, rounded towards zero: an instance to evaluate with.
abbrev minus : ℕ → ℤ
minus n = sub_ℕ 0 n

abbrev pub signed_float : Float
signed_float = record {
  F = ℤ;
  lt = ltb_ℤ;
  le = leb_ℤ;
  eq = λ x y. leb_ℤ x y && leb_ℤ y x;
  add = ◌+ℤ◌;
  mul = λ x y.
      sub_ℕ ((pos_part x * pos_part y + neg_part x * neg_part y) / 1000)
        ((pos_part x * neg_part y + neg_part x * pos_part y) / 1000);
  div = λ x y.
      sub_ℕ ((pos_part x * 1000 / pos_part y) + (neg_part x * 1000 / neg_part y))
        ((pos_part x * 1000 / neg_part y) + (neg_part x * 1000 / pos_part y));
  lit = λ m e. pos (m * 1000 / 10 ^ e);
  of_int = λ n. pos (n * 1000);
  trunc = λ x. pos_part x / 1000;
}

-- `round` to three digits or more keeps thousandths.
abbrev pub signed_thousandths : Signed signed_float
signed_thousandths = record {
  sub = ◌-ℤ◌;
  neg = λ x. sub_ℕ (neg_part x) (pos_part x);
  abs = λ x. pos (pos_part x + neg_part x);
  of_ℤ = λ n. sub_ℕ (pos_part n * 1000) (neg_part n * 1000);
  to_ℤ = λ x. sub_ℕ (pos_part x / 1000) (neg_part x / 1000);
  round = λ x digits. x;
}

lt_le_signed : (x y : ℤ) → ltb_ℤ x y ≡ true → leb_ℤ x y ≡ true
lt_le_signed x y h = ground (arith, h)

not_lt : (a b : ℕ) → b ≤ a → ltb a b ≡ false
not_lt a b h = ground arith

div_mono : (k m n : ℕ) → m ≤ n → m / k ≤ n / k
div_mono zero m n h = omega arith
div_mono (suc k) m n h =
    (le-div_iff_mul-le (omega arith)).1 (omega (arith, h, div-mul-le_self m (suc k)))

lit_le_signed : (m n e : ℕ) → m ≤ n → leb (m * 1000 / 10 ^ e + 0) (n * 1000 / 10 ^ e + 0) ≡ true
lit_le_signed m n e h =
    le→leb _ _ (omega (arith, div_mono (10 ^ e) (m * 1000) (n * 1000) (omega (arith, h))))

lit_not_lt_signed :
    (m n e : ℕ) → m ≤ n → ltb (n * 1000 / 10 ^ e + 0) (m * 1000 / 10 ^ e + 0) ≡ false
lit_not_lt_signed m n e h =
    let mono = div_mono (10 ^ e) (m * 1000) (n * 1000) (omega (arith, h)) in
    not_lt (n * 1000 / 10 ^ e + 0) (m * 1000 / 10 ^ e + 0) (omega (arith, mono))

pub signed_float-IsOrdered : IsOrdered signed_float signed_thousandths
signed_float-IsOrdered = record {
  lt_le = lt_le_signed;
  lit_le = lit_le_signed;
  lit_not_lt = lit_not_lt_signed;
  round_mono = λ x y digits h. h;
  round_lit = λ m e digits h. refl;
}
