-- ===== src/Float.antt =====
-- Python's `float`, as far as the program computes with it: a parameter of the modules that use it.
-- `lit m e` is the literal m * 10^-e.
use chainmonitor.Prelude.{ℕ, ◌+◌, ◌*◌, ◌/◌, ◌^◌, ◌≤◌, ◌≡◌, refl, Bool, true, arith, ltb, leb, ◌==◌}

pub record Float : Type 1 where
  pub F : Type 0
  pub lt : F → F → Bool
  pub le : F → F → Bool
  pub eq : F → F → Bool
  pub add : F → F → F
  pub mul : F → F → F
  pub div : F → F → F
  pub lit : ℕ → ℕ → F
  pub of_int : ℕ → F
  -- int(x), of a number that is not negative
  pub trunc : F → ℕ

-- What IEEE 754 and `int` say of numbers that are not NaN: a comparison `<` implies `<=`, rounding
-- keeps the order of products with ten, 0.5 * 10 is exact, and `int` keeps the order and whole
-- numbers.
pub record IsRounding (f : Float) : Type 0 where
  pub lt_le : (x y : f.F) → f.lt x y ≡ true → f.le x y ≡ true
  pub mul_ten_mono :
      (x y : f.F) → f.le x y ≡ true → f.le (f.mul x (f.lit 10 0)) (f.mul y (f.lit 10 0)) ≡ true
  pub half_ten : f.mul (f.lit 5 1) (f.lit 10 0) ≡ f.lit 5 0
  pub trunc_mono : (x y : f.F) → f.le x y ≡ true → f.trunc x ≤ f.trunc y
  pub trunc_whole : f.trunc (f.lit 5 0) ≡ 5

-- Numbers in thousandths, rounded down: an instance of the interface to evaluate with.
abbrev pub thousandths : Float
thousandths = record {
  F = ℕ;
  lt = ltb;
  le = leb;
  eq = ◌==◌;
  add = ◌+◌;
  mul = λ x y. x * y / 1000;
  div = λ x y. x * 1000 / y;
  lit = λ m e. m * 1000 / 10 ^ e;
  of_int = λ n. n * 1000;
  trunc = λ x. x / 1000;
}

ten_mono : (x y : ℕ) → leb x y ≡ true → leb (x * 10000 / 1000) (y * 10000 / 1000) ≡ true
ten_mono x y h = ground arith

thousand_mono : (x y : ℕ) → leb x y ≡ true → x / 1000 ≤ y / 1000
thousand_mono x y h = ground arith

lt_le_thousandths : (x y : ℕ) → ltb x y ≡ true → leb x y ≡ true
lt_le_thousandths x y h = ground arith

pub thousandths-IsRounding : IsRounding thousandths
thousandths-IsRounding = record {
  lt_le = lt_le_thousandths;
  mul_ten_mono = ten_mono;
  half_ten = refl;
  trunc_mono = thousand_mono;
  trunc_whole = refl;
}
