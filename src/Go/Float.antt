-- ===== src/Go/Float.antt =====
-- `float64` as the code uses it: the comparisons and the literals. Its arithmetic is the
-- processor's, so it is an interface; a model of it is given by scaled integers for the examples.
pub mod Whole
use goshield.Prelude.{
  ◌/◌, ◌+◌, List, [], ◌∷◌, ◌++◌, ◌≡◌, refl, ℕ, ◌*◌, ◌-◌, ◌^◌, Bool, true, leb, ltb,
}

pub record Float64 : Type 1 where
  pub Num : Type 0
  -- `x >= y`
  pub ge : Num → Num → Bool
  -- `x > y`
  pub gt : Num → Num → Bool
  -- The literal n / 10 ^ k: `0.80` is `decimal 80 2`.
  pub decimal : ℕ → ℕ → Num
  -- What a column NUMERIC(15,2) keeps of a number.
  pub cents : Num → Num
  -- Neither an infinity nor NaN, which JSON cannot express.
  pub finite : Num → Bool

abbrev pub zero_float : (F : Float64) → F.Num
zero_float F = F.decimal 0 0

-- What the code computes with: no law of it is assumed.
pub record Arithmetic (F : Float64) : Type 0 where
  pub add : F.Num → F.Num → F.Num
  pub sub : F.Num → F.Num → F.Num
  pub mul : F.Num → F.Num → F.Num
  pub div : F.Num → F.Num → F.Num
  pub neg : F.Num → F.Num
  -- `x == y`
  pub eq : F.Num → F.Num → Bool

module _ {F : Float64} (A : Arithmetic F) where
  -- The loop `for … { acc += x }`, and the `SUM` of SQL.
  abbrev pub sum_from : F.Num → List F.Num → F.Num
  sum_from acc [] = acc
  sum_from acc (x ∷ xs) = sum_from (A.add acc x) xs

  abbrev pub sum : List F.Num → F.Num
  sum xs = sum_from (zero_float F) xs

  pub sum_from-append :
      (acc : F.Num) (xs : List F.Num) (y : F.Num)
      → sum_from acc (xs ++ y ∷ []) ≡ A.add (sum_from acc xs) y
  sum_from-append acc [] y = refl
  sum_from-append acc (x ∷ xs) y = sum_from-append (A.add acc x) xs y

-- Numbers with four places, as counts of 1/10000.
abbrev pub fixed_point : Float64
fixed_point = record {
  Num = ℕ;
  ge = λ x y. leb y x;
  gt = λ x y. ltb y x;
  decimal = λ n k. n * 10 ^ (4 - k);
  cents = λ x. (x + 50) / 100 * 100;
  finite = λ x. true;
}
