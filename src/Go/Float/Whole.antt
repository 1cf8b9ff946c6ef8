-- ===== src/Go/Float/Whole.antt =====
-- Whole numbers as a model of `float64` for the examples: on them its arithmetic is exact, up to
-- 2 ^ 53. A literal is rounded down.
use goshield.Prelude.{
  ◌&&◌, ℕ, suc, ◌+◌, ◌-◌, ◌*◌, ◌/◌, ◌^◌, ◌≡◌, Bool, true, not, arith, ltb, eqb, if◌then◌else◌,
}
use goshield.Go.Float.{Float64, Arithmetic}

-- `negsuc n` is -(n + 1).
pub data ℤ : Type 0 where
  pos : ℕ → ℤ
  negsuc : ℕ → ℤ

-- The difference of two numbers.
abbrev pub diff : ℕ → ℕ → ℤ
diff a b = if ltb a b then negsuc (b - suc a) else pos (a - b)

-- The distance from 0 on either side.
abbrev above : ℤ → ℕ
above (pos n) = n
above (negsuc n) = 0

abbrev below : ℤ → ℕ
below (pos n) = 0
below (negsuc n) = suc n

abbrev plus : ℤ → ℤ → ℤ
plus a b = diff (above a + above b) (below a + below b)

abbrev opposite : ℤ → ℤ
opposite a = diff (below a) (above a)

abbrev times : ℤ → ℤ → ℤ
times a b = diff (above a * above b + below a * below b) (above a * below b + below a * above b)

abbrev quotient : ℤ → ℤ → ℤ
quotient a b =
    let q = (above a + below a) / (above b + below b) in
    if eqb (below a * below b + above a * above b) 0 then diff 0 q else pos q

abbrev exceeds : ℤ → ℤ → Bool
exceeds a b = ltb (above b + below a) (above a + below b)

abbrev pub whole : Float64
whole = record {
  Num = ℤ;
  ge = λ x y. not (exceeds y x);
  gt = exceeds;
  decimal = λ n k. pos (n / 10 ^ k);
  cents = λ x. x;
  finite = λ x. true;
}

abbrev pub exact : Arithmetic whole
exact = record {
  add = plus;
  sub = λ x y. plus x (opposite y);
  mul = times;
  div = quotient;
  neg = opposite;
  eq = λ x y. not (exceeds x y) && not (exceeds y x);
}

pub add-zero : (x : ℤ) → exact.add x (pos 0) ≡ x
add-zero (pos n) = ground arith
add-zero (negsuc n) = ground arith
