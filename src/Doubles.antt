-- ===== src/Doubles.antt =====
-- `double` and `float` arithmetic, as far as the statistics and the conversions use it. The operations
-- are the language's.
use robot_remote_control.Base.{
  ℕ, ◌+◌, ◌*◌, ◌/◌, ltb, ◌==◌, Bool, false, if◌then◌else◌, Option, none, some, ◌<◌, ◌≡◌, refl,
  arith,
}
use robot_remote_control.Base.Int.{ℤ, pos_part}

pub record Doubles : Type 1 where
  pub Float : Type 0
  pub Double : Type 0
  -- The conversions from one to the other. A `float` is a `double` too.
  pub narrow : Double → Float
  pub widen : Float → Double
  pub narrow-widen : (x : Float) → narrow (widen x) ≡ x
  pub of_ℕ : ℕ → Double
  pub of_ℤ : ℤ → Double
  -- The conversion of a `float` to `unsigned int`, which is undefined where the value does not fit.
  pub truncated : Float → Option ℕ
  pub truncated_small : (x : Float) (n : ℕ) → truncated x ≡ some n → n < 4_294_967_296
  pub add : Double → Double → Double
  pub mul : Double → Double → Double
  pub div : Double → Double → Double
  -- a < b and a == b
  pub lt : Double → Double → Bool
  pub eq : Double → Double → Bool
  pub lt_irrefl : (x : Double) → lt x x ≡ false
  -- M_PI and the functions of <cmath>
  pub pi : Double
  pub atan : Double → Double
  pub sqrt : Double → Double

-- Whole numbers.
pub whole_lt_irrefl : (x : ℕ) → ltb x x ≡ false
whole_lt_irrefl x = ground arith

pub whole_small :
    (x n : ℕ) → (if ltb x 4_294_967_296 then some x else none) ≡ some n → n < 4_294_967_296
whole_small x n e = grind (arith, e)

abbrev pub whole : Doubles
whole = record {
  Float = ℕ;
  Double = ℕ;
  narrow = λ x. x;
  widen = λ x. x;
  narrow-widen = λ x. refl;
  of_ℕ = λ n. n;
  of_ℤ = pos_part;
  truncated = λ x. if ltb x 4_294_967_296 then some x else none;
  truncated_small = whole_small;
  add = ◌+◌;
  mul = ◌*◌;
  div = ◌/◌;
  lt = ltb;
  eq = ◌==◌;
  lt_irrefl = whole_lt_irrefl;
  pi = 3;
  atan = λ x. x;
  sqrt = λ x. x;
}
