-- ===== src/Floats.antt =====
-- `float` arithmetic, as far as timers and heartbeats use it. The operations are the language's, and
-- the laws are those of IEEE arithmetic for values that are not NaN.
use robot_remote_control.Base.{◌+◌, leb, ◌≡◌, Bool, true, ◌==◌, if◌then◌else◌, arith}
use robot_remote_control.Base.Int.{ℤ, pos, ◌+ℤ◌, ◌≤ℤ◌, pos_part, neg_part}

pub record Floats : Type 1 where
  pub Float : Type 0
  pub zero_float : Float
  pub add : Float → Float → Float
  -- a >= b
  pub geb : Float → Float → Bool
  -- a != 0
  pub nonzero : Float → Bool
  -- A number of microseconds as seconds: `tv_sec + tv_usec / 1000000.0`, rounded to `float`.
  pub seconds : ℤ → Float
  pub geb_trans : (a b c : Float) → geb a b ≡ true → geb b c ≡ true → geb a c ≡ true
  pub seconds_mono : (s t : ℤ) → s ≤ℤ t → geb (seconds t) (seconds s) ≡ true

-- Exact microseconds meet the laws.
abbrev geb_ℤ : ℤ → ℤ → Bool
geb_ℤ a b = leb (pos_part b + neg_part a) (pos_part a + neg_part b)

abbrev nonzero_ℤ : ℤ → Bool
nonzero_ℤ a = if pos_part a + neg_part a == 0 then Bool.false else true

pub geb_ℤ_trans : (a b c : ℤ) → geb_ℤ a b ≡ true → geb_ℤ b c ≡ true → geb_ℤ a c ≡ true
geb_ℤ_trans a b c h k = ground arith

pub geb_ℤ_mono : (s t : ℤ) → s ≤ℤ t → geb_ℤ t s ≡ true
geb_ℤ_mono s t h = ground arith

abbrev pub exact : Floats
exact = record {
  Float = ℤ;
  zero_float = pos 0;
  add = ◌+ℤ◌;
  geb = geb_ℤ;
  nonzero = nonzero_ℤ;
  seconds = λ t. t;
  geb_trans = geb_ℤ_trans;
  seconds_mono = geb_ℤ_mono;
}
