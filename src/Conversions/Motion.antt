-- ===== src/Conversions/Motion.antt =====
-- src/Types/Conversions/rock/Motion2d.hpp.
use robot_remote_control.Base.{◌≡◌, true, false, Bool-cases, inl, inr, not, ◌&&◌, if◌then◌else◌}
use robot_remote_control.Doubles.{Doubles}
use robot_remote_control.Conversions.Messages.{Twist}

-- base::commands::Motion2D
pub record Motion2d (D : Type 0) : Type 0 where
  pub translation : D
  pub rotation : D
  pub heading : D

module _ (d : Doubles) where
  open d use {Float, Double, widen, of_ℕ, add, mul, div, lt, eq, lt_irrefl, pi, atan, sqrt}

  -- The angle ahead of the account for negative translations. The values of the message are `float`s,
  -- and are compared as `double`s.
  unfoldable pub slope : Double → Double → Double
  slope x y =
      if eq x (of_ℕ 0) && not (eq y (of_ℕ 0))
      then div pi (of_ℕ 2)
      else if eq y (of_ℕ 0)
      then of_ℕ 0
      else atan (div y x)

  unfoldable pub angle : Double → Double → Double
  unfolding slope
  angle x y = if lt x (of_ℕ 0) then add (slope x y) pi else slope x y

  -- `pow(x, 2)` is a product.
  unfoldable pub limited : Double → Double
  limited translation = if lt (of_ℕ 1) translation then of_ℕ 1 else translation

  unfoldable pub to_motion_2d : Twist Float → Motion2d Double
  unfolding angle limited
  to_motion_2d t = record {
    translation = limited (
        sqrt (
          add (mul (widen t.linear.x) (widen t.linear.x))
            (mul (widen t.linear.y) (widen t.linear.y))));
    rotation = widen t.angular.z;
    heading = angle (widen t.linear.x) (widen t.linear.y);
  }

  limited_bound : (x : Double) → lt (of_ℕ 1) (limited x) ≡ false
  unfolding limited
  limited_bound x = elim (Bool-cases (lt (of_ℕ 1) x)) [
    | inl e ↦ rw e (lt_irrefl (of_ℕ 1))
    | inr e ↦ rw e e
  ]

  sideways :
      (x y : Double)
      → eq x (of_ℕ 0) ≡ true
      → eq y (of_ℕ 0) ≡ false
      → lt x (of_ℕ 0) ≡ false
      → angle x y ≡ div pi (of_ℕ 2)
  unfolding angle slope
  sideways x y at_zero moves not_back = rw (not_back, at_zero, moves)

  -- The translation of a converted command is never more than 1. The heading of every command that goes
  -- sideways only is a quarter turn to the left, also of one that goes to the right.
  pub to_motion_2d_bounds :
      (t : Twist Float)
      → (lt (of_ℕ 1) (to_motion_2d t).translation ≡ false)
        × (eq (widen t.linear.x) (of_ℕ 0) ≡ true
            → eq (widen t.linear.y) (of_ℕ 0) ≡ false
            → lt (widen t.linear.x) (of_ℕ 0) ≡ false
            → (to_motion_2d t).heading ≡ div pi (of_ℕ 2))
  unfolding to_motion_2d
  to_motion_2d_bounds t = (
    limited_bound _,
    (λ at_zero moves not_back.
        sideways (widen t.linear.x) (widen t.linear.y) at_zero moves not_back),
  )
