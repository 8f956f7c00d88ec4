-- ===== src/Tests/Moving.antt =====
-- A concrete case for the program that moves joints, with whole numbers.
use robot_remote_control.Base.{
  ℕ, ◌+◌, ◌-◌, ◌*◌, ◌/◌, ◌≡◌, refl, arith, Option, none, some, inl, inr, List, [], ◌∷◌, All,
  Returns,
}
use robot_remote_control.Base.Int.{pos, ◌+ℤ◌}
use robot_remote_control.Doubles.{whole}
use robot_remote_control.Conversions.Messages.{JointState}
use robot_remote_control.Conversions.RosJoints.{added}
use robot_remote_control.JointController.{
  Knob, started, copy_joints, take_state, pressed, reselected, limited, handle_key, turn, turns,
}
use robot_remote_control.JointController.Keys.{IsSane, IsReady, Positions}
use robot_remote_control.JointController.Turning.{turns-started}

abbrev knob : Knob ℕ
knob = record {
  zero = 0;
  first = 1;
  plus = ◌+◌;
  minus = ◌-◌;
  tenfold = λ x. x * 10;
  tenth = λ x. x / 10;
}

abbrev two_joints : JointState ℕ
two_joints = record {
  name = (7 ∷ []) ∷ (8 ∷ []) ∷ [];
  position = 3 ∷ 4 ∷ [];
  velocity = [];
  effort = 1 ∷ 1 ∷ [];
  acceleration = [];
  timestamp = record { secs = pos 5; nsecs = pos 0 };
}

two_joints-IsSane : IsSane whole knob 2 two_joints
two_joints-IsSane = record {
  complete = record {
    positions = inr refl;
    velocities = inl refl;
    efforts = inr refl;
    accelerations = inl refl;
  };
  names = refl;
  positions = refl;
}

-- The keys up, up, right and down.
abbrev keys : List (Option (JointState ℕ) × Option ℕ)
keys =
    (none, some 65)
    ∷ (some two_joints, none)
    ∷ (none, some 65)
    ∷ (none, some 67)
    ∷ (none, some 66)
    ∷ []

turns-started_example :
    Returns
      (turns whole knob ((some two_joints, some 67) ∷ keys) (started whole knob))
      (λ out. IsReady whole knob 2 out.0 × All (Positions whole knob 2) out.1)
turns-started_example =
    turns-started whole knob 2 two_joints (some 67) keys (omega arith) two_joints-IsSane
      (tt, (two_joints-IsSane, (tt, (tt, (tt, tt)))))

-- The key to the right moves the first joint from 3 to 4; then the second joint is selected, and moved
-- from 4 to 5.
moved :
    Returns
      (turns whole knob
        ((some two_joints, some 67) ∷ (none, some 65) ∷ (none, some 67) ∷ [])
        (started whole knob))
      (λ out. out.0.jointcommand.position ≡ 4 ∷ 5 ∷ [])
unfolding turns turn take_state handle_key copy_joints added pressed reselected limited ◌+ℤ◌
moved = refl
