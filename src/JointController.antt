-- ===== src/JointController.antt =====
-- examples/JointControllerMain.cpp: a program by which an operator moves one joint of a robot at a
-- time with the keyboard.
pub mod Copying
pub mod Keys
pub mod Turning
use robot_remote_control.Base.{
  ℕ, suc, ◌-◌, ◌==◌, leb, ◌&&◌, if◌then◌else◌, Bool, true, false, Option, none, some, List, [], ◌∷◌,
  ◌++◌, Result, ok, fault, Fault, ◌>>=◌, read_at, write_at, length,
}
use robot_remote_control.Base.Int.{ℤ, pos, negsuc, sub_ℕ, ◌+ℤ◌}
use robot_remote_control.Bytes.{Bytes}
use robot_remote_control.Doubles.{Doubles}
use robot_remote_control.Conversions.Messages.{TimeStamp, JointState, JointCommand}
use robot_remote_control.Conversions.RosJoints.{added}

-- The arithmetic of `value` and `increment`, and the first increment.
pub record Knob (F : Type 0) : Type 0 where
  pub zero : F
  pub first : F
  pub plus : F → F → F
  pub minus : F → F → F
  pub tenfold : F → F
  pub tenth : F → F

-- An element of a repeated field, by an `int`; out of range it is undefined.
abbrev pub read_int : {A : Type 0} → List A → ℤ → Result A
read_int xs (pos i) = read_at xs i
read_int xs (negsuc i) = fault Fault.out_of_bounds

abbrev pub write_int : {A : Type 0} → List A → ℤ → A → Result (List A)
write_int xs (pos i) a = write_at xs i a
write_int xs (negsuc i) a = fault Fault.out_of_bounds

-- The two tests of the index against a number of names.
unfoldable pub limited : ℕ → ℤ → ℤ
limited size (negsuc i) = if leb size 1 then sub_ℕ size 1 else pos 0
limited size (pos i) = if leb size (suc i) then sub_ℕ size 1 else pos i

module _ (d : Doubles) (k : Knob d.Float) where
  open d use {Float, Double, narrow, widen}
  open k use {zero, first, plus, minus, tenfold, tenth}

  -- What the operator sets by the keys.
  pub record Selection : Type 0 where
    pub joint_index : ℤ
    pub increment : Float
    pub value : Float

  pub record Program : Type 0 where
    pub jointstate : JointState Double
    pub jointcommand : JointCommand Double
    pub selection : Selection

  abbrev pub no_time : TimeStamp
  no_time = record { secs = pos 0; nsecs = pos 0 }

  -- `jointcommand.Clear()`
  abbrev pub cleared : JointCommand Double
  cleared = record {
    name = [];
    position = [];
    velocity = [];
    effort = [];
    acceleration = [];
    kp_gain = [];
    kd_gain = [];
    timestamp = no_time;
  }

  -- The program ahead of its loop.
  abbrev pub started : Program
  started = record {
    jointstate = record {
      name = [];
      position = [];
      velocity = [];
      effort = [];
      acceleration = [];
      timestamp = no_time;
    };
    jointcommand = cleared;
    selection = record { joint_index = pos 0; increment = first; value = zero };
  }

  -- The loop over the names from the `i`-th on.
  unfoldable pub copy_joints :
      JointState Double → ℕ → List Bytes → JointCommand Double → Result (JointCommand Double)
  copy_joints from i [] target = ok target
  copy_joints from i (name ∷ names) target = do
    positions ← added Double from.position i target.position
    velocities ← added Double from.velocity i target.velocity
    efforts ← added Double from.effort i target.effort
    accelerations ← added Double from.acceleration i target.acceleration
    copy_joints from (suc i) names (record target {
      name = target.name ++ name ∷ [];
      position = positions;
      velocity = velocities;
      effort = efforts;
      acceleration = accelerations;
    })

  -- A new state, or none, from `getCurrentJointState`.
  unfoldable pub take_state : Option (JointState Double) → Program → Result Program
  unfolding copy_joints
  take_state none p = ok p
  take_state (some state) p = copy_joints state 0 state.name cleared >>= λ command.
      read_int command.position p.selection.joint_index >>= λ position. ok (record {
        jointstate = state;
        jointcommand = command;
        selection = record (p.selection) { value = narrow position };
      })

  -- The switch over the character, with whether the index was changed.
  unfoldable pub pressed : ℕ → Selection → Bool × Selection
  pressed input s =
      if input == 43
      then (false, record s { increment = tenfold s.increment })
      else if input == 45
      then (false, record s { increment = tenth s.increment })
      else if input == 65
      then (true, record s { joint_index = s.joint_index +ℤ pos 1 })
      else if input == 66
      then (true, record s { joint_index = s.joint_index +ℤ negsuc 0 })
      else if input == 67
      then (false, record s { value = plus s.value s.increment })
      else if input == 68
      then (false, record s { value = minus s.value s.increment })
      else if input == 32
      then (false, record s { value = zero })
      else if leb 48 input && leb input 57
      then (true, record s { joint_index = pos (input - 48) })
      else (false, s)

  -- The value is the position of the joint that was selected.
  unfoldable pub reselected : Bool → JointState Double → Selection → Result Selection
  unfolding limited
  reselected false state s = ok s
  reselected true state s =
      let i = limited (length state.name) s.joint_index in
      read_int state.position i >>= λ position.
      ok (record s { joint_index = i; value = narrow position })

  -- A key, and the command that is given to `setJointCommand`. The name of the joint is read to print it.
  unfoldable pub handle_key : ℕ → Program → Result (Program × JointCommand Double)
  unfolding pressed reselected
  handle_key input p = do
    let (changed, s) = pressed input p.selection
    selection ← reselected changed p.jointstate s
    name ← read_int p.jointstate.name selection.joint_index
    positions ← write_int p.jointcommand.position selection.joint_index (widen selection.value)
    let command = record (p.jointcommand) { position = positions; effort = []; velocity = [] }
    ok (record p { jointcommand = command; selection = selection }, command)

  -- One turn of the loop: with a new state or without, and with a key or without.
  unfoldable pub turn :
      Option (JointState Double)
      → Option ℕ
      → Program
      → Result (Program × Option (JointCommand Double))
  unfolding take_state handle_key
  turn came none p = take_state came p >>= λ p'. ok (p', none)
  turn came (some input) p =
      take_state came p >>= λ p'. handle_key input p' >>= λ out. ok (out.0, some (out.1))

  unfoldable pub turns :
      List (Option (JointState Double) × Option ℕ)
      → Program
      → Result (Program × List (JointCommand Double))
  unfolding turn
  turns [] p = ok (p, [])
  turns ((came, key) ∷ rest) p = turn came key p >>= λ out. turns rest out.0 >>= λ more.
      ok (more.0, elim out.1 [ none ↦ more.1 | some command ↦ command ∷ more.1 ])
