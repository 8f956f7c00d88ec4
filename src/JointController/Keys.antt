-- ===== src/JointController/Keys.antt =====
-- What a new state and a key do to the program.
use robot_remote_control.Base.{
  ℕ, suc, ◌≡◌, ◌<◌, refl, ◌∙◌, Bool, Bool-cases, true, false, leb, some, inl, inr, List, [], ok,
  read_at_ok, write_at_ok, set, length, length-set, Returns, Returns-bind, arith,
}
use robot_remote_control.Base.Int.{ℤ, pos, negsuc}
use robot_remote_control.Doubles.{Doubles}
use robot_remote_control.Conversions.Messages.{JointState, JointCommand}
use robot_remote_control.JointController.{
  Knob, Program, Selection, read_int, write_int, limited, take_state, pressed, reselected,
  handle_key,
}
use robot_remote_control.JointController.Copying.{IsComplete, copy_joints_all}

-- The index is that of one of `n` joints.
abbrev pub Within : ℕ → ℤ → Type 0
Within n (pos i) = i < n
Within n (negsuc i) = ⊥

-- The tests bring every index into the range, if there is a joint.
pub limited-Within : (n : ℕ) (i : ℤ) → 0 < n → Within n (limited n i)
unfolding limited
limited-Within n (pos i) some_joint = elim (Bool-cases (leb n (suc i))) [
  | inl e ↦ rw e (ground arith)
  | inr e ↦ rw e (ground arith)
]
limited-Within n (negsuc i) some_joint = elim (Bool-cases (leb n 1)) [
  | inl e ↦ rw e (ground arith)
  | inr e ↦ rw e some_joint
]

pub limited_none : (i : ℤ) → limited 0 i ≡ negsuc 0
unfolding limited
limited_none (pos i) = ground arith
limited_none (negsuc i) = refl

read_int-Within :
    {A : Type 0} (xs : List A) (i : ℤ) → Within (length xs) i → (a : A) × (read_int xs i ≡ ok a)
read_int-Within xs (pos i) inside = let (a, at, e) = read_at_ok xs i inside in (a, e)
read_int-Within xs (negsuc i) inside = absurd inside

write_int-Within :
    {A : Type 0} (xs : List A) (i : ℤ) (a : A)
    → Within (length xs) i
    → (ys : List A) × (write_int xs i a ≡ ok ys) × (length ys ≡ length xs)
write_int-Within xs (pos i) a inside = (set xs i a, write_at_ok xs i a inside, length-set xs i a)
write_int-Within xs (negsuc i) a inside = absurd inside

module _ (d : Doubles) (k : Knob d.Float) where
  open d use {Float, Double, narrow, widen}

  -- A state of `n` joints, with a position for each.
  pub record IsSane (n : ℕ) (state : JointState Double) : Type 0 where
    pub complete : IsComplete d k state
    pub names : length state.name ≡ n
    pub positions : length state.position ≡ n

  -- The program has such a state, a command for as many joints, and an index of one of them.
  pub record IsReady (n : ℕ) (p : Program d k) : Type 0 where
    pub names : length p.jointstate.name ≡ n
    pub positions : length p.jointstate.position ≡ n
    pub commanded : length p.jointcommand.position ≡ n
    pub index : Within n p.selection.joint_index

  -- A command that sets the positions of `n` joints and nothing else.
  pub record Positions (n : ℕ) (command : JointCommand Double) : Type 0 where
    pub positions : length command.position ≡ n
    pub velocities : command.velocity ≡ []
    pub efforts : command.effort ≡ []

  pub take_state-IsReady :
      (n : ℕ) (state : JointState Double) (p : Program d k)
      → IsSane n state
      → Within n p.selection.joint_index
      → Returns (take_state d k (some state) p) (IsReady n)
  unfolding take_state
  take_state-IsReady n state p sane inside =
      let (position, e) =
        read_int-Within state.position p.selection.joint_index (rw sane.positions inside) in
      rw (copy_joints_all d k state sane.complete, e)
        (record {
          names = sane.names;
          positions = sane.positions;
          commanded = sane.positions;
          index = inside;
        })

  pub pressed_index :
      (input : ℕ) (s : Selection d k)
      → (pressed d k input s).0 ≡ false
      → (pressed d k input s).1.joint_index ≡ s.joint_index
  unfolding pressed
  pressed_index input s unchanged = ground arith

  reselected-Within :
      (n : ℕ) (changed : Bool) (state : JointState Double) (old s : Selection d k)
      → 0 < n
      → length state.name ≡ n
      → length state.position ≡ n
      → Within n old.joint_index
      → (changed ≡ false → s.joint_index ≡ old.joint_index)
      → Returns (reselected d k changed state s) (λ s'. Within n s'.joint_index)
  unfolding reselected
  reselected-Within n false state old s some_joint names positions inside same =
      rw (same refl) inside
  reselected-Within n true state old s some_joint names positions inside same =
      let within = limited-Within n s.joint_index some_joint in
      let (position, e) =
        read_int-Within state.position (limited n s.joint_index) (rw positions within) in
      rw (names, e) within

  pub handle_key-IsReady :
      (n input : ℕ) (p : Program d k)
      → 0 < n
      → IsReady n p
      → Returns (handle_key d k input p) (λ out. IsReady n out.0 × Positions n out.1)
  unfolding handle_key
  handle_key-IsReady n input p some_joint ready =
      Returns-bind (λ s'. Within n s'.joint_index) _
        (reselected d k (pressed d k input p.selection).0 p.jointstate
          (pressed d k input p.selection).1)
        _
        (reselected-Within n (pressed d k input p.selection).0 p.jointstate p.selection
          (pressed d k input p.selection).1 some_joint ready.names ready.positions ready.index
          (pressed_index input p.selection))
        λ s within.
          let (name, named) =
            read_int-Within p.jointstate.name s.joint_index (rw ready.names within) in
          let (positions, written, same) =
            write_int-Within p.jointcommand.position s.joint_index (widen s.value)
              (rw ready.commanded within) in
          rw (named, written)
            (
              record {
                names = ready.names;
                positions = ready.positions;
                commanded = same ∙ ready.commanded;
                index = within;
              },
              record { positions = same ∙ ready.commanded; velocities = refl; efforts = refl },
            )
