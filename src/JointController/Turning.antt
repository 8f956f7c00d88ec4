-- ===== src/JointController/Turning.antt =====
-- Whatever keys are pressed, the program stays within the joints of the robot.
use robot_remote_control.Base.{
  ℕ, ◌≡◌, ◌<◌, refl, ap, Bool, true, false, Option, none, some, List, [], ◌∷◌, Result, ok, fault,
  Fault, ◌>>=◌, All, Returns, Returns-bind,
}
use robot_remote_control.Base.Int.{pos}
use robot_remote_control.Bytes.{Bytes}
use robot_remote_control.Doubles.{Doubles}
use robot_remote_control.Conversions.Messages.{JointState, JointCommand}
use robot_remote_control.JointController.{
  Knob, Program, Selection, read_int, take_state, pressed, reselected, handle_key, turn, turns,
  started,
}
use robot_remote_control.JointController.Keys.{
  limited_none, IsSane, IsReady, Positions, take_state-IsReady, pressed_index, handle_key-IsReady,
}

module _ (d : Doubles) (k : Knob d.Float) where
  open d use {Float, Double, narrow, widen}

  abbrev pub Came : ℕ → Option (JointState Double) → Type 0
  Came n none = Unit
  Came n (some state) = IsSane d k n state

  abbrev Given : ℕ → Option (JointCommand Double) → Type 0
  Given n none = Unit
  Given n (some command) = Positions d k n command

  come-IsReady :
      (n : ℕ) (came : Option (JointState Double)) (p : Program d k)
      → Came n came
      → IsReady d k n p
      → Returns (take_state d k came p) (IsReady d k n)
  unfolding take_state
  come-IsReady n none p sane ready = ready
  come-IsReady n (some state) p sane ready = take_state-IsReady d k n state p sane ready.index

  turn-IsReady :
      (n : ℕ) (came : Option (JointState Double)) (key : Option ℕ) (p : Program d k)
      → 0 < n
      → Returns (take_state d k came p) (IsReady d k n)
      → Returns (turn d k came key p) (λ out. IsReady d k n out.0 × Given n out.1)
  unfolding turn
  turn-IsReady n came none p some_joint taken =
      Returns-bind (IsReady d k n) _ (take_state d k came p) _ taken (λ p' ready. (ready, tt))
  turn-IsReady n came (some input) p some_joint taken =
      Returns-bind (IsReady d k n) _ (take_state d k came p) _ taken λ p' ready.
        Returns-bind (λ out. IsReady d k n out.0 × Positions d k n out.1) _
          (handle_key d k input p') _ (handle_key-IsReady d k n input p' some_joint ready)
          (λ out done. done)

  more-Positions :
      (n : ℕ) (given : Option (JointCommand Double)) (commands : List (JointCommand Double))
      → Given n given
      → All (Positions d k n) commands
      → All (Positions d k n) (elim given [ none ↦ commands | some command ↦ command ∷ commands ])
  more-Positions n none commands one rest = rest
  more-Positions n (some command) commands one rest = (one, rest)

  then_turns :
      (n : ℕ) (came : Option (JointState Double)) (key : Option ℕ)
      (events : List (Option (JointState Double) × Option ℕ)) (p : Program d k)
      → 0 < n
      → Returns (take_state d k came p) (IsReady d k n)
      → ((p' : Program d k)
          → IsReady d k n p'
          → Returns
              (turns d k events p')
              (λ out. IsReady d k n out.0 × All (Positions d k n) out.1))
      → Returns
          (turns d k ((came, key) ∷ events) p)
          (λ out. IsReady d k n out.0 × All (Positions d k n) out.1)
  unfolding turns
  then_turns n came key events p some_joint taken rest =
      Returns-bind (λ out. IsReady d k n out.0 × Given n out.1) _ (turn d k came key p) _
        (turn-IsReady n came key p some_joint taken)
        λ out done.
          Returns-bind (λ more. IsReady d k n more.0 × All (Positions d k n) more.1) _
            (turns d k events out.0) _ (rest out.0 done.0)
            (λ more there. (there.0, more-Positions n out.1 more.1 done.1 there.1))

  turns-IsReady :
      (n : ℕ) (events : List (Option (JointState Double) × Option ℕ)) (p : Program d k)
      → 0 < n
      → All (λ e. Came n e.0) events
      → IsReady d k n p
      → Returns (turns d k events p) (λ out. IsReady d k n out.0 × All (Positions d k n) out.1)
  unfolding turns
  turns-IsReady n [] p some_joint sane ready = (ready, tt)
  turns-IsReady n ((came, key) ∷ events) p some_joint sane ready =
      then_turns n came key events p some_joint (come-IsReady n came p sane.0 ready)
        (λ p' ready'. turns-IsReady n events p' some_joint sane.1 ready')

  -- If a state is there in the first turn of the program, and all states are of the same joints, at
  -- least one, with a position for each and the other lists empty or complete: whatever keys are
  -- pressed, no turn reads or writes out of bounds, the index stays that of a joint, and each command
  -- that is sent sets a position for every joint and no velocity and no effort.
  pub turns-started :
      (n : ℕ) (state : JointState Double) (key : Option ℕ)
      (events : List (Option (JointState Double) × Option ℕ))
      → 0 < n
      → IsSane d k n state
      → All (λ e. Came n e.0) events
      → Returns
          (turns d k ((some state, key) ∷ events) (started d k))
          (λ out. IsReady d k n out.0 × All (Positions d k n) out.1)
  turns-started n state key events some_joint sane all_sane =
      then_turns n (some state) key events (started d k) some_joint
        (take_state-IsReady d k n state (started d k) sane some_joint)
        (λ p' ready. turns-IsReady n events p' some_joint all_sane ready)

  none_selected :
      {A : Type 0} (changed : Bool) (s : Selection d k) (f : Selection d k → Bytes → Result A)
      → (changed ≡ false → s.joint_index ≡ pos 0)
      → (reselected d k changed (started d k).jointstate s >>= λ selection.
          read_int {A = Bytes} [] selection.joint_index >>= f selection)
        ≡ fault Fault.out_of_bounds
  unfolding reselected
  none_selected false s f same = rw (same refl)
  none_selected true s f same = rw (limited_none s.joint_index)

  -- Any key that is pressed before the first state came reads out of bounds.
  pub turn_early :
      (input : ℕ) → turn d k none (some input) (started d k) ≡ fault Fault.out_of_bounds
  unfolding turn take_state handle_key
  turn_early input =
      let s = (started d k).selection in
      ap (λ out. out >>= (λ o. ok (o.0, some o.1)))
        (none_selected (pressed d k input s).0 (pressed d k input s).1 _
          (pressed_index d k input s))
