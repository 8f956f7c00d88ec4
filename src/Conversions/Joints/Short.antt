-- ===== src/Conversions/Joints/Short.antt =====
-- Commands whose lists are shorter than the names.
use robot_remote_control.Base.{
  ℕ, suc, ◌+◌, ◌≤◌, ◌<◌, ◌≡◌, ◌≢◌, refl, List, [], ◌∷◌, ok, fault, Fault, length, ◌⊎◌, inl, inr,
  Option-cases, of_option, get_elem?, get_elem?-none, arith,
}
use native.Mathlib.Decide.{dec_lt}
use robot_remote_control.Bytes.{Bytes}
use robot_remote_control.Conversions.Messages.{JointCommand}
use robot_remote_control.Conversions.Times.{RockTime}
use robot_remote_control.Conversions.Joints.{RockJoint, member, joints_from, of_joint_command}

module _ (D : Type 0) where
  member-cases :
      (values : List D) (i : ℕ) (old : D)
      → (member D values i old ≡ fault Fault.out_of_bounds)
        ⊎ ((v : D) × (member D values i old ≡ ok v))
  unfolding member
  member-cases [] i old = inr (old, refl)
  member-cases (v ∷ vs) i old = elim (Option-cases (get_elem? (v ∷ vs) i)) [
    | inl e ↦ inl (rw (e, of_option))
    | inr (a, e) ↦ inr (a, rw (e, of_option))
  ]

  member_short :
      (values : List D) (i : ℕ) (old : D)
      → length values ≢ 0
      → length values ≤ i
      → member D values i old ≡ fault Fault.out_of_bounds
  unfolding member
  member_short [] i old some_value short = absurd (some_value refl)
  member_short (v ∷ vs) i old some_value short = rw (get_elem?-none (v ∷ vs) i short)

  joints_from_short :
      (fresh : RockJoint D) (i : ℕ) (names : List Bytes)
      (positions velocities efforts accelerations : List D)
      → length positions ≢ 0
      → i ≤ length positions
      → length positions < i + length names
      → joints_from D fresh i names positions velocities efforts accelerations
        ≡ fault Fault.out_of_bounds
  unfolding joints_from
  joints_from_short fresh i [] positions velocities efforts accelerations some_value from short =
      absurd (omega arith)
  joints_from_short fresh i (name ∷ names) positions velocities efforts accelerations some_value
        from short =
      elim (dec_lt i (length positions)) [
        | no late ↦ rw (member_short positions i fresh.position some_value (omega arith)) refl
        | yes early ↦
            let rest =
              joints_from_short fresh (suc i) names positions velocities efforts accelerations
                some_value (omega arith) (omega arith) in
            elim (member-cases positions i fresh.position) [
              | inl e ↦ rw e refl
              | inr (p, e) ↦ rw e (elim (member-cases velocities i fresh.speed) [
                | inl e ↦ rw e refl
                | inr (v, e) ↦ rw e (elim (member-cases efforts i fresh.effort) [
                  | inl e ↦ rw e refl
                  | inr (f, e) ↦ rw e (elim (member-cases accelerations i fresh.acceleration) [
                    | inl e ↦ rw e refl
                    | inr (a, e) ↦ rw (e, rest) refl
                  ])
                ])
              ])
            ]
      ]

module _ (r : RockTime) (D : Type 0) where
  open r use {Time, to_timeval}

  -- A command with some positions, but fewer than names, makes the conversion read out of bounds.
  pub of_joint_command_short :
      (fresh : RockJoint D) (s : JointCommand D)
      → length s.position ≢ 0
      → length s.position < length s.name
      → of_joint_command r D fresh s ≡ fault Fault.out_of_bounds
  unfolding of_joint_command
  of_joint_command_short fresh s some_value short =
      rw
        (joints_from_short D fresh 0 s.name s.position s.velocity s.effort s.acceleration some_value
          (omega arith) (omega arith))
        refl
