-- ===== src/Conversions/Joints/Returning.antt =====
-- Joints that are converted to a message and back.
use robot_remote_control.Base.{
  suc, ◌<◌, ◌≡◌, refl, List, [], ◌∷◌, ◌++◌, map, ok, read_at, length, length-append, Returns, arith,
}
use mathlib.Core.List.{append_assoc}
use robot_remote_control.Bytes.{Bytes}
use robot_remote_control.Conversions.Messages.{JointState}
use robot_remote_control.Conversions.Times.{RockTime, of_time_stamp-to_time_stamp}
use robot_remote_control.Conversions.Joints.{
  RockJoint, RockJoints, member, joints_from, rows, of_joint_state, to_joint_state,
}

module _ (D : Type 0) where
  read_at-append : {A : Type 0} (xs ys : List A) (a : A) → read_at (xs ++ a ∷ ys) (length xs) ≡ ok a
  read_at-append [] ys a = refl
  read_at-append (x ∷ xs) ys a = read_at-append xs ys a

  read_at-map :
      (f : RockJoint D → D) (before after : List (RockJoint D)) (joint : RockJoint D)
      → read_at (map f (before ++ joint ∷ after)) (length before) ≡ ok (f joint)
  read_at-map f [] after joint = refl
  read_at-map f (b ∷ before) after joint = read_at-map f before after joint

  member-map :
      (f : RockJoint D → D) (before after : List (RockJoint D)) (joint : RockJoint D) (old : D)
      → member D (map f (before ++ joint ∷ after)) (length before) old ≡ ok (f joint)
  unfolding member
  member-map f [] after joint old = refl
  member-map f (b ∷ before) after joint old = read_at-map f before after joint

  length-snoc : {A : Type 0} (xs : List A) (a : A) → length (xs ++ a ∷ []) ≡ suc (length xs)
  length-snoc xs a = omega (arith, length-append xs (a ∷ []))

  rows_all :
      (joints : List (RockJoint D)) (before names : List Bytes)
      → length names ≡ length joints
      → rows D (length before) joints (before ++ names)
        ≡ ok (
          names,
          map (λ j. j.position) joints,
          map (λ j. j.speed) joints,
          map (λ j. j.effort) joints,
        )
  unfolding rows
  rows_all [] before [] same = refl
  rows_all [] before (name ∷ names) same = absurd (omega arith)
  rows_all (joint ∷ joints) before [] same = absurd (omega arith)
  rows_all (joint ∷ joints) before (name ∷ names) same =
      let rest =
        rw (append_assoc before (name ∷ []) names, length-snoc before name) at
          (rows_all joints (before ++ name ∷ []) names (omega arith)) in
      rw (read_at-append before names name, rest)

  -- What is left of a joint in a message without accelerations.
  abbrev pub without_acceleration : RockJoint D → RockJoint D → RockJoint D
  without_acceleration fresh joint = record joint { acceleration = fresh.acceleration }

  joints_from_all :
      (fresh : RockJoint D) (joints before : List (RockJoint D)) (names : List Bytes)
      → length names ≡ length joints
      → joints_from D fresh
          (length before)
          names
          (map (λ j. j.position) (before ++ joints))
          (map (λ j. j.speed) (before ++ joints))
          (map (λ j. j.effort) (before ++ joints))
          []
        ≡ ok (map (without_acceleration fresh) joints)
  unfolding joints_from member
  joints_from_all fresh [] before [] same = refl
  joints_from_all fresh [] before (name ∷ names) same = absurd (omega arith)
  joints_from_all fresh (joint ∷ joints) before [] same = absurd (omega arith)
  joints_from_all fresh (joint ∷ joints) before (name ∷ names) same =
      let rest =
        rw (append_assoc before (joint ∷ []) joints, length-snoc before joint) at
          (joints_from_all fresh joints (before ++ joint ∷ []) names (omega arith)) in
      rw (
        member-map (λ j. j.position) before joints joint fresh.position,
        member-map (λ j. j.speed) before joints joint fresh.speed,
        member-map (λ j. j.effort) before joints joint fresh.effort,
        rest,
      )

module _ (r : RockTime) (D : Type 0) where
  open r use {Time, to_timeval}

  -- Joints with as many names as elements that are converted to a message which holds no accelerations,
  -- and back, are the same but for their accelerations, which are those of a new joint. Their time is
  -- before the year 2038.
  pub of_joint_state-to_joint_state :
      (fresh : RockJoint D) (joints : RockJoints Time D) (target : JointState D)
      → length joints.names ≡ length joints.elements
      → target.acceleration ≡ []
      → (to_timeval joints.time).0 < 2_147_483_648
      → Returns (to_joint_state r D joints target) (λ s.
        of_joint_state r D fresh s
        ≡ ok (record joints { elements = map (without_acceleration D fresh) joints.elements }))
  unfolding of_joint_state to_joint_state
  of_joint_state-to_joint_state fresh joints target same none_held early =
      rw (rows_all D joints.elements [] joints.names same) (
        rw
          (
            none_held,
            joints_from_all D fresh joints.elements [] joints.names same,
            of_time_stamp-to_time_stamp r joints.time early,
          )
          refl)
