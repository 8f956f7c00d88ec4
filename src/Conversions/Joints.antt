-- ===== src/Conversions/Joints.antt =====
-- src/Types/Conversions/rock/Joints.hpp.
pub mod Returning
pub mod Short
use robot_remote_control.Base.{
  ℕ, suc, ◌+◌, ◌≤◌, ◌<◌, ◌≡◌, ◌≢◌, refl, List, [], ◌∷◌, ◌++◌, map, Result, ok, fault, Fault, ◌>>=◌,
  read_at, length, length-append, Returns, ◌⊎◌, inl, inr, Option-cases, of_option, get_elem?,
  get_elem?-none, arith,
}
use mathlib.Core.List.{append_assoc}
use native.Mathlib.Decide.{dec_lt}
use robot_remote_control.Bytes.{Bytes}
use robot_remote_control.Conversions.Messages.{JointState, JointCommand}
use robot_remote_control.Conversions.Times.{
  RockTime, to_time_stamp, of_time_stamp, of_time_stamp-to_time_stamp,
}

-- base::JointState, by the members that are written and read.
pub record RockJoint (D : Type 0) : Type 0 where
  pub position : D
  pub speed : D
  pub effort : D
  pub acceleration : D

-- base::samples::Joints
pub record RockJoints (T D : Type 0) : Type 0 where
  pub time : T
  pub names : List Bytes
  pub elements : List (RockJoint D)

module _ (D : Type 0) where
  -- `if (values.size()) { member = values(i); }` for a member that holds `old`.
  unfoldable pub member : List D → ℕ → D → Result D
  member [] i old = ok old
  member (v ∷ vs) i old = read_at (v ∷ vs) i

  -- The loop over the names from the `i`-th on: the joints that it adds to the elements. `fresh` is a
  -- new base::JointState.
  unfoldable pub joints_from :
      RockJoint D → ℕ → List Bytes → List D → List D → List D → List D → Result (List (RockJoint D))
  unfolding member
  joints_from fresh i [] positions velocities efforts accelerations = ok []
  joints_from fresh i (name ∷ names) positions velocities efforts accelerations = do
    position ← member positions i fresh.position
    speed ← member velocities i fresh.speed
    effort ← member efforts i fresh.effort
    acceleration ← member accelerations i fresh.acceleration
    joints ← joints_from fresh (suc i) names positions velocities efforts accelerations
    ok (
        record { position = position; speed = speed; effort = effort; acceleration = acceleration }
        ∷ joints)

  -- The loop over the elements, from the `i`-th on: the names, positions, velocities and efforts that
  -- it adds.
  unfoldable pub rows :
      ℕ → List (RockJoint D) → List Bytes → Result (List Bytes × List D × List D × List D)
  rows i [] names = ok ([], [], [], [])
  rows i (joint ∷ joints) names = do
    name ← read_at names i
    (ns, ps, vs, es) ← rows (suc i) joints names
    ok (name ∷ ns, joint.position ∷ ps, joint.speed ∷ vs, joint.effort ∷ es)

module _ (r : RockTime) (D : Type 0) where
  open r use {Time, to_timeval}

  unfoldable pub of_joint_state : RockJoint D → JointState D → Result (RockJoints Time D)
  unfolding joints_from of_time_stamp
  of_joint_state fresh s = do
    joints ← joints_from D fresh 0 s.name s.position s.velocity s.effort s.acceleration
    ok (record { time = of_time_stamp r s.timestamp; names = s.name; elements = joints })

  unfoldable pub of_joint_command : RockJoint D → JointCommand D → Result (RockJoints Time D)
  unfolding joints_from of_time_stamp
  of_joint_command fresh s = do
    joints ← joints_from D fresh 0 s.name s.position s.velocity s.effort s.acceleration
    ok (record { time = of_time_stamp r s.timestamp; names = s.name; elements = joints })

  -- `rock_type.size()` is the number of the elements. The accelerations of the message are left alone.
  unfoldable pub to_joint_state : RockJoints Time D → JointState D → Result (JointState D)
  unfolding rows to_time_stamp
  to_joint_state joints target = do
    (names, positions, velocities, efforts) ← rows D 0 joints.elements joints.names
    ok (record target {
      timestamp = to_time_stamp r joints.time;
      name = names;
      position = positions;
      velocity = velocities;
      effort = efforts;
    })
