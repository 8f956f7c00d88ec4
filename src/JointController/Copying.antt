-- ===== src/JointController/Copying.antt =====
-- The copying of a joint state into a command.
use robot_remote_control.Base.{ℕ, suc, ◌≡◌, ◌∙◌, refl, List, [], ◌∷◌, ◌++◌, ok, length}
use mathlib.Core.List.{append-nil, append_assoc}
use robot_remote_control.Bytes.{Bytes}
use robot_remote_control.Doubles.{Doubles}
use robot_remote_control.Conversions.Messages.{JointState, JointCommand}
use robot_remote_control.Conversions.RosJoints.{Rest, added-Rest, Rest-nil, begins, Complete}
use robot_remote_control.JointController.{Knob, copy_joints, cleared}

module _ (d : Doubles) (k : Knob d.Float) where
  open d use {Double}

  copy_joints-Rest :
      (from : JointState Double) (i : ℕ) (names : List Bytes)
      (positions velocities efforts accelerations : List Double) (target : JointCommand Double)
      → Rest Double from.position i positions (length names)
      → Rest Double from.velocity i velocities (length names)
      → Rest Double from.effort i efforts (length names)
      → Rest Double from.acceleration i accelerations (length names)
      → copy_joints d k from i names target
        ≡ ok (record target {
          name = target.name ++ names;
          position = target.position ++ positions;
          velocity = target.velocity ++ velocities;
          effort = target.effort ++ efforts;
          acceleration = target.acceleration ++ accelerations;
        })
  unfolding copy_joints
  copy_joints-Rest from i [] positions velocities efforts accelerations target p v e a =
      rw
        (
          Rest-nil Double from.position positions i p,
          Rest-nil Double from.velocity velocities i v,
          Rest-nil Double from.effort efforts i e,
          Rest-nil Double from.acceleration accelerations i a,
        )
        (simp append-nil)
  copy_joints-Rest from i (name ∷ names) positions velocities efforts accelerations target p v e a =
      let n = length names in
      let (ps, ps', pe, pa, pr) = added-Rest Double from.position positions target.position i n p in
      let (vs, vs', ve, va, vr) =
        added-Rest Double from.velocity velocities target.velocity i n v in
      let (es, es', ee, ea, er) = added-Rest Double from.effort efforts target.effort i n e in
      let (cs, cs', ce, ca, cr) =
        added-Rest Double from.acceleration accelerations target.acceleration i n a in
      rw (pe, ve, ee, ce)
        (copy_joints-Rest from (suc i) names ps' vs' es' cs' _ pr vr er cr
          ∙ rw (pa, va, ea, ca, append_assoc) refl)

  -- A state each list of which is empty or as long as the names is copied as a whole.
  pub record IsComplete (state : JointState Double) : Type 0 where
    pub positions : Complete Double state.position state.name
    pub velocities : Complete Double state.velocity state.name
    pub efforts : Complete Double state.effort state.name
    pub accelerations : Complete Double state.acceleration state.name

  pub copy_joints_all :
      (state : JointState Double)
      → IsComplete state
      → copy_joints d k state 0 state.name (cleared d k)
        ≡ ok (record (cleared d k) {
          name = state.name;
          position = state.position;
          velocity = state.velocity;
          effort = state.effort;
          acceleration = state.acceleration;
        })
  copy_joints_all state whole =
      copy_joints-Rest state 0 state.name state.position state.velocity state.effort
        state.acceleration (cleared d k) (begins Double state.position state.name whole.positions)
        (begins Double state.velocity state.name whole.velocities)
        (begins Double state.effort state.name whole.efforts)
        (begins Double state.acceleration state.name whole.accelerations)
