-- ===== src/Conversions/RockSamples.antt =====
-- src/Types/Conversions/rock: RigidBodyState.hpp and SubTrajectory.hpp.
use robot_remote_control.Base.{◌≡◌, refl, ◌∙◌, List, [], ◌∷◌, ◌++◌, map}
use mathlib.Core.List.{append-nil, append_assoc}
use robot_remote_control.Doubles.{Doubles}
use robot_remote_control.Conversions.{Members}
use robot_remote_control.Conversions.Messages.{Pose, Imu}
use robot_remote_control.Conversions.Times.{RockTime, to_time_stamp}
use robot_remote_control.Conversions.Vectors.{
  to_pose, to_pose_2d, to_position, to_orientation, of_orientation,
}

-- base::samples::RigidBodyState, by the members that are converted.
pub record RigidBodyState (T C : Type 0) : Type 0 where
  pub time : T
  pub position : C
  pub orientation : C

module _ (d : Doubles) (m : Members d.Double) where
  open d use {Float, Double}
  open m use {Carrier}

  unfoldable pub imu_to_rigid_body_state :
      {T : Type 0} → Imu Float Double → RigidBodyState T Carrier → RigidBodyState T Carrier
  imu_to_rigid_body_state i target = record target {
    orientation = of_orientation d m i.orientation target.orientation;
  }

  unfoldable pub of_rigid_body_state :
      (r : RockTime) → RigidBodyState r.Time Carrier → Pose Float Double → Pose Float Double
  of_rigid_body_state r from target = record target {
    timestamp = to_time_stamp r from.time;
    position = to_position d m from.position target.position;
    orientation = to_orientation d m from.orientation target.orientation;
  }

  -- trajectory_follower::SubTrajectory, by its member goalPose. `fresh` is a new message.
  unfoldable pub of_sub_trajectories :
      Pose Float Double
      → List (Carrier × Double)
      → List (Pose Float Double)
      → List (Pose Float Double)
  of_sub_trajectories fresh [] target = target
  of_sub_trajectories fresh (goal ∷ goals) target =
      of_sub_trajectories fresh goals (target ++ to_pose_2d d m goal fresh ∷ [])

  -- A state is converted as the pose that it holds is, with its time besides.
  pub of_rigid_body_state-to_pose :
      (r : RockTime) (from : RigidBodyState r.Time Carrier) (target : Pose Float Double)
      → of_rigid_body_state r from target
        ≡ record (to_pose d m (from.position, from.orientation) target) {
          timestamp = to_time_stamp r from.time;
        }
  unfolding of_rigid_body_state to_pose
  of_rigid_body_state-to_pose r from target = refl

  -- The goals of the sub-trajectories are put behind the poses of the message, in their order.
  pub of_sub_trajectories_all :
      (fresh : Pose Float Double) (goals : List (Carrier × Double))
      (target : List (Pose Float Double))
      → of_sub_trajectories fresh goals target
        ≡ target ++ map (λ goal. to_pose_2d d m goal fresh) goals
  unfolding of_sub_trajectories
  of_sub_trajectories_all fresh [] target = simp append-nil
  of_sub_trajectories_all fresh (goal ∷ goals) target =
      of_sub_trajectories_all fresh goals (target ++ to_pose_2d d m goal fresh ∷ [])
      ∙ append_assoc target (to_pose_2d d m goal fresh ∷ [])
          (map (λ goal. to_pose_2d d m goal fresh) goals)
