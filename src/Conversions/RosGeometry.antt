-- ===== src/Conversions/RosGeometry.antt =====
-- src/Types/Conversions/ros/geometry_msgs: Twist.hpp, Acceleration.hpp, Wrench.hpp; and
-- ros/nav_msgs/Odometry.hpp and ros/tf/StampedTransform.hpp, which are read as poses.
use robot_remote_control.Base.{◌≡◌, refl, ◌∙◌, List, [], ◌∷◌, ◌++◌, map}
use mathlib.Core.List.{append-nil, append_assoc}
use robot_remote_control.Base.Int.{to_int}
use robot_remote_control.Bytes.{Bytes}
use robot_remote_control.Doubles.{Doubles}
use robot_remote_control.Conversions.{Members}
use robot_remote_control.Conversions.Messages.{Pose, Twist, Acceleration, Wrench, WrenchState}
use robot_remote_control.Conversions.Vectors.{
  of_vector3, to_vector3, to_pose, to_position, to_orientation,
}
use robot_remote_control.Conversions.Ros.{Header, Stamped, RosTime, to_pose_stamped}

-- nav_msgs::Odometry, by the members that are read: `pose.pose` with its position and orientation.
pub record Odometry (C : Type 0) : Type 0 where
  pub position : C
  pub orientation : C

-- tf::StampedTransform, by what getOrigin and getRotation return.
pub record StampedTransform (C : Type 0) : Type 0 where
  pub origin : C
  pub rotation : C

module _ (d : Doubles) (m : Members d.Double) where
  open d use {Float, Double}
  open m use {Carrier, get, set}

  -- geometry_msgs::Twist, as its members linear and angular.
  unfoldable pub of_twist : Twist Float → Carrier × Carrier → Carrier × Carrier
  of_twist t (linear, angular) = (of_vector3 d m t.linear linear, of_vector3 d m t.angular angular)

  unfoldable pub of_twist_stamped :
      Twist Float → Bytes → RosTime → Stamped (Carrier × Carrier) → Stamped (Carrier × Carrier)
  unfolding of_twist
  of_twist_stamped t frame_id time target = record {
    header = record { sec = time.sec; nsec = time.nsec; frame_id = frame_id };
    content = of_twist t target.content;
  }

  -- The frame is left alone, and `now` is what `ros::Time::now` returns.
  unfoldable pub of_acceleration :
      Acceleration Float → RosTime → Stamped (Carrier × Carrier) → Stamped (Carrier × Carrier)
  of_acceleration a now target =
      let (linear, angular) = target.content in
      record {
        header = record (target.header) { sec = now.sec; nsec = now.nsec };
        content = (of_vector3 d m a.linear linear, of_vector3 d m a.angular angular);
      }

  -- geometry_msgs::Accel, which a twist is converted to.
  unfoldable pub of_twist_as_accel : Twist Float → Carrier × Carrier → Carrier × Carrier
  of_twist_as_accel t (linear, angular) =
      (of_vector3 d m t.linear linear, of_vector3 d m t.angular angular)

  -- geometry_msgs::WrenchStamped, with its members force and torque. `fresh` is a new message.
  unfoldable pub to_wrench_state :
      Wrench Float → Stamped (Carrier × Carrier) → WrenchState Float → WrenchState Float
  to_wrench_state fresh from target =
      let (force, torque) = from.content in
      record {
        timestamp = record { secs = to_int from.header.sec; nsecs = to_int from.header.nsec };
        frame = target.frame ++ from.header.frame_id ∷ [];
        wrenches =
            target.wrenches
            ++ record {
              force = to_vector3 d m force fresh.force;
              torque = to_vector3 d m torque fresh.torque;
            }
              ∷ [];
      }

  unfoldable pub of_odometry : Odometry Carrier → Pose Float Double → Pose Float Double
  of_odometry from target = record target {
    position = record { x = get 0 from.position; y = get 1 from.position; z = get 2 from.position };
    orientation = record {
      x = get 0 from.orientation;
      y = get 1 from.orientation;
      z = get 2 from.orientation;
      w = get 3 from.orientation;
    };
  }

  unfoldable pub of_transform : StampedTransform Carrier → Pose Float Double → Pose Float Double
  of_transform from target = record target {
    position = record { x = get 0 from.origin; y = get 1 from.origin; z = get 2 from.origin };
    orientation = record {
      x = get 0 from.rotation;
      y = get 1 from.rotation;
      z = get 2 from.rotation;
      w = get 3 from.rotation;
    };
  }

  -- A position and an orientation are converted to the same message whether they come as a pose, as an
  -- odometry or as a transform; the message keeps its timestamp, which none of the three sets.
  pub of_odometry_lem :
      (header : Header) (position orientation : Carrier) (target : Pose Float Double)
      → (of_odometry (record { position = position; orientation = orientation }) target
          ≡ to_pose_stamped d m
              (record { header = header; content = (position, orientation) })
              target)
        × (of_transform (record { origin = position; rotation = orientation }) target
            ≡ to_pose_stamped d m
                (record { header = header; content = (position, orientation) })
                target)
        × ((of_odometry
              (record { position = position; orientation = orientation })
              target).timestamp
            ≡ target.timestamp)
  unfolding of_odometry of_transform to_pose_stamped to_pose to_position to_orientation
  of_odometry_lem header position orientation target = (refl, refl, refl)

  -- One message after the other is converted to the same target.
  unfoldable pub to_wrench_states :
      Wrench Float → List (Stamped (Carrier × Carrier)) → WrenchState Float → WrenchState Float
  to_wrench_states fresh [] target = target
  to_wrench_states fresh (w ∷ ws) target =
      to_wrench_states fresh ws (to_wrench_state fresh w target)

  abbrev pub wrench_of : Wrench Float → Stamped (Carrier × Carrier) → Wrench Float
  wrench_of fresh from = record {
    force = to_vector3 d m from.content.0 fresh.force;
    torque = to_vector3 d m from.content.1 fresh.torque;
  }

  -- The wrenches of several messages add up in a message that they are converted to, each with the frame
  -- at its place, behind what the message held.
  pub to_wrench_states_all :
      (fresh : Wrench Float) (ws : List (Stamped (Carrier × Carrier))) (target : WrenchState Float)
      → ((to_wrench_states fresh ws target).frame ≡ target.frame ++ map (λ w. w.header.frame_id) ws)
        × ((to_wrench_states fresh ws target).wrenches
            ≡ target.wrenches ++ map (wrench_of fresh) ws)
  unfolding to_wrench_states to_wrench_state
  to_wrench_states_all fresh [] target = (simp append-nil, simp append-nil)
  to_wrench_states_all fresh (w ∷ ws) target =
      let (frames, wrenches) = to_wrench_states_all fresh ws (to_wrench_state fresh w target) in
      (
        frames
            ∙ append_assoc target.frame (w.header.frame_id ∷ []) (map (λ w. w.header.frame_id) ws),
        wrenches ∙ append_assoc target.wrenches (wrench_of fresh w ∷ []) (map (wrench_of fresh) ws),
      )
