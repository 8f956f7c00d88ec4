-- ===== src/Conversions/RosSensors.antt =====
-- src/Types/Conversions/ros/sensor_msgs: Imu.hpp, PointCloud.hpp and PointCloud2.hpp.
use robot_remote_control.Base.{◌≡◌, ap, ◌∙◌, List, [], ◌∷◌, ◌++◌, map}
use mathlib.Core.List.{append-nil, append_assoc}
use robot_remote_control.Doubles.{Doubles}
use robot_remote_control.Conversions.{Members}
use robot_remote_control.Conversions.Messages.{Position, Imu, PointCloud}
use robot_remote_control.Conversions.Vectors.{
  of_vector3, to_vector3, to_vector3-of_vector3, to_orientation, of_orientation,
  to_orientation-of_orientation,
}

-- sensor_msgs::Imu, by the members that are converted.
pub record RosImu (C : Type 0) : Type 0 where
  pub orientation : C
  pub angular_velocity : C
  pub linear_acceleration : C

module _ (d : Doubles) (m : Members d.Double) where
  open d use {Float, Double, widen}
  open m use {Carrier, get}

  unfoldable pub of_imu_message : Imu Float Double → RosImu Carrier → RosImu Carrier
  of_imu_message i target = record {
    orientation = of_orientation d m i.orientation target.orientation;
    angular_velocity = of_vector3 d m i.gyro target.angular_velocity;
    linear_acceleration = of_vector3 d m i.acceleration target.linear_acceleration;
  }

  unfoldable pub to_imu_message : RosImu Carrier → Imu Float Double → Imu Float Double
  to_imu_message from target = record target {
    orientation = to_orientation d m from.orientation target.orientation;
    gyro = to_vector3 d m from.angular_velocity target.gyro;
    acceleration = to_vector3 d m from.linear_acceleration target.acceleration;
  }

  -- An IMU message that is converted to ROS and back, whatever the objects held that it is written to,
  -- is the same but for its magnetic field, which is the one of the message that it is written to.
  pub to_imu_message-of_imu_message :
      (i j : Imu Float Double) (s : RosImu Carrier)
      → to_imu_message (of_imu_message i s) j ≡ record i { mag = j.mag }
  unfolding to_imu_message of_imu_message
  to_imu_message-of_imu_message i j s = rw (
    to_orientation-of_orientation d m i.orientation j.orientation s.orientation,
    to_vector3-of_vector3 d m i.gyro j.gyro s.angular_velocity,
    to_vector3-of_vector3 d m i.acceleration j.acceleration s.linear_acceleration,
  )

  -- The loop over the points, which have the members x, y and z of type `float`.
  unfoldable pub add_points :
      List (Float × Float × Float) → List (Position Double) → List (Position Double)
  add_points [] target = target
  add_points ((x, y, z) ∷ points) target =
      add_points points (target ++ record { x = widen x; y = widen y; z = widen z } ∷ [])

  -- sensor_msgs::PointCloud, by its points.
  unfoldable pub to_cloud :
      List (Float × Float × Float) → PointCloud Float Double → PointCloud Float Double
  unfolding add_points
  to_cloud points target = record target { points = add_points points target.points }

  -- sensor_msgs::PointCloud2; `unpacked` is what convertPointCloud2ToPointCloud makes of it.
  unfoldable pub to_cloud_2 :
      {P : Type 0}
      → (P → List (Float × Float × Float))
      → P
      → PointCloud Float Double
      → PointCloud Float Double
  unfolding to_cloud
  to_cloud_2 unpacked cloud target = to_cloud (unpacked cloud) target

  abbrev pub point_of : Float × Float × Float → Position Double
  point_of (x, y, z) = record { x = widen x; y = widen y; z = widen z }

  add_points-append :
      (points : List (Float × Float × Float)) (target : List (Position Double))
      → add_points points target ≡ target ++ map point_of points
  unfolding add_points
  add_points-append [] target = simp append-nil
  add_points-append (p ∷ points) target =
      add_points-append points (target ++ point_of p ∷ [])
      ∙ append_assoc target (point_of p ∷ []) (map point_of points)

  -- The points of a cloud are put behind those of the message. The frame, the time and the channels of
  -- the cloud are not converted.
  pub to_cloud_lem :
      (points : List (Float × Float × Float)) (target : PointCloud Float Double)
      → to_cloud points target ≡ record target { points = target.points ++ map point_of points }
  unfolding to_cloud
  to_cloud_lem points target =
      ap (λ ps. record target { points = ps }) (add_points-append points target.points)
