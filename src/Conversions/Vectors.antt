-- ===== src/Conversions/Vectors.antt =====
-- src/Types/Conversions/rock/Eigen.hpp, rock/Pose.hpp, rock/IMUSensors.hpp, and ros/geometry_msgs: the
-- conversions of vectors, orientations and poses, and that they are inverse to each other.
use robot_remote_control.Base.{◌≡◌}
use robot_remote_control.Doubles.{Doubles}
use robot_remote_control.Conversions.{Members}
use robot_remote_control.Conversions.Messages.{Vector2, Vector3, Position, Orientation, Pose, Imu}

module _ (d : Doubles) (m : Members d.Double) where
  open d use {Float, Double, narrow, widen, narrow-widen}
  open m use {Carrier, get, set, get-set}

  -- base::Vector3d
  unfoldable pub of_vector3 : Vector3 Float → Carrier → Carrier
  of_vector3 v target = set 2 (widen v.z) (set 1 (widen v.y) (set 0 (widen v.x) target))

  unfoldable pub to_vector3 : Carrier → Vector3 Float → Vector3 Float
  to_vector3 v target = record { x = narrow (get 0 v); y = narrow (get 1 v); z = narrow (get 2 v) }

  unfoldable pub to_position : Carrier → Position Double → Position Double
  to_position v target = record { x = get 0 v; y = get 1 v; z = get 2 v }

  unfoldable pub of_position : Position Double → Carrier → Carrier
  of_position v target = set 2 v.z (set 1 v.y (set 0 v.x target))

  -- base::Vector2d
  unfoldable pub of_vector2 : Vector2 Float → Carrier → Carrier
  of_vector2 v target = set 1 (widen v.y) (set 0 (widen v.x) target)

  unfoldable pub to_vector2 : Carrier → Vector2 Float → Vector2 Float
  to_vector2 v target = record { x = narrow (get 0 v); y = narrow (get 1 v) }

  -- base::Orientation, and geometry_msgs::Quaternion
  unfoldable pub to_orientation : Carrier → Orientation Double → Orientation Double
  to_orientation v target = record { x = get 0 v; y = get 1 v; z = get 2 v; w = get 3 v }

  unfoldable pub of_orientation : Orientation Double → Carrier → Carrier
  of_orientation o target = set 3 o.w (set 2 o.z (set 1 o.y (set 0 o.x target)))

  -- base::Pose, by its position and its orientation. The other fields of the message are left alone.
  unfoldable pub to_pose : Carrier × Carrier → Pose Float Double → Pose Float Double
  unfolding to_position to_orientation
  to_pose (position, orientation) target = record target {
    position = to_position position target.position;
    orientation = to_orientation orientation target.orientation;
  }

  unfoldable pub of_pose : Pose Float Double → Carrier × Carrier → Carrier × Carrier
  unfolding of_position of_orientation
  of_pose p (position, orientation) =
      (of_position p.position position, of_orientation p.orientation orientation)

  -- base::Pose2D, by its position and its orientation.
  unfoldable pub to_pose_2d : Carrier × Double → Pose Float Double → Pose Float Double
  to_pose_2d (position, orientation) target = record target {
    position = record (target.position) { x = get 0 position; y = get 1 position };
    orientation2d = narrow orientation;
  }

  -- base::samples::IMUSensors, by its members acc, gyro and mag.
  unfoldable pub of_imu :
      Imu Float Double → Carrier × Carrier × Carrier → Carrier × Carrier × Carrier
  unfolding of_vector3
  of_imu i (acc, gyro, mag) =
      (of_vector3 i.acceleration acc, of_vector3 i.gyro gyro, of_vector3 i.mag mag)

  unfoldable pub to_imu : Carrier × Carrier × Carrier → Imu Float Double → Imu Float Double
  unfolding to_vector3
  to_imu (acc, gyro, mag) target = record target {
    acceleration = to_vector3 acc target.acceleration;
    gyro = to_vector3 gyro target.gyro;
    mag = to_vector3 mag target.mag;
  }

  pub to_vector3-of_vector3 :
      (v u : Vector3 Float) (t : Carrier) → to_vector3 (of_vector3 v t) u ≡ v
  unfolding to_vector3 of_vector3
  to_vector3-of_vector3 v u t = simp (get-set, narrow-widen)

  pub to_position-of_position :
      (v u : Position Double) (t : Carrier) → to_position (of_position v t) u ≡ v
  unfolding to_position of_position
  to_position-of_position v u t = simp get-set

  pub to_orientation-of_orientation :
      (v u : Orientation Double) (t : Carrier) → to_orientation (of_orientation v t) u ≡ v
  unfolding to_orientation of_orientation
  to_orientation-of_orientation v u t = simp get-set

  pub to_vector2-of_vector2 :
      (v u : Vector2 Float) (t : Carrier) → to_vector2 (of_vector2 v t) u ≡ v
  unfolding to_vector2 of_vector2
  to_vector2-of_vector2 v u t = simp (get-set, narrow-widen)

  -- A pose that is converted to ROCK and back, whatever the objects held that it is written to, is the
  -- same in its position and its orientation; the timestamp and the planar orientation of the message
  -- that it is written to are left alone. The same goes for the three vectors of an IMU message, whose
  -- orientation is left alone.
  pub to_pose-of_pose :
      (p u : Pose Float Double) (t : Carrier × Carrier) (i j : Imu Float Double)
      (s : Carrier × Carrier × Carrier)
      → (to_pose (of_pose p t) u
          ≡ record p { orientation2d = u.orientation2d; timestamp = u.timestamp })
        × (to_imu (of_imu i s) j ≡ record i { orientation = j.orientation })
  unfolding to_pose of_pose to_imu of_imu
  to_pose-of_pose p u (t, t') i j (a, b, c) = (
    rw (
      to_position-of_position p.position u.position t,
      to_orientation-of_orientation p.orientation u.orientation t',
    ),
    rw (
      to_vector3-of_vector3 i.acceleration j.acceleration a,
      to_vector3-of_vector3 i.gyro j.gyro b,
      to_vector3-of_vector3 i.mag j.mag c,
    ),
  )
