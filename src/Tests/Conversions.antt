-- ===== src/Tests/Conversions.antt =====
-- Concrete cases for the conversions, with whole numbers, and times counted in microseconds.
use robot_remote_control.Base.{
  ℕ, ◌+◌, ◌*◌, ◌/◌, ◌%◌, ◌<◌, ◌≡◌, refl, some, none, Option, [], ◌∷◌, map, Result, ok, fault, Fault,
  length, All, Returns, ◌==◌, ◌&&◌, if◌then◌else◌, arith,
}
use robot_remote_control.Base.Int.{ℤ, pos, pos_part}
use robot_remote_control.Doubles.{whole}
use robot_remote_control.Conversions.{functions}
use robot_remote_control.Conversions.Messages.{
  TimeStamp, Position, Pose, JointState, PointCloud, Poses, SimpleSensor,
}
use robot_remote_control.Conversions.Times.{
  RockTime, to_time_stamp, of_time_stamp, of_time_stamp-to_time_stamp,
}
use robot_remote_control.Conversions.Joints.{RockJoint, RockJoints, of_joint_state, to_joint_state}
use robot_remote_control.Conversions.Joints.Returning.{
  without_acceleration, of_joint_state-to_joint_state,
}
use robot_remote_control.Conversions.Pointcloud.{
  Cloud, color_rgba, to_point_cloud, of_point_cloud, to_point_cloud-of_point_cloud,
}
use robot_remote_control.Conversions.Mls.{to_simple_sensor, of_simple_sensor}
use robot_remote_control.Conversions.Mls.Patches.{Placed, of_simple_sensor-Placed}
use robot_remote_control.Conversions.Mls.Filling.{to_simple_sensor_new}
use robot_remote_control.Conversions.Ros.{Stamped, RosTime, zipped, of_poses, of_poses_lem}

abbrev join : ℤ → ℤ → ℕ
join secs usecs = pos_part secs * 1_000_000 + pos_part usecs

in_microseconds : (t : ℕ) → t % 1_000_000 < 1_000_000
in_microseconds t = omega arith

joined_again : (t : ℕ) → join (pos (t / 1_000_000)) (pos (t % 1_000_000)) ≡ t
joined_again t = omega arith

abbrev times : RockTime
times = record {
  Time = ℕ;
  to_timeval = λ t. (t / 1_000_000, t % 1_000_000);
  from_seconds = join;
  microseconds = in_microseconds;
  from_seconds-to_timeval = joined_again;
}

of_time_stamp-to_time_stamp_example :
    of_time_stamp times (to_time_stamp times 1_234_000_005) ≡ 1_234_000_005
of_time_stamp-to_time_stamp_example = of_time_stamp-to_time_stamp times 1_234_000_005 (omega arith)

abbrev epoch : TimeStamp
epoch = record { secs = pos 0; nsecs = pos 0 }

abbrev joint : ℕ → RockJoint ℕ
joint n = record { position = n; speed = n + 1; effort = n + 2; acceleration = n + 3 }

abbrev two_joints : RockJoints ℕ ℕ
two_joints = record {
  time = 5;
  names = (1 ∷ []) ∷ (2 ∷ []) ∷ [];
  elements = joint 10 ∷ joint 20 ∷ [];
}

abbrev no_joints : JointState ℕ
no_joints = record {
  name = [];
  position = [];
  velocity = [];
  effort = [];
  acceleration = [];
  timestamp = epoch;
}

of_joint_state-to_joint_state_example : Returns (to_joint_state times ℕ two_joints no_joints) (λ s.
    of_joint_state times ℕ (joint 0) s
    ≡ ok (record two_joints {
      elements = map (without_acceleration ℕ (joint 0)) two_joints.elements;
    }))
of_joint_state-to_joint_state_example =
    of_joint_state-to_joint_state times ℕ (joint 0) two_joints no_joints refl refl (omega arith)

abbrev corner : ℕ → Position ℕ
corner n = record { x = n; y = n; z = n }

abbrev cloud : PointCloud ℕ ℕ
cloud = record {
  timestamp = epoch;
  frame = 7 ∷ [];
  points = corner 1 ∷ corner 2 ∷ [];
  channels = record { name = color_rgba; values = 1 ∷ 2 ∷ 3 ∷ 4 ∷ [] } ∷ [];
}

abbrev no_cloud : PointCloud ℕ ℕ
no_cloud = record { timestamp = epoch; frame = []; points = []; channels = [] }

abbrev zeros : ℕ → ℕ
zeros i = 0

abbrev rock_cloud : Cloud whole times (functions ℕ) (functions ℕ)
rock_cloud = record { time = 0; points = []; colors = zeros ∷ [] }

abbrev back : Cloud whole times (functions ℕ) (functions ℕ)
back = of_point_cloud whole times (functions ℕ) (functions ℕ) zeros zeros cloud rock_cloud

to_point_cloud-of_point_cloud_example :
    (back.colors ≡ [])
    × (to_point_cloud whole times (functions ℕ) (functions ℕ) (corner 0) back (9 ∷ []) no_cloud
        ≡ record cloud { timestamp = epoch; frame = 9 ∷ []; channels = [] })
to_point_cloud-of_point_cloud_example =
    to_point_cloud-of_point_cloud whole times (functions ℕ) (functions ℕ) zeros zeros (corner 0)
      (9 ∷ []) cloud no_cloud rock_cloud refl refl

-- A height map of 2 by 3 cells, of which the message has the first two rows.
abbrev heights : SimpleSensor ℕ
heights = record {
  name = [];
  size = record { x = 2; y = 3 };
  value = 4 ∷ 5 ∷ 6 ∷ 7 ∷ [];
  scale = record { x = 1; y = 1 };
}

of_simple_sensor-Placed_example :
    Returns
      (of_simple_sensor whole heights)
      (λ out. (out.0 ≡ (2, 3)) × All (Placed ℕ 2 3 heights.value) out.1 × (length out.1 ≡ 4))
of_simple_sensor-Placed_example =
    of_simple_sensor-Placed whole heights 2 3 refl refl (omega arith) (omega arith) (omega arith)

abbrev cells : ℕ → ℕ → Result (Option ℕ)
cells x y = ok (if x == 1 && y == 0 then some 8 else none)

to_simple_sensor_new_example :
    to_simple_sensor whole (2, 3) (1, 1) cells [] (record heights { value = [] })
    ≡ fault Fault.out_of_bounds
to_simple_sensor_new_example =
    to_simple_sensor_new whole 2 3 (1, 1) cells [] (record heights { value = [] }) 1 0 8 refl
      (omega arith) (λ i j row column. (if i == 1 && j == 0 then some 8 else none, refl))
      (omega arith) (omega arith) refl

abbrev stand : ℕ → Pose ℕ ℕ
stand n = record {
  position = corner n;
  orientation = record { x = n; y = n; z = n; w = n };
  orientation2d = 0;
  timestamp = epoch;
}

abbrev way : Poses ℕ ℕ
way = record { timestamp = epoch; frame = []; poses = stand 1 ∷ stand 2 ∷ [] }

abbrev unset : Stamped ((ℕ → ℕ) × (ℕ → ℕ))
unset = record {
  header = record { sec = 1; nsec = 2; frame_id = 7 ∷ [] };
  content = (zeros, zeros);
}

abbrev now : ℕ → RosTime
now i = record { sec = 5; nsec = i }

of_poses_lem_example :
    of_poses whole (functions ℕ) now way (unset ∷ unset ∷ unset ∷ [])
    ≡ ok (zipped whole (functions ℕ) now 0 way.poses (unset ∷ unset ∷ unset ∷ []))
of_poses_lem_example = of_poses_lem whole (functions ℕ) now way (unset ∷ unset ∷ unset ∷ [])
