-- ===== src/ControlledRobot/Setters.antt =====
-- src/ControlledRobot/ControlledRobot.hpp: the setters of telemetry, each a call of `sendTelemetry`
-- for one class and one type, and the callbacks that the application sets up.
use robot_remote_control.Base.{
  lookup, ℕ, ◌≡◌, refl, Bool, true, false, some, ◌++◌, Result, ok, ◌>>=◌, Returns,
}
use robot_remote_control.Base.Int.{ℤ}
use robot_remote_control.Bytes.{encode_uint16}
use robot_remote_control.Types.{Kind}
use robot_remote_control.MessageTypes.Control
use robot_remote_control.MessageTypes.Telemetry
use robot_remote_control.Transport.{none_flag}
use robot_remote_control.Env.{Env}
use robot_remote_control.ControlledRobot.{Robot, telemetry_types}
use robot_remote_control.ControlledRobot.Sending.{send_telemetry}
use robot_remote_control.ControlledRobot.Requests.{evaluate_request, send_reply}
use robot_remote_control.ControlledRobot.Reachable.{Reachable, Reachable-send_telemetry}

pub data Setter : Type 0 where
  init_controllable_joints init_simple_actions init_complex_actions : Setter
  init_simple_sensors init_maps_definition init_robot_name init_video_streams : Setter
  set_robot_state set_current_pose set_current_twist set_current_acceleration : Setter
  set_current_imu_values set_current_contact_points set_poses set_joint_state : Setter
  set_wrench_state set_simple_sensor set_point_cloud set_current_transforms : Setter

-- The type, the class and the argument `requestOnly` of the call.
abbrev pub setter_type : Setter → ℕ
setter_type Setter.init_controllable_joints = Telemetry.controllable_joints
setter_type Setter.init_simple_actions = Telemetry.simple_actions
setter_type Setter.init_complex_actions = Telemetry.complex_actions
setter_type Setter.init_simple_sensors = Telemetry.simple_sensor_definition
setter_type Setter.init_maps_definition = Telemetry.maps_definition
setter_type Setter.init_robot_name = Telemetry.robot_name
setter_type Setter.init_video_streams = Telemetry.video_streams
setter_type Setter.set_robot_state = Telemetry.robot_state
setter_type Setter.set_current_pose = Telemetry.current_pose
setter_type Setter.set_current_twist = Telemetry.current_twist
setter_type Setter.set_current_acceleration = Telemetry.current_acceleration
setter_type Setter.set_current_imu_values = Telemetry.imu_values
setter_type Setter.set_current_contact_points = Telemetry.contact_points
setter_type Setter.set_poses = Telemetry.poses
setter_type Setter.set_joint_state = Telemetry.joint_state
setter_type Setter.set_wrench_state = Telemetry.wrench_state
setter_type Setter.set_simple_sensor = Telemetry.simple_sensor_value
setter_type Setter.set_point_cloud = Telemetry.pointcloud
setter_type Setter.set_current_transforms = Telemetry.transforms

abbrev pub setter_class : Setter → Kind
setter_class Setter.init_controllable_joints = Kind.joint_state
setter_class Setter.init_simple_actions = Kind.simple_actions
setter_class Setter.init_complex_actions = Kind.complex_actions
setter_class Setter.init_simple_sensors = Kind.simple_sensors
setter_class Setter.init_maps_definition = Kind.maps_definition
setter_class Setter.init_robot_name = Kind.robot_name
setter_class Setter.init_video_streams = Kind.video_streams
setter_class Setter.set_robot_state = Kind.robot_state
setter_class Setter.set_current_pose = Kind.pose
setter_class Setter.set_current_twist = Kind.twist
setter_class Setter.set_current_acceleration = Kind.acceleration
setter_class Setter.set_current_imu_values = Kind.imu
setter_class Setter.set_current_contact_points = Kind.contact_points
setter_class Setter.set_poses = Kind.poses
setter_class Setter.set_joint_state = Kind.joint_state
setter_class Setter.set_wrench_state = Kind.wrench_state
setter_class Setter.set_simple_sensor = Kind.simple_sensor
setter_class Setter.set_point_cloud = Kind.point_cloud
setter_class Setter.set_current_transforms = Kind.transforms

abbrev pub setter_request_only : Setter → Bool
setter_request_only Setter.init_maps_definition = true
setter_request_only _ = false

pub registered_class : (s : Setter) → lookup (setter_type s) telemetry_types ≡ some (setter_class s)
registered_class Setter.init_controllable_joints = refl
registered_class Setter.init_simple_actions = refl
registered_class Setter.init_complex_actions = refl
registered_class Setter.init_simple_sensors = refl
registered_class Setter.init_maps_definition = refl
registered_class Setter.init_robot_name = refl
registered_class Setter.init_video_streams = refl
registered_class Setter.set_robot_state = refl
registered_class Setter.set_current_pose = refl
registered_class Setter.set_current_twist = refl
registered_class Setter.set_current_acceleration = refl
registered_class Setter.set_current_imu_values = refl
registered_class Setter.set_current_contact_points = refl
registered_class Setter.set_poses = refl
registered_class Setter.set_joint_state = refl
registered_class Setter.set_wrench_state = refl
registered_class Setter.set_simple_sensor = refl
registered_class Setter.set_point_cloud = refl
registered_class Setter.set_current_transforms = refl

module _ (env : Env) where
  open env.protobuf use {Message, kind_of, serialize}
  open env.transport use {State, send}

  unfoldable pub set_telemetry : Setter → Message → Robot env → Result (ℤ × Robot env)
  set_telemetry s m r = send_telemetry env m (setter_type s) (setter_request_only s) r

  -- Whatever a robot went through, what any of its setters is given is what the next request for the
  -- setter's type is answered with, also where the setter does not send it. The setter returns if the
  -- transport sends.
  pub set_telemetry-evaluate_request :
      (s : Setter) (m : Message) (r : Robot env) (t : State) (bytes : ℕ)
      → Reachable env r
      → kind_of m ≡ setter_class s
      → r.telemetry_transport ≡ some t
      → (send (encode_uint16 (setter_type s) ++ serialize m) none_flag t).0 ≡ some bytes
      → Returns (set_telemetry s m r) (λ out.
        evaluate_request env
          (encode_uint16 Control.telemetry_request ++ encode_uint16 (setter_type s))
          out.1
        ≡ (send_reply env (serialize m) out.1 >>= λ r'. ok (Control.telemetry_request, r')))
  unfolding set_telemetry
  set_telemetry-evaluate_request s m r t bytes reached same connected sends =
      Reachable-send_telemetry env r m (setter_type s) bytes (setter_request_only s) t reached
        (rw same (registered_class s)) connected sends
