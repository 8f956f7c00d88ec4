-- ===== src/ControlledRobot.antt =====
-- src/ControlledRobot/ControlledRobot.hpp: the state of `ControlledRobot` and its constructor.
pub mod Commands
pub mod Promises
pub mod Sending
pub mod Requests
pub mod Update
pub mod Replies
pub mod Stored
pub mod Handling
pub mod Granting
pub mod Logging
pub mod Heartbeat
pub mod Sound
pub mod Keeping
pub mod Setup
pub mod Reachable
pub mod Setters
pub mod Getters
use robot_remote_control.Base.{
  ℕ, ◌-◌, Bool, false, Option, List, [], ◌∷◌, Result, ok, ◌>>=◌, insert,
}
use robot_remote_control.Bytes.{Bytes}
use robot_remote_control.Types.{Kind}
use robot_remote_control.MessageTypes.Control
use robot_remote_control.MessageTypes.Telemetry
use robot_remote_control.MessageTypes.Level.{custom}
use robot_remote_control.RingBuffer.Slots.{Slots}
use robot_remote_control.TelemetryBuffer.{TelemetryBuffer, new_telemetry_buffer, register_type}
use robot_remote_control.Timer.{Timer, new_timer}
use robot_remote_control.Env.{Env}
use Commands.{CommandBuffer, new_command_buffer}
use Promises.{Promise}

-- A call of a function that the application gave to the robot.
pub data Event (F : Type 0) : Type 0 where
  -- a callback of one command
  command_called : ℕ → Event F
  -- a callback of every command, with the type
  type_called : ℕ → ℕ → Event F
  -- the heartbeat callback, with the elapsed seconds
  expired_called : F → Event F

-- The source's `commandbuffers` maps a type to a pointer to a member; each member is registered once,
-- so the map holds the members themselves. The callbacks that were called are kept in `called`.
pub record ControlledRobot (F M S : Type 0) : Type 0 where
  pub command_transport : S
  pub telemetry_transport : Option S
  pub commandbuffers : List (ℕ × CommandBuffer M)
  pub command_callbacks : List ℕ
  pub heartbeat_values : M
  pub heartbeat_timer : Timer F
  pub heartbeat_allowed_latency : F
  pub heartbeat_expired_callback : Bool
  pub connected : Bool
  pub map_buffer : Slots Bytes
  pub buffers : TelemetryBuffer M
  pub log_level : ℕ
  pub pending_permission_requests : List (Bytes × Promise)
  pub called : List (Event F)

abbrev pub command_types : List (ℕ × Kind)
command_types =
    (Control.target_pose_command, Kind.pose)
    ∷ (Control.twist_command, Kind.twist)
    ∷ (Control.goto_command, Kind.go_to)
    ∷ (Control.simple_actions_command, Kind.simple_action)
    ∷ (Control.complex_action_command, Kind.complex_action)
    ∷ (Control.joints_command, Kind.joint_command)
    ∷ (Control.heartbeat, Kind.heart_beat)
    ∷ (Control.permission, Kind.permission)
    ∷ (Control.robot_trajectory_command, Kind.poses)
    ∷ []

abbrev pub telemetry_types : List (ℕ × Kind)
telemetry_types =
    (Telemetry.current_pose, Kind.pose)
    ∷ (Telemetry.joint_state, Kind.joint_state)
    ∷ (Telemetry.controllable_joints, Kind.joint_state)
    ∷ (Telemetry.simple_actions, Kind.simple_actions)
    ∷ (Telemetry.complex_actions, Kind.complex_actions)
    ∷ (Telemetry.robot_name, Kind.robot_name)
    ∷ (Telemetry.robot_state, Kind.robot_state)
    ∷ (Telemetry.log_message, Kind.log_message)
    ∷ (Telemetry.video_streams, Kind.video_streams)
    ∷ (Telemetry.simple_sensor_definition, Kind.simple_sensors)
    ∷ (Telemetry.simple_sensor_value, Kind.simple_sensor)
    ∷ (Telemetry.wrench_state, Kind.wrench_state)
    ∷ (Telemetry.maps_definition, Kind.maps_definition)
    ∷ (Telemetry.map_telemetry, Kind.map_data)
    ∷ (Telemetry.poses, Kind.poses)
    ∷ (Telemetry.transforms, Kind.transforms)
    ∷ (Telemetry.permission_request, Kind.permission_request)
    ∷ (Telemetry.pointcloud, Kind.point_cloud)
    ∷ (Telemetry.imu_values, Kind.imu)
    ∷ (Telemetry.contact_points, Kind.contact_points)
    ∷ (Telemetry.current_twist, Kind.twist)
    ∷ (Telemetry.current_acceleration, Kind.acceleration)
    ∷ []

module _ (env : Env) where
  open env.floats use {Float, zero_float}
  open env.protobuf use {Message, empty}
  open env.transport use {State}

  abbrev pub Robot : Type 0
  Robot = ControlledRobot Float Message State

  -- `registerCommandType` and `registerTelemetryType`; every telemetry buffer has the capacity 1.
  unfoldable pub register_command_type :
      ℕ → Kind → List (ℕ × CommandBuffer Message) → List (ℕ × CommandBuffer Message)
  register_command_type id k bufs = insert id (new_command_buffer k (empty k)) bufs

  unfoldable pub register_telemetry_type :
      ℕ → Kind → TelemetryBuffer Message → Result (TelemetryBuffer Message)
  register_telemetry_type type k t = register_type k (empty k) type 1 t

  unfoldable pub register_commands :
      List (ℕ × Kind) → List (ℕ × CommandBuffer Message) → List (ℕ × CommandBuffer Message)
  unfolding register_command_type
  register_commands [] bufs = bufs
  register_commands ((id, k) ∷ rest) bufs = register_commands rest (register_command_type id k bufs)

  unfoldable pub register_telemetry :
      List (ℕ × Kind) → TelemetryBuffer Message → Result (TelemetryBuffer Message)
  unfolding register_telemetry_type
  register_telemetry [] t = ok t
  register_telemetry ((type, k) ∷ rest) t =
      register_telemetry_type type k t >>= register_telemetry rest

  -- `latency` is the literal 0.1f. The member `connected` is not initialised: `garbage` is its value.
  unfoldable pub new_controlled_robot : State → Option State → Float → Bool → Result Robot
  unfolding register_commands register_telemetry
  new_controlled_robot command_transport telemetry_transport latency garbage = do
    buffers ← register_telemetry telemetry_types new_telemetry_buffer
    ok (record {
      command_transport = command_transport;
      telemetry_transport = telemetry_transport;
      commandbuffers = register_commands command_types [];
      command_callbacks = [];
      heartbeat_values = empty Kind.heart_beat;
      heartbeat_timer = new_timer env.floats;
      heartbeat_allowed_latency = latency;
      heartbeat_expired_callback = false;
      connected = garbage;
      map_buffer = [];
      buffers = buffers;
      log_level = custom - 1;
      pending_permission_requests = [];
      called = [];
    })
