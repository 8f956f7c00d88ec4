-- ===== src/RobotController.antt =====
-- src/RobotController/RobotController.hpp and RobotController.cpp: the state of `RobotController`,
-- its constructor, and the parameters that the application sets.
pub mod Requests
pub mod Receiving
pub mod Reading
pub mod Update
pub mod Replied
pub mod Delivered
pub mod Unsupported
pub mod Sensors
pub mod Sound
pub mod Keeping
pub mod Reachable
pub mod Stream
pub mod Asking
use robot_remote_control.Base.{
  ℕ, ◌+◌, leb, Bool, Option, none, some, List, [], ◌∷◌, Result, ok, ◌>>=◌, write_at, length, resize,
}
use robot_remote_control.Types.{Kind}
use robot_remote_control.MessageTypes.Telemetry
use robot_remote_control.RingBuffer.Slots.{Slots}
use robot_remote_control.TelemetryBuffer.{
  TelemetryBuffer, new_telemetry_buffer, register_type, fitted,
}
use robot_remote_control.Timer.{Timer, new_timer, start}
use robot_remote_control.Env.{Env}

-- A call of a function that the application gave to the controller.
pub data Notice (F M : Type 0) : Type 0 where
  -- `lostConnectionCallback`, by its number, with the seconds
  lost_called : ℕ → F → Notice F M
  -- a callback of a telemetry type, with the data
  data_called : ℕ → M → Notice F M

-- A `TelemetryAdder` is known by its class. The callbacks that were called are kept in `called`; the
-- callback that the constructor sets, which prints, has the number 0.
pub record RobotController (F M S : Type 0) : Type 0 where
  pub command_transport : Option S
  pub telemetry_transport : Option S
  pub heart_beat_duration : F
  pub heart_beat_timer : Timer F
  pub heart_breat_round_trip_time : F
  pub latency_timer : Timer F
  pub request_timer : Timer F
  pub last_connected_timer : Timer F
  pub max_latency : F
  pub buffers : TelemetryBuffer M
  pub simplesensorbuffer : Slots M
  pub lost_connection_callback : ℕ
  pub connected : Bool
  pub telemetry_adders : List (Option Kind)
  pub called : List (Notice F M)

abbrev pub controller_types : List (ℕ × Kind)
controller_types =
    (Telemetry.current_pose, Kind.pose)
    ∷ (Telemetry.joint_state, Kind.joint_state)
    ∷ (Telemetry.controllable_joints, Kind.joint_state)
    ∷ (Telemetry.simple_actions, Kind.simple_actions)
    ∷ (Telemetry.complex_actions, Kind.complex_actions)
    ∷ (Telemetry.robot_name, Kind.robot_name)
    ∷ (Telemetry.robot_state, Kind.robot_state)
    ∷ (Telemetry.log_message, Kind.log_message)
    ∷ (Telemetry.video_streams, Kind.video_streams)
    ∷ (Telemetry.simple_sensor_definition, Kind.simple_sensors)
    ∷ (Telemetry.wrench_state, Kind.wrench_state)
    ∷ (Telemetry.poses, Kind.poses)
    ∷ (Telemetry.transforms, Kind.transforms)
    ∷ (Telemetry.permission_request, Kind.permission_request)
    ∷ (Telemetry.pointcloud, Kind.point_cloud)
    ∷ (Telemetry.imu_values, Kind.imu)
    ∷ (Telemetry.contact_points, Kind.contact_points)
    ∷ (Telemetry.current_twist, Kind.twist)
    ∷ (Telemetry.current_acceleration, Kind.acceleration)
    ∷ []

module _ (env : Env) where
  open env.floats use {Float, zero_float}
  open env.protobuf use {Message, empty}
  open env.transport use {State}

  abbrev pub Controller : Type 0
  Controller = RobotController Float Message State

  -- `registerTelemetryType`: the buffer and the adder of a type.
  unfoldable pub register_adder : ℕ → Kind → ℕ → Controller → Result Controller
  register_adder type k buffersize c = do
    buffers ← register_type k (empty k) type buffersize c.buffers
    adders ← write_at (fitted type c.telemetry_adders) type (some k)
    ok (record c { buffers = buffers; telemetry_adders = adders })

  unfoldable pub register_adders : List (ℕ × Kind) → ℕ → Controller → Result Controller
  unfolding register_adder
  register_adders [] buffersize c = ok c
  register_adders ((type, k) ∷ rest) buffersize c =
      register_adder type k buffersize c >>= register_adders rest buffersize

  -- The members ahead of the body of the constructor. Those that are not initialised, `connected` and
  -- `lastConnectedTimer.startTime`, have the values `garbage` and `garbage_time`.
  abbrev pub unregistered : Option State → Option State → Float → Bool → ℕ → Controller
  unregistered command_transport telemetry_transport latency garbage garbage_time = record {
    command_transport = command_transport;
    telemetry_transport = telemetry_transport;
    heart_beat_duration = zero_float;
    heart_beat_timer = new_timer env.floats;
    heart_breat_round_trip_time = zero_float;
    latency_timer = new_timer env.floats;
    request_timer = new_timer env.floats;
    last_connected_timer = record (new_timer env.floats) { start_time = garbage_time };
    max_latency = latency;
    buffers = new_telemetry_buffer;
    simplesensorbuffer = [];
    lost_connection_callback = 0;
    connected = garbage;
    telemetry_adders = [];
    called = [];
  }

  unfoldable pub new_robot_controller :
      Option State → Option State → ℕ → Float → Bool → ℕ → Result Controller
  unfolding register_adders
  new_robot_controller command_transport telemetry_transport buffersize latency garbage
        garbage_time =
      register_adders controller_types buffersize
        (unregistered command_transport telemetry_transport latency garbage garbage_time)

  unfoldable pub set_heart_beat_duration : Float → ℕ → Controller → Controller
  set_heart_beat_duration duration_seconds now c = record c {
    heart_beat_duration = duration_seconds;
    heart_beat_timer = start env.floats duration_seconds now c.heart_beat_timer;
  }

  unfoldable pub set_max_latency : Float → Controller → Controller
  set_max_latency value c = record c { max_latency = value }

  unfoldable pub setup_lost_connection_callback : ℕ → Controller → Controller
  setup_lost_connection_callback callback c = record c { lost_connection_callback = callback }

  unfoldable pub is_connected : Controller → Bool
  is_connected c = c.connected

  unfoldable pub get_heart_breat_round_trip_time : Controller → Float
  get_heart_breat_round_trip_time c = c.heart_breat_round_trip_time
