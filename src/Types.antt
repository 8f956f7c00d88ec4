-- ===== src/Types.antt =====
-- The message types that the library is instantiated at, and what it takes from the code that
-- protoc generates for src/Types/RobotRemoteControl.proto.
pub mod Table
use robot_remote_control.Base.{ℕ, ◌+◌, ◌==◌, ◌≡◌, Bool, true, List, ==_refl}
use robot_remote_control.Bytes.{Bytes}

-- A type that a class template is instantiated at; `custom` stands for those of an application that
-- extends the library.
pub data Kind : Type 0 where
  pose twist go_to simple_action complex_action joint_command heart_beat permission poses : Kind
  joint_state simple_actions complex_actions robot_name robot_state log_message : Kind
  video_streams simple_sensors simple_sensor wrench_state maps_definition map_data : Kind
  transforms permission_request point_cloud imu contact_points acceleration string : Kind
  custom : ℕ → Kind

abbrev pub kind_code : Kind → ℕ
kind_code Kind.pose = 0
kind_code Kind.twist = 1
kind_code Kind.go_to = 2
kind_code Kind.simple_action = 3
kind_code Kind.complex_action = 4
kind_code Kind.joint_command = 5
kind_code Kind.heart_beat = 6
kind_code Kind.permission = 7
kind_code Kind.poses = 8
kind_code Kind.joint_state = 9
kind_code Kind.simple_actions = 10
kind_code Kind.complex_actions = 11
kind_code Kind.robot_name = 12
kind_code Kind.robot_state = 13
kind_code Kind.log_message = 14
kind_code Kind.video_streams = 15
kind_code Kind.simple_sensors = 16
kind_code Kind.simple_sensor = 17
kind_code Kind.wrench_state = 18
kind_code Kind.maps_definition = 19
kind_code Kind.map_data = 20
kind_code Kind.transforms = 21
kind_code Kind.permission_request = 22
kind_code Kind.point_cloud = 23
kind_code Kind.imu = 24
kind_code Kind.contact_points = 25
kind_code Kind.acceleration = 26
kind_code Kind.string = 27
kind_code (Kind.custom n) = 28 + n

-- Whether a `dynamic_pointer_cast` from one instance to another succeeds.
abbrev pub same_kind : Kind → Kind → Bool
same_kind k l = kind_code k == kind_code l

pub same_kind_refl : (k : Kind) → same_kind k k ≡ true
same_kind_refl k = ==_refl (kind_code k)

-- The generated classes. One type holds the messages of all of them; `parse k` is
-- `ParseFromString` on a new object of the class `k`: what it returns, and the object afterwards.
-- The accessors are applied to messages of the class that has the field.
pub record Protobuf (Float : Type 0) : Type 1 where
  pub Message : Type 0
  pub kind_of : Message → Kind
  pub empty : Kind → Message
  pub serialize : Message → Bytes
  pub parse : Kind → Bytes → Bool × Message
  pub heartbeatduration : Message → Float
  pub requestuid : Message → Bytes
  pub granted : Message → Bool
  pub sensor_id : Message → ℕ
  pub log_level : Message → ℕ
  pub new_heart_beat : Float → Message
  pub new_log_message : ℕ → Bytes → Message
  pub new_robot_state : List Bytes → Message
  pub states : Message → List Bytes
  -- Of a serialized message the same class gives the message back.
  pub parse-serialize : (m : Message) → parse (kind_of m) (serialize m) ≡ (true, m)
