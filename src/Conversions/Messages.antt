-- ===== src/Conversions/Messages.antt =====
-- src/Types/RobotRemoteControl.proto: the messages that are converted, with `F` and `D` for `float` and
-- `double`. A message inside another that was never set is read as the one with the default values.
use robot_remote_control.Base.{List}
use robot_remote_control.Base.Int.{ℤ}
use robot_remote_control.Bytes.{Bytes}

pub record TimeStamp : Type 0 where
  pub secs : ℤ
  pub nsecs : ℤ

pub record Vector2 (F : Type 0) : Type 0 where
  pub x : F
  pub y : F

pub record Vector3 (F : Type 0) : Type 0 where
  pub x : F
  pub y : F
  pub z : F

pub record Position (D : Type 0) : Type 0 where
  pub x : D
  pub y : D
  pub z : D

pub record Orientation (D : Type 0) : Type 0 where
  pub x : D
  pub y : D
  pub z : D
  pub w : D

pub record Pose (F D : Type 0) : Type 0 where
  pub position : Position D
  pub orientation : Orientation D
  pub orientation2d : F
  pub timestamp : TimeStamp

pub record Imu (F D : Type 0) : Type 0 where
  pub acceleration : Vector3 F
  pub gyro : Vector3 F
  pub mag : Vector3 F
  pub orientation : Orientation D

pub record Twist (F : Type 0) : Type 0 where
  pub linear : Vector3 F
  pub angular : Vector3 F

pub record JointState (D : Type 0) : Type 0 where
  pub name : List Bytes
  pub position : List D
  pub velocity : List D
  pub effort : List D
  pub acceleration : List D
  pub timestamp : TimeStamp

pub record JointCommand (D : Type 0) : Type 0 where
  pub name : List Bytes
  pub position : List D
  pub velocity : List D
  pub effort : List D
  pub acceleration : List D
  pub kp_gain : List D
  pub kd_gain : List D
  pub timestamp : TimeStamp

pub record ChannelFloat (F : Type 0) : Type 0 where
  pub name : Bytes
  pub values : List F

pub record PointCloud (F D : Type 0) : Type 0 where
  pub timestamp : TimeStamp
  pub frame : Bytes
  pub points : List (Position D)
  pub channels : List (ChannelFloat F)

pub record Poses (F D : Type 0) : Type 0 where
  pub timestamp : TimeStamp
  pub frame : Bytes
  pub poses : List (Pose F D)

pub record SimpleSensor (F : Type 0) : Type 0 where
  pub name : Bytes
  pub size : Vector2 F
  pub value : List F
  pub scale : Vector2 F

pub record Acceleration (F : Type 0) : Type 0 where
  pub linear : Vector3 F
  pub angular : Vector3 F

pub record Wrench (F : Type 0) : Type 0 where
  pub force : Vector3 F
  pub torque : Vector3 F

pub record WrenchState (F : Type 0) : Type 0 where
  pub timestamp : TimeStamp
  pub frame : List Bytes
  pub wrenches : List (Wrench F)
