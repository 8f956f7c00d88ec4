-- ===== src/RobotController/Reading.antt =====
-- src/RobotController/RobotController.hpp: the functions by which the application reads what came in.
use robot_remote_control.Base.{
  List, Bool, some, true, false, ℕ, ◌%◌, ltb, if◌then◌else◌, Option, none, Result, ok, Fault, ◌>>=◌,
  read_at, of_option, length, set,
}
use robot_remote_control.Bytes.{Bytes}
use robot_remote_control.Types.{Kind}
use robot_remote_control.MessageTypes.Telemetry
use robot_remote_control.RingBuffer.{size}
use robot_remote_control.RingBuffer.Access.{add_data_received_callback}
use robot_remote_control.RingBuffer.Slots.{pop_at}
use robot_remote_control.Env.{Env}
use robot_remote_control.RobotController.{Controller}

-- The getters of telemetry, each with the type and the class of its call of `getTelemetry`.
pub data Reader : Type 0 where
  get_current_pose get_current_twist get_current_acceleration get_poses : Reader
  get_current_joint_state get_current_wrench_state get_current_imu_state : Reader
  get_current_contact_points get_permission_request get_log_message get_robot_state : Reader
  get_current_transforms get_point_cloud : Reader

abbrev pub reader_type : Reader → ℕ
reader_type Reader.get_current_pose = Telemetry.current_pose
reader_type Reader.get_current_twist = Telemetry.current_twist
reader_type Reader.get_current_acceleration = Telemetry.current_acceleration
reader_type Reader.get_poses = Telemetry.poses
reader_type Reader.get_current_joint_state = Telemetry.joint_state
reader_type Reader.get_current_wrench_state = Telemetry.wrench_state
reader_type Reader.get_current_imu_state = Telemetry.imu_values
reader_type Reader.get_current_contact_points = Telemetry.contact_points
reader_type Reader.get_permission_request = Telemetry.permission_request
reader_type Reader.get_log_message = Telemetry.log_message
reader_type Reader.get_robot_state = Telemetry.robot_state
reader_type Reader.get_current_transforms = Telemetry.transforms
reader_type Reader.get_point_cloud = Telemetry.pointcloud

abbrev pub reader_class : Reader → Kind
reader_class Reader.get_current_pose = Kind.pose
reader_class Reader.get_current_twist = Kind.twist
reader_class Reader.get_current_acceleration = Kind.acceleration
reader_class Reader.get_poses = Kind.poses
reader_class Reader.get_current_joint_state = Kind.joint_state
reader_class Reader.get_current_wrench_state = Kind.wrench_state
reader_class Reader.get_current_imu_state = Kind.imu
reader_class Reader.get_current_contact_points = Kind.contact_points
reader_class Reader.get_permission_request = Kind.permission_request
reader_class Reader.get_log_message = Kind.log_message
reader_class Reader.get_robot_state = Kind.robot_state
reader_class Reader.get_current_transforms = Kind.transforms
reader_class Reader.get_point_cloud = Kind.point_cloud

module _ (env : Env) where
  open env.protobuf use {Message, states, empty}

  -- `none` is the return value 0; then `*data` is not written.
  unfoldable pub get_telemetry :
      Kind → ℕ → Controller env → Result (Option Message × Controller env)
  get_telemetry k type c = pop_at k c.buffers.slots type >>= λ out.
      ok (out.0, record c { buffers = record (c.buffers) { slots = out.1 } })

  unfoldable pub read_telemetry : Reader → Controller env → Result (Option Message × Controller env)
  unfolding get_telemetry
  read_telemetry g c = get_telemetry (reader_class g) (reader_type g) c

  -- `getRobotState` into a vector of strings, which is filled from a new object if there is none.
  unfoldable pub get_robot_state_lines :
      Controller env → Result (Bool × List Bytes × Controller env)
  unfolding get_telemetry
  get_robot_state_lines c = get_telemetry Kind.robot_state Telemetry.robot_state c >>= λ out.
      ok (elim out.0 [
        | none ↦ (false, states (empty Kind.robot_state), out.1)
        | some m ↦ (true, states m, out.1)
      ])

  unfoldable pub get_simple_sensor : ℕ → Controller env → Result (Option Message × Controller env)
  get_simple_sensor id c =
      if ltb id (length c.simplesensorbuffer)
      then (pop_at Kind.simple_sensor c.simplesensorbuffer id >>= λ out.
          ok (out.0, record c { simplesensorbuffer = out.1 }))
      else ok (none, c)

  -- The size goes through an `int` to an `unsigned int`.
  unfoldable pub get_buffer_size : ℕ → Controller env → Result ℕ
  get_buffer_size type c = read_at c.buffers.slots type >>= of_option Fault.null_pointer >>= λ b.
      ok (size b.ring % 4_294_967_296)

  unfoldable pub add_telemetry_received_callback :
      Kind → ℕ → ℕ → Controller env → Result (Controller env)
  add_telemetry_received_callback k type cb c = read_at c.buffers.slots type >>= λ p. ok (record c {
    buffers = record (c.buffers) {
      slots = set c.buffers.slots type (add_data_received_callback k p cb).1;
    };
  })
