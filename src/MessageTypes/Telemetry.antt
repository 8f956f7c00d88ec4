-- ===== src/MessageTypes/Telemetry.antt =====
-- src/MessageTypes.hpp: `TelemetryMessageType`
use robot_remote_control.Base.{ℕ}

abbrev pub no_telemetry_data : ℕ
no_telemetry_data = 0

abbrev pub current_pose : ℕ
current_pose = 1

abbrev pub joint_state : ℕ
joint_state = 2

abbrev pub controllable_joints : ℕ
controllable_joints = 3

abbrev pub simple_actions : ℕ
simple_actions = 4

abbrev pub complex_actions : ℕ
complex_actions = 5

abbrev pub robot_name : ℕ
robot_name = 6

abbrev pub robot_state : ℕ
robot_state = 7

abbrev pub log_message : ℕ
log_message = 8

abbrev pub video_streams : ℕ
video_streams = 9

abbrev pub simple_sensor_definition : ℕ
simple_sensor_definition = 10

abbrev pub simple_sensor_value : ℕ
simple_sensor_value = 11

abbrev pub wrench_state : ℕ
wrench_state = 12

abbrev pub maps_definition : ℕ
maps_definition = 13

abbrev pub map_telemetry : ℕ
map_telemetry = 14

abbrev pub poses : ℕ
poses = 15

abbrev pub transforms : ℕ
transforms = 16

abbrev pub permission_request : ℕ
permission_request = 17

abbrev pub pointcloud : ℕ
pointcloud = 18

abbrev pub imu_values : ℕ
imu_values = 19

abbrev pub contact_points : ℕ
contact_points = 20

abbrev pub current_twist : ℕ
current_twist = 21

abbrev pub current_acceleration : ℕ
current_acceleration = 22

abbrev pub telemetry_message_types_number : ℕ
telemetry_message_types_number = 23
