-- ===== src/MessageTypes/Control.antt =====
-- src/MessageTypes.hpp: `ControlMessageType`
use robot_remote_control.Base.{ℕ}

abbrev pub no_control_data : ℕ
no_control_data = 0

abbrev pub target_pose_command : ℕ
target_pose_command = 1

abbrev pub twist_command : ℕ
twist_command = 2

abbrev pub joints_command : ℕ
joints_command = 3

abbrev pub simple_actions_command : ℕ
simple_actions_command = 4

abbrev pub complex_action_command : ℕ
complex_action_command = 5

abbrev pub goto_command : ℕ
goto_command = 6

abbrev pub telemetry_request : ℕ
telemetry_request = 7

abbrev pub log_level_select : ℕ
log_level_select = 8

abbrev pub map_request : ℕ
map_request = 9

abbrev pub heartbeat : ℕ
heartbeat = 10

abbrev pub permission : ℕ
permission = 11

abbrev pub robot_trajectory_command : ℕ
robot_trajectory_command = 12

abbrev pub control_message_type_number : ℕ
control_message_type_number = 13
