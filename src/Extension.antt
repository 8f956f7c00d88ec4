-- ===== src/Extension.antt =====
-- examples/extending/src: a robot and a controller that extend the library by a command and a telemetry
-- type of an application.
pub mod ExtendedRobot
pub mod ExtendedController
use robot_remote_control.Base.{
  ℕ, Bool, false, Option, Result, ok, Fault, ◌>>=◌, lookup, insert, of_option,
}
use robot_remote_control.Base.Int.{ℤ}
use robot_remote_control.Bytes.{Bytes}
use robot_remote_control.Types.{Kind}
use robot_remote_control.MessageTypes.Control
use robot_remote_control.MessageTypes.Telemetry
use robot_remote_control.Env.{Env}
use robot_remote_control.ControlledRobot.{
  Robot, new_controlled_robot, register_command_type, register_telemetry_type,
}
use robot_remote_control.ControlledRobot.Commands.{read}
use robot_remote_control.ControlledRobot.Sending.{send_telemetry}
use robot_remote_control.RobotController.{Controller, new_robot_controller, register_adder}
use robot_remote_control.RobotController.Requests.{Clock, send_protobuf_data, request_telemetry}
use robot_remote_control.RobotController.Reading.{get_telemetry}

-- The numbers that the library has as the number of its types.
abbrev pub new_control_message : ℕ
new_control_message = Control.control_message_type_number

abbrev pub new_telemetry_message : ℕ
new_telemetry_message = Telemetry.telemetry_message_types_number

-- myrobot::NewControlMessage and myrobot::NewTelemetryMessage
abbrev pub control_class : Kind
control_class = Kind.custom 0

abbrev pub telemetry_class : Kind
telemetry_class = Kind.custom 1

module _ (env : Env) where
  open env.floats use {Float}
  open env.protobuf use {Message}
  open env.transport use {State}

  -- `ExtendedControlledRobot`, and its member functions.
  unfoldable pub new_extended_robot : State → Option State → Float → Bool → Result (Robot env)
  new_extended_robot command_transport telemetry_transport latency garbage = do
    r ← new_controlled_robot env command_transport telemetry_transport latency garbage
    buffers ← register_telemetry_type env new_telemetry_message telemetry_class r.buffers
    ok (record r {
      commandbuffers = register_command_type env new_control_message control_class r.commandbuffers;
      buffers = buffers;
    })

  unfoldable pub get_new_control_message : Robot env → Result (Bool × Message × Robot env)
  get_new_control_message r = do
    b ← of_option Fault.null_pointer (lookup new_control_message r.commandbuffers)
    let (fresh, command, b') = read b
    ok (
      fresh,
      command,
      record r { commandbuffers = insert new_control_message b' r.commandbuffers },
    )

  unfoldable pub set_new_telemetry_message : Message → Robot env → Result (ℤ × Robot env)
  set_new_telemetry_message telemetry r = send_telemetry env telemetry new_telemetry_message false r

  -- `ExtendedRobotController`, with the default capacity of the buffers, and its member functions.
  unfoldable pub new_extended_controller :
      Option State → Option State → Float → Bool → ℕ → Result (Controller env)
  new_extended_controller command_transport telemetry_transport latency garbage garbage_time =
      new_robot_controller env command_transport telemetry_transport 10 latency garbage garbage_time
      >>= register_adder env new_telemetry_message telemetry_class 10

  unfoldable pub set_new_control_message :
      ℕ → Clock → Message → Controller env → Option (Result (Bytes × Controller env))
  set_new_control_message fuel clock msg c =
      send_protobuf_data env fuel clock msg new_control_message c

  unfoldable pub request_new_telemetry_message :
      ℕ → Clock → Controller env → Option (Result (Message × Controller env))
  request_new_telemetry_message fuel clock c =
      request_telemetry env fuel clock telemetry_class new_telemetry_message
        Control.telemetry_request c

  unfoldable pub get_new_telemetry_message :
      Controller env → Result (Option Message × Controller env)
  get_new_telemetry_message c = get_telemetry env telemetry_class new_telemetry_message c
