-- ===== src/RobotController/Requests.antt =====
-- src/RobotController/RobotController.cpp: `sendRequest`, which sends a message on the command
-- channel and waits for the reply, and the functions that send commands and requests by it.
use robot_remote_control.Base.{
  ℕ, zero, suc, ◌+◌, ◌==◌, true, false, if◌then◌else◌, Option, none, some, [], ◌∷◌, ◌++◌, Result,
  ok, fault, Fault, ◌>>=◌,
}
use mathlib.Core.Option
use robot_remote_control.Bytes.{Bytes, encode_uint16}
use robot_remote_control.Types.{Kind}
use robot_remote_control.MessageTypes.Control
use robot_remote_control.Timer.{Timer, start, is_expired, get_elapsed_time}
use robot_remote_control.Transport.{Flags, noblock}
use robot_remote_control.Env.{Env}
use robot_remote_control.RobotController.{Controller, lost_called}

-- The times that the calls of `gettimeofday` return, in their order.
abbrev pub Clock : Type 0
Clock = ℕ → ℕ

-- The commands that the application sends by functions of their own, with the type of each.
pub data Command : Type 0 where
  set_target_pose set_twist_command set_go_to_command set_joint_command : Command
  set_simple_action_command set_complex_action_command set_robot_trajectory_command : Command

abbrev pub sent_type : Command → ℕ
sent_type Command.set_target_pose = Control.target_pose_command
sent_type Command.set_twist_command = Control.twist_command
sent_type Command.set_go_to_command = Control.goto_command
sent_type Command.set_joint_command = Control.joints_command
sent_type Command.set_simple_action_command = Control.simple_actions_command
sent_type Command.set_complex_action_command = Control.complex_action_command
sent_type Command.set_robot_trajectory_command = Control.robot_trajectory_command

module _ (env : Env) where
  open env.floats use {Float, zero_float}
  open env.protobuf use {Message, serialize, parse}
  open env.transport use {State, send, receive}

  -- The loop that polls for the reply: what `replystr` holds after it, the connection, and how many
  -- times the clock was read; `none` if the fuel runs out.
  unfoldable pub wait_reply :
      ℕ → Clock → ℕ → Flags → Timer Float → State → Option (Bytes × State × ℕ)
  wait_reply zero clock k flags timer s = none
  wait_reply (suc fuel) clock k flags timer s =
      let (n, replystr, s') = receive flags s in
      elim (n == 0) [
        | false ↦ some (replystr, s', k)
        | true ↦ elim (is_expired env.floats (clock k) timer) [
          | true ↦ some (replystr, s', k + 1)
          | false ↦ wait_reply fuel clock (k + 1) flags timer s'
        ]
      ]

  -- The connection is lost: the callback is called and the empty string returned.
  abbrev pub lost : Float → Controller env → Bytes × Controller env
  lost seconds c = (
    [],
    record c {
      connected = false;
      called = c.called ++ lost_called c.lost_connection_callback seconds ∷ [];
    },
  )

  -- After the loop, with the clock read `k` times before.
  unfoldable pub finish_request : Clock → Bytes → ℕ → Controller env → Bytes × Controller env
  finish_request clock replystr k c =
      if is_expired env.floats (clock k) c.request_timer
      then lost (get_elapsed_time env.floats (clock (k + 1)) c.last_connected_timer) c
      else (
        replystr,
        record c {
          last_connected_timer = start env.floats zero_float (clock (k + 1)) c.last_connected_timer;
          connected = true;
        },
      )

  unfoldable pub send_request :
      ℕ → Clock → Bytes → Flags → Controller env → Option (Result (Bytes × Controller env))
  unfolding wait_reply finish_request
  send_request fuel clock message flags c = elim c.command_transport [
    | none ↦ some (fault Fault.null_pointer)
    | some t ↦
        let (sent, t') = send message flags t in
        let c' = record c { command_transport = some t' } in
        elim sent [
          | none ↦ some (ok (lost c.max_latency c'))
          | some bytes ↦
              let timer = start env.floats c.max_latency (clock 0) c.request_timer in
              Option.map
                (λ out. ok (
                  finish_request clock out.0 out.2
                    (record c' { request_timer = timer; command_transport = some (out.1) })))
                (wait_reply fuel clock 1 flags timer t')
        ]
  ]

  unfoldable pub send_protobuf_data :
      ℕ → Clock → Message → ℕ → Controller env → Option (Result (Bytes × Controller env))
  unfolding send_request
  send_protobuf_data fuel clock protodata type c =
      send_request fuel clock (encode_uint16 type ++ serialize protodata) noblock c

  unfoldable pub send_command :
      ℕ → Clock → Command → Message → Controller env → Option (Result (Bytes × Controller env))
  unfolding send_protobuf_data
  send_command fuel clock command m c = send_protobuf_data fuel clock m (sent_type command) c

  unfoldable pub set_log_level :
      ℕ → Clock → ℕ → Controller env → Option (Result (Bytes × Controller env))
  unfolding send_request
  set_log_level fuel clock level c =
      send_request fuel clock (encode_uint16 Control.log_level_select ++ encode_uint16 level)
        noblock c

  -- Declared to return a `bool`, and ends without.
  unfoldable pub set_permission :
      ℕ → Clock → Message → Controller env → Option (Result (Controller env))
  unfolding send_protobuf_data
  set_permission fuel clock permission c =
      Option.map (λ out. out >>= λ done. fault Fault.no_return)
        (send_protobuf_data fuel clock permission Control.permission c)

  -- `requestBinary`; `*result` is the string that is returned.
  unfoldable pub request_binary :
      ℕ → Clock → ℕ → ℕ → Controller env → Option (Result (Bytes × Controller env))
  unfolding send_request
  request_binary fuel clock type request_type c =
      send_request fuel clock (encode_uint16 request_type ++ encode_uint16 type) noblock c

  -- `requestTelemetry` into an object of the class `k`, with what `*result` holds then.
  unfoldable pub request_telemetry :
      ℕ → Clock → Kind → ℕ → ℕ → Controller env → Option (Result (Message × Controller env))
  unfolding request_binary
  request_telemetry fuel clock k type request_type c =
      Option.map (λ out. out >>= λ done. ok ((parse k done.0).1, done.1))
        (request_binary fuel clock type request_type c)
