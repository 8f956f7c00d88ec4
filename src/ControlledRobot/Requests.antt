-- ===== src/ControlledRobot/Requests.antt =====
-- src/ControlledRobot/ControlledRobot.cpp: `evaluateRequest`, the handling of one message that came
-- in on the command channel, and its callees.
use robot_remote_control.Base.{
  ℕ, ltb, ◌==◌, if◌then◌else◌, none, some, [], ◌++◌, map, Result, ok, fault, Fault, ◌>>=◌, length,
  lookup, insert,
}
use robot_remote_control.Bytes.{Bytes, encode_uint16, read_uint16, strip_type}
use robot_remote_control.Types.{Kind}
use robot_remote_control.MessageTypes.Control
use robot_remote_control.RingBuffer.Slots.{peek_at}
use robot_remote_control.TelemetryBuffer.{peek_serialized}
use robot_remote_control.Transport.{none_flag, noblock}
use robot_remote_control.Env.{Env}
use robot_remote_control.ControlledRobot.{Robot, command_called, type_called}
use robot_remote_control.ControlledRobot.Commands.{CommandBuffer, write_serialized}
use robot_remote_control.ControlledRobot.Promises.{promise_at, put_promise, set_value}

module _ (env : Env) where
  open env.protobuf use {Message, parse, requestuid, granted}
  open env.transport use {State, send, receive}

  -- `commandTransport->send(msg)`; nothing catches its exceptions.
  unfoldable pub send_reply : Bytes → Robot env → Result (Robot env)
  send_reply msg r =
      let (sent, c) = send msg none_flag r.command_transport in
      elim sent [ none ↦ fault Fault.send_error | some n ↦ ok (record r { command_transport = c }) ]

  -- `notifyCommandCallbacks`
  unfoldable pub notify_command_callbacks : ℕ → Robot env → Robot env
  notify_command_callbacks type r = record r {
    called = r.called ++ map (λ cb. type_called cb type) r.command_callbacks;
  }

  unfoldable pub telemetry_requested : Bytes → Robot env → Result (ℕ × Robot env)
  unfolding send_reply
  telemetry_requested body r = do
    requested ← read_uint16 body
    reply ← peek_serialized env.protobuf r.buffers requested
    r' ← send_reply reply r
    ok (Control.telemetry_request, r')

  -- The map of the number; the empty string if there is none.
  unfoldable pub find_map : ℕ → Robot env → Result Bytes
  find_map requested r =
      if ltb requested (length r.map_buffer)
      then (peek_at Kind.string r.map_buffer requested >>= λ m.
          ok (elim m [ none ↦ [] | some m ↦ m ]))
      else ok []

  unfoldable pub map_requested : Bytes → Robot env → Result (ℕ × Robot env)
  unfolding find_map send_reply
  map_requested body r = do
    requested ← read_uint16 body
    m ← find_map requested r
    r' ← send_reply m r
    ok (Control.map_request, r')

  unfoldable pub log_level_selected : Bytes → Robot env → Result (ℕ × Robot env)
  unfolding send_reply
  log_level_selected body r = do
    level ← read_uint16 body
    r' ← send_reply (encode_uint16 Control.log_level_select) (record r { log_level = level })
    ok (Control.log_level_select, r')

  -- The effect of a permission on the promise of its request, ahead of the default case.
  unfoldable pub permission_given : Bytes → Robot env → Robot env
  permission_given body r =
      let perm = (parse Kind.permission body).1 in
      let uid = requestuid perm in
      let promise = promise_at uid r.pending_permission_requests in
      record r {
        pending_permission_requests =
            put_promise uid (set_value (granted perm) promise) r.pending_permission_requests;
      }

  -- A command for a buffer that exists.
  unfoldable pub command_given :
      ℕ → Bytes → CommandBuffer Message → Robot env → Result (ℕ × Robot env)
  unfolding send_reply notify_command_callbacks
  command_given msgtype body cmdbuffer r =
      let (parsed, cmdbuffer', callbacks) = write_serialized env.protobuf body cmdbuffer in
      let written = record r {
        commandbuffers = insert msgtype cmdbuffer' r.commandbuffers;
        called = r.called ++ map command_called callbacks;
      } in
      if parsed
      then (send_reply (encode_uint16 msgtype) written >>= λ r'.
          ok (msgtype, notify_command_callbacks msgtype r'))
      else (send_reply (encode_uint16 Control.no_control_data) written >>= λ r'.
          ok (Control.no_control_data, r'))

  unfoldable pub default_request : ℕ → Bytes → Robot env → Result (ℕ × Robot env)
  unfolding command_given send_reply
  default_request msgtype body r = elim (lookup msgtype r.commandbuffers) [
    | none ↦ send_reply (encode_uint16 Control.no_control_data) r >>= λ r'. ok (msgtype, r')
    | some cmdbuffer ↦ command_given msgtype body cmdbuffer r
  ]

  -- The `switch` over the type. The case of a permission falls through to the default.
  unfoldable pub dispatch : ℕ → Bytes → Robot env → Result (ℕ × Robot env)
  unfolding telemetry_requested map_requested log_level_selected permission_given default_request
  dispatch msgtype body r =
      if msgtype == Control.telemetry_request
      then telemetry_requested body r
      else if msgtype == Control.map_request
      then map_requested body r
      else if msgtype == Control.log_level_select
      then log_level_selected body r
      else if msgtype == Control.permission
      then default_request msgtype body (permission_given body r)
      else default_request msgtype body r

  unfoldable pub evaluate_request : Bytes → Robot env → Result (ℕ × Robot env)
  unfolding dispatch
  evaluate_request request r = do
    msgtype ← read_uint16 request
    body ← strip_type request
    dispatch msgtype body r

  unfoldable pub receive_request : Robot env → Result (ℕ × Robot env)
  unfolding evaluate_request
  receive_request r =
      let (result, msg, c) = receive noblock r.command_transport in
      let r' = record r { command_transport = c } in
      if result == 0 then ok (Control.no_control_data, r') else evaluate_request msg r'
