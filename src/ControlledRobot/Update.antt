-- ===== src/ControlledRobot/Update.antt =====
-- src/ControlledRobot/ControlledRobot.cpp: `update`, which handles the requests that wait and then
-- looks after the heartbeat.
use robot_remote_control.Base.{
  Option, none, some, ℕ, zero, suc, ◌==◌, true, false, if◌then◌else◌, none, some, [], ◌∷◌, ◌++◌,
  Result, ok, fault, ◌>>=◌, lookup, insert,
}
use robot_remote_control.MessageTypes.Control
use mathlib.Core.Option
use robot_remote_control.Timer.{start, is_expired, get_elapsed_time}
use robot_remote_control.Env.{Env}
use robot_remote_control.ControlledRobot.{Robot, expired_called}
use robot_remote_control.ControlledRobot.Commands.{read}
use robot_remote_control.ControlledRobot.Requests.{receive_request}

module _ (env : Env) where
  open env.floats use {Float, add}
  open env.protobuf use {Message, heartbeatduration}

  -- `while (receiveRequest() != NO_CONTROL_DATA) {}`; `none` if the fuel runs out.
  unfoldable pub drain : ℕ → Robot env → Option (Result (Robot env))
  drain zero r = none
  drain (suc fuel) r = elim (receive_request env r) [
    | fault e ↦ some (fault e)
    | ok out ↦ elim (out.0 == Control.no_control_data) [
      | true ↦ some (ok out.1)
      | false ↦ drain fuel out.1
    ]
  ]

  -- `heartbeatCommand.read(&heartbeatValues)`, and the start of the timer if it is new. The
  -- member `heartbeatCommand` is the buffer of HEARTBEAT.
  unfoldable pub read_heartbeat : ℕ → Robot env → Robot env
  read_heartbeat now r = elim (lookup Control.heartbeat r.commandbuffers) [
    | none ↦ r
    | some b ↦
        let (isnew, values, b') = read b in
        let r' = record r {
          heartbeat_values = values;
          commandbuffers = insert Control.heartbeat b' r.commandbuffers;
        } in
        if isnew
        then record r' {
          connected = true;
          heartbeat_timer =
              start env.floats (add (heartbeatduration values) r.heartbeat_allowed_latency) now
                r.heartbeat_timer;
        }
        else r'
  ]

  -- The test of the timer at the time `now`; the elapsed time is read at `then_now`.
  unfoldable pub check_heartbeat : ℕ → ℕ → Robot env → Robot env
  check_heartbeat now then_now r =
      if is_expired env.floats now r.heartbeat_timer
      then (if r.heartbeat_expired_callback
          then record r {
            connected = false;
            called =
                r.called
                ++ expired_called (get_elapsed_time env.floats then_now r.heartbeat_timer) ∷ [];
          }
          else record r { connected = false })
      else r

  -- The three times are those of the calls of `gettimeofday`, in their order.
  unfoldable pub update : ℕ → ℕ → ℕ → ℕ → Robot env → Option (Result (Robot env))
  update fuel started checked elapsed r =
      Option.map
        (λ drained.
          drained >>= λ r'. ok (check_heartbeat checked elapsed (read_heartbeat started r')))
        (drain fuel r)
