-- ===== src/RobotController/Update.antt =====
-- src/RobotController/RobotController.cpp: `update`, which takes in the telemetry that waits and sends
-- a heartbeat if it is time.
use robot_remote_control.Base.{
  ℕ, zero, suc, ◌+◌, ◌==◌, ◌&&◌, true, false, if◌then◌else◌, Option, none, some, Result, ok, fault,
  ◌>>=◌,
}
use mathlib.Core.Option
use robot_remote_control.MessageTypes.Control
use robot_remote_control.Timer.{start, is_expired, get_elapsed_time}
use robot_remote_control.Transport.{noblock}
use robot_remote_control.Env.{Env}
use robot_remote_control.RobotController.{Controller}
use robot_remote_control.RobotController.Requests.{Clock, send_protobuf_data}
use robot_remote_control.RobotController.Receiving.{evaluate_telemetry}

module _ (env : Env) where
  open env.floats use {Float, zero_float, nonzero}
  open env.protobuf use {new_heart_beat}
  open env.transport use {State, receive}

  -- `while (telemetryTransport->receive(&buf, flags))`; `none` if the fuel runs out. An exception of
  -- `evaluateTelemetry` ends the loop and leaves the rest waiting.
  unfoldable pub receive_all : ℕ → State → Controller env → Option (Result (Controller env))
  receive_all zero t c = none
  receive_all (suc fuel) t c =
      let (n, buf, t') = receive noblock t in
      let c' = record c { telemetry_transport = some t' } in
      elim (n == 0) [
        | true ↦ some (ok c')
        | false ↦ elim (evaluate_telemetry env buf c') [
          | fault e ↦ some (fault e)
          | ok out ↦ receive_all fuel t' out.1
        ]
      ]

  unfoldable pub receive_telemetry : ℕ → Controller env → Option (Result (Controller env))
  unfolding receive_all
  receive_telemetry fuel c = elim c.telemetry_transport [
    | none ↦ some (ok c)
    | some t ↦ receive_all fuel t c
  ]

  -- The heartbeat and the time until its reply. The clock is read for the start, by `sendProtobufData`
  -- and for the elapsed time, which comes at `back`.
  unfoldable pub beat : ℕ → Clock → ℕ → Controller env → Option (Result (Controller env))
  beat fuel clock back c = elim c.command_transport [
    | none ↦ some (ok c)
    | some t ↦
        let started = record c {
          latency_timer = start env.floats zero_float (clock 0) c.latency_timer;
        } in
        Option.map
          (λ out. out >>= λ done. ok (record (done.1) {
            heart_breat_round_trip_time = get_elapsed_time env.floats back done.1.latency_timer;
          }))
          (send_protobuf_data env fuel (λ k. clock (k + 1)) (new_heart_beat c.heart_beat_duration)
            Control.heartbeat started)
  ]

  -- `heartBeatTimer.start(heartBeatDuration)`
  unfoldable pub restart_heart_beat : ℕ → Controller env → Controller env
  restart_heart_beat now c = record c {
    heart_beat_timer = start env.floats c.heart_beat_duration now c.heart_beat_timer;
  }

  -- The times are those of the test, of the heartbeat, and of the restart of the timer.
  unfoldable pub heart_beat :
      ℕ → ℕ → Clock → ℕ → ℕ → Controller env → Option (Result (Controller env))
  unfolding beat restart_heart_beat
  heart_beat fuel now clock back restarted c =
      if nonzero c.heart_beat_duration && is_expired env.floats now c.heart_beat_timer
      then Option.map (λ out. out >>= λ sent. ok (restart_heart_beat restarted sent))
          (beat fuel clock back c)
      else some (ok c)

  unfoldable pub update : ℕ → ℕ → Clock → ℕ → ℕ → Controller env → Option (Result (Controller env))
  unfolding receive_telemetry heart_beat
  update fuel now clock back restarted c = elim (receive_telemetry fuel c) [
    | none ↦ none
    | some (fault e) ↦ some (fault e)
    | some (ok c') ↦ heart_beat fuel now clock back restarted c'
  ]
