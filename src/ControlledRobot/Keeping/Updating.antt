-- ===== src/ControlledRobot/Keeping/Updating.antt =====
-- `update` keeps the robot sound.
use robot_remote_control.Base.{
  Result-cases, ℕ, zero, suc, ◌≡◌, refl, false, Bool-cases, ◌==◌, Option, none, some, Option-cases,
  inl, inr, Result, ok, fault, ◌>>=◌, lookup, WhenReturns,
}
use mathlib.Core.Option
use robot_remote_control.MessageTypes.Control
use robot_remote_control.Env.{Env}
use robot_remote_control.Timer.{is_expired}
use robot_remote_control.ControlledRobot.{Robot}
use robot_remote_control.ControlledRobot.Commands.{read}
use robot_remote_control.ControlledRobot.Requests.{receive_request}
use robot_remote_control.ControlledRobot.Update.{drain, read_heartbeat, check_heartbeat, update}
use robot_remote_control.ControlledRobot.Sound.{IsSound}
use robot_remote_control.ControlledRobot.Keeping.Requests.{
  receive_request-IsSound, insert-HasCommands,
}

module _ (env : Env) where
  open env.floats use {Float}
  open env.protobuf use {Message, kind_of, serialize, parse}
  open env.transport use {State, send, receive}

  read_heartbeat-IsSound :
      (now : ℕ) (r : Robot env) → IsSound env r → IsSound env (read_heartbeat env now r)
  unfolding read_heartbeat read
  read_heartbeat-IsSound now r sound =
      elim (Option-cases (lookup Control.heartbeat r.commandbuffers)) [
        | inl e ↦ rw (e, read_heartbeat) sound
        | inr (b, e) ↦
            let kept =
              insert-HasCommands env Control.heartbeat b (record b { isnew = false })
                r.commandbuffers e refl sound.commands in
            rw (e, read_heartbeat)
              (elim (Bool-cases b.isnew) [
                | inl e ↦
                    rw (e, read)
                      (record { telemetry = sound.telemetry; commands = kept; maps = sound.maps })
                | inr e ↦
                    rw (e, read)
                      (record { telemetry = sound.telemetry; commands = kept; maps = sound.maps })
              ])
      ]

  check_heartbeat-IsSound :
      (now later : ℕ) (r : Robot env)
      → IsSound env r
      → IsSound env (check_heartbeat env now later r)
  unfolding check_heartbeat
  check_heartbeat-IsSound now later r sound =
      elim (Bool-cases (is_expired env.floats now r.heartbeat_timer)) [
        | inr e ↦ rw e sound
        | inl e ↦ rw e (elim (Bool-cases r.heartbeat_expired_callback) [
          | inl e ↦
              rw e (record {
                telemetry = sound.telemetry;
                commands = sound.commands;
                maps = sound.maps;
              })
          | inr e ↦
              rw e (record {
                telemetry = sound.telemetry;
                commands = sound.commands;
                maps = sound.maps;
              })
        ])
      ]

  -- If it returned at all, and without a fault.
  abbrev pub WhenUpdated : Option (Result (Robot env)) → Type 0
  WhenUpdated none = Unit
  WhenUpdated (some out) = WhenReturns out (IsSound env)

  drain-IsSound : (fuel : ℕ) (r : Robot env) → IsSound env r → WhenUpdated (drain env fuel r)
  unfolding drain
  drain-IsSound zero r sound = tt
  drain-IsSound (suc fuel) r sound = elim (Result-cases (receive_request env r)) [
    | inl (f, failed) ↦
        let ends : drain env (suc fuel) r ≡ some (fault f) = rw (failed, drain) in
        rw (ends, WhenUpdated) tt
    | inr (out, e) ↦
        let kept = rw e at (receive_request-IsSound env r sound) in
        elim (Bool-cases (out.0 == Control.no_control_data)) [
          | inl done ↦
              let ends : drain env (suc fuel) r ≡ some (ok out.1) = rw (e, drain, done) in
              rw (ends, WhenUpdated) kept
          | inr more ↦
              let goes_on : drain env (suc fuel) r ≡ drain env fuel out.1 = rw (e, drain, more) in
              rw goes_on (drain-IsSound fuel out.1 kept)
        ]
  ]

  pub update-IsSound :
      (fuel started checked elapsed : ℕ) (r : Robot env)
      → IsSound env r
      → WhenUpdated (update env fuel started checked elapsed r)
  unfolding update
  update-IsSound fuel started checked elapsed r sound =
      updated (drain env fuel r) (drain-IsSound fuel r sound)
    where
      updated :
          (out : Option (Result (Robot env)))
          → WhenUpdated out
          → WhenUpdated (
              Option.map
                (λ drained. drained >>= λ r'.
                  ok (check_heartbeat env checked elapsed (read_heartbeat env started r')))
                out)
      updated none h = tt
      updated (some (fault e)) h = tt
      updated (some (ok r')) h =
          check_heartbeat-IsSound checked elapsed _ (read_heartbeat-IsSound started r' h)
