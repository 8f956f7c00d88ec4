-- ===== src/ControlledRobot/Keeping/Application.antt =====
-- What else the application calls keeps the robot sound.
use robot_remote_control.Base.{
  lookup, ℕ, ◌≡◌, refl, false, some, Option-cases, inl, inr, WhenReturns, WhenReturns-bind,
}
use robot_remote_control.Types.{Kind}
use robot_remote_control.MessageTypes.Telemetry
use robot_remote_control.Env.{Env}
use robot_remote_control.ControlledRobot.{Robot, telemetry_types}
use robot_remote_control.ControlledRobot.Commands.{
  add_command_received_callback as add_to_buffer, read,
}
use robot_remote_control.ControlledRobot.Promises.{get_future, promise_at}
use robot_remote_control.ControlledRobot.Sending.{send_telemetry, promised, request_permission}
use robot_remote_control.ControlledRobot.Setup.{
  setup_heartbeat_callback, add_command_received_callback, add_type_received_callback,
}
use robot_remote_control.ControlledRobot.Getters.{Getter, getter_type, get_command}
use robot_remote_control.ControlledRobot.Sound.{IsSound}
use robot_remote_control.ControlledRobot.Keeping.Requests.{insert-HasCommands}
use robot_remote_control.ControlledRobot.Keeping.Sending.{send_telemetry-IsSound}

module _ (env : Env) where
  open env.floats use {Float}
  open env.protobuf use {Message, kind_of, requestuid}

  pub setup_heartbeat_callback-IsSound :
      (latency : Float) (r : Robot env)
      → IsSound env r
      → IsSound env (setup_heartbeat_callback env latency r)
  unfolding setup_heartbeat_callback
  setup_heartbeat_callback-IsSound latency r sound = record {
    telemetry = sound.telemetry;
    commands = sound.commands;
    maps = sound.maps;
  }

  pub add_command_received_callback-IsSound :
      (cb : ℕ) (r : Robot env)
      → IsSound env r
      → IsSound env (add_command_received_callback env cb r)
  unfolding add_command_received_callback
  add_command_received_callback-IsSound cb r sound = record {
    telemetry = sound.telemetry;
    commands = sound.commands;
    maps = sound.maps;
  }

  pub add_type_received_callback-IsSound :
      (type cb : ℕ) (r : Robot env)
      → IsSound env r
      → WhenReturns (add_type_received_callback env type cb r) (IsSound env)
  unfolding add_type_received_callback add_to_buffer
  add_type_received_callback-IsSound type cb r sound =
      elim (Option-cases (lookup type r.commandbuffers)) [
        | inl e ↦ rw (e, WhenReturns) tt
        | inr (b, e) ↦
            rw (e, WhenReturns)
              (record {
                telemetry = sound.telemetry;
                commands = insert-HasCommands env type b _ r.commandbuffers e refl sound.commands;
                maps = sound.maps;
              })
      ]

  pub get_command-IsSound :
      (g : Getter) (r : Robot env)
      → IsSound env r
      → WhenReturns (get_command env g r) (λ out. IsSound env out.2)
  unfolding get_command read
  get_command-IsSound g r sound = elim (Option-cases (lookup (getter_type g) r.commandbuffers)) [
    | inl e ↦ rw (e, WhenReturns) tt
    | inr (b, e) ↦
        rw (e, WhenReturns)
          (record {
            telemetry = sound.telemetry;
            commands =
                insert-HasCommands env (getter_type g) b _ r.commandbuffers e refl sound.commands;
            maps = sound.maps;
          })
  ]

  pub request_permission-IsSound :
      (request : Message) (r : Robot env)
      → IsSound env r
      → kind_of request ≡ Kind.permission_request
      → WhenReturns (request_permission env request r) (λ out. IsSound env out.1)
  unfolding request_permission
  request_permission-IsSound request r sound is_request =
      let ready : IsSound env (promised env request r) = record {
        telemetry = sound.telemetry;
        commands = sound.commands;
        maps = sound.maps;
      } in
      let listed : lookup Telemetry.permission_request telemetry_types ≡ some (kind_of request) =
        rw is_request refl in
      WhenReturns-bind (λ out. IsSound env out.1)
        (send_telemetry env request Telemetry.permission_request false (promised env request r)) _
        λ sent e.
          let kept = rw e at (
            send_telemetry-IsSound env request Telemetry.permission_request false
              (promised env request r) ready listed) in
          elim (Option-cases
            (get_future (promise_at (requestuid request) sent.1.pending_permission_requests))) [
              | inl e ↦ rw (e, WhenReturns) tt
              | inr (p, e) ↦
                  rw (e, WhenReturns)
                    (record {
                      telemetry = kept.telemetry;
                      commands = kept.commands;
                      maps = kept.maps;
                    })
            ]
