-- ===== src/Tests/Streams.antt =====
-- A concrete case for telemetry that a robot sends to a controller.
use robot_remote_control.Base.{
  ℕ, ◌≡◌, ◌≤◌, refl, arith, false, none, some, List, [], ◌∷◌, ◌++◌, map, take, Result, ok, fault,
  length, Returns,
}
use robot_remote_control.Base.Int.{pos}
use robot_remote_control.Bytes.{encode_uint16}
use robot_remote_control.Types.{Kind}
use robot_remote_control.Transport.{Link}
use robot_remote_control.TelemetryBuffer.{register_type, new_telemetry_buffer}
use robot_remote_control.ControlledRobot.Setters.{Setter}
use robot_remote_control.RobotController.{
  Controller, new_robot_controller, register_adders, register_adder, unregistered,
}
use robot_remote_control.RobotController.Reading.{Reader}
use robot_remote_control.RobotController.Update.{receive_telemetry}
use robot_remote_control.RobotController.Reachable.{Reached, constructed}
use robot_remote_control.RobotController.Stream.{Yields, nothing, one_more}
use robot_remote_control.Session.Streaming.{set_each, framed, Gives, read_telemetry-set_telemetry}
use robot_remote_control.Tests.Samples.{Note, sample, waiting}
use robot_remote_control.Tests.Robot.{made, made-Reachable, made-connected}

abbrev pose_of : ℕ → Note
pose_of n = record { class_of = Kind.pose; content = n ∷ [] }

abbrev three : List Note
three = pose_of 5 ∷ pose_of 6 ∷ pose_of 7 ∷ []

abbrev channel : Link
channel = waiting (map (framed sample Setter.set_current_pose) three)

abbrev sent_three : Link
sent_three = record { inbox = []; outbox = map (framed sample Setter.set_current_pose) three }

abbrev value_or : Controller sample → Result (Controller sample) → Controller sample
value_or other (ok c) = c
value_or other (fault e) = other

-- A controller with buffers for two messages, as the constructor returns it.
abbrev fresh : Controller sample
fresh =
    value_or (unregistered sample none none (pos 0) false 0)
      (new_robot_controller sample none (some channel) 2 (pos 5000) false 7)

fresh_lem : new_robot_controller sample none (some channel) 2 (pos 5000) false 7 ≡ ok fresh
unfolding new_robot_controller register_adders register_adder register_type new_telemetry_buffer
fresh_lem = refl

fresh-Reached : Reached sample 2 fresh
fresh-Reached =
    constructed none (some channel) (pos 5000) false 7 fresh (omega arith) (omega arith) fresh_lem

fresh-connected : fresh.telemetry_transport ≡ some channel
unfolding new_robot_controller register_adders register_adder register_type new_telemetry_buffer
fresh-connected = refl

brought : Yields sample channel (map (framed sample Setter.set_current_pose) three) (waiting [])
unfolding encode_uint16
brought =
    one_more _ _ _ (λ e. omega (arith, e))
      (one_more _ _ _ (λ e. omega (arith, e))
        (one_more _ _ _ (λ e. omega (arith, e)) (nothing _ refl)))

read_telemetry-set_telemetry_example :
    Returns
      (set_each sample Setter.set_current_pose three made)
      (λ r'. r'.telemetry_transport ≡ some sent_three)
    × ((q : List Note) × (length q ≤ 2)
        × Gives sample Reader.get_current_pose q fresh
        × ((out : Controller sample) × (receive_telemetry sample 4 fresh ≡ some (ok out))
            × (out.telemetry_transport ≡ some (waiting []))
            × Gives sample Reader.get_current_pose (take 2 (q ++ three)) out))
unfolding encode_uint16
read_telemetry-set_telemetry_example =
    read_telemetry-set_telemetry sample Setter.set_current_pose Reader.get_current_pose three made
      fresh 2 4 (waiting []) sent_three channel (waiting []) made-Reachable fresh-Reached refl refl
      refl (refl, (refl, (refl, tt))) made-connected fresh-connected
      ((4, refl), ((4, refl), ((4, refl), refl))) brought (omega arith)
