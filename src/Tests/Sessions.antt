-- ===== src/Tests/Sessions.antt =====
-- Concrete cases for a controller that is connected to a robot.
use robot_remote_control.Base.{
  ℕ, ◌*◌, ◌<◌, ◌≤◌, ◌≡◌, ◌⊎◌, refl, true, false, some, none, [], ◌∷◌, ok, Returns, arith,
}
use robot_remote_control.Base.Int.{pos, negsuc}
use robot_remote_control.Bytes.{encode_uint16}
use robot_remote_control.Types.{Kind}
use robot_remote_control.Floats.{exact}
use robot_remote_control.MessageTypes.Control
use robot_remote_control.MessageTypes.Telemetry
use robot_remote_control.MessageTypes.Level.{custom}
use robot_remote_control.Env.{Env}
use robot_remote_control.Timer.{start, is_expired}
use robot_remote_control.ControlledRobot.{Robot}
use robot_remote_control.ControlledRobot.Sending.{set_map, set_log_message, send_telemetry}
use robot_remote_control.ControlledRobot.Setters.{Setter, set_telemetry}
use robot_remote_control.ControlledRobot.Getters.{Getter, get_command}
use robot_remote_control.RobotController.{Controller, unregistered}
use robot_remote_control.RobotController.Requests.{Command, send_command, set_log_level}
use robot_remote_control.RobotController.Asking.{Request, ask, request_map}
use robot_remote_control.Session.{robot_env, controller_env, ask-set_telemetry}
use robot_remote_control.Session.Commanding.{get_command-send_command}
use robot_remote_control.Session.Requesting.{request_map-set_map, set_log_message-set_log_level}
use robot_remote_control.Tests.Samples.{Note, first_byte, notes, waiting}
use robot_remote_control.Tests.Robot.{made, made-Reachable, made-connected, a_pose}

abbrev operator : Controller (controller_env exact notes)
operator = unregistered (controller_env exact notes) none none (pos 5000) false 0

abbrev clock : ℕ → ℕ
clock n = 1000 * n

ask-set_telemetry_example :
    Returns (set_telemetry (robot_env exact notes) Setter.set_current_pose a_pose made) (λ out.
      (c' : Controller (controller_env exact notes)) × (ask
          (controller_env exact notes)
          1
          clock
          Request.request_current_pose
          (record operator { command_transport = some (out.1) })
        ≡ some (ok (a_pose, c')))
      × (c'.connected ≡ true))
unfolding is_expired start
ask-set_telemetry_example =
    ask-set_telemetry exact notes Setter.set_current_pose Request.request_current_pose a_pose made
      (waiting []) operator 0 clock made-Reachable refl refl refl made-connected
      (λ e. omega (arith, e)) refl

abbrev a_twist : Note
a_twist = record { class_of = Kind.twist; content = 3 ∷ [] }

abbrev faced : Env
faced = controller_env exact notes

abbrev served_robot : Env
served_robot = robot_env exact notes

get_command-send_command_example :
    (c' : Controller faced) × (r' : Robot served_robot) × (send_command faced 1 clock
        Command.set_twist_command a_twist
        (record operator { command_transport = some made })
      ≡ some (ok (encode_uint16 Control.twist_command, c')))
    × (c'.connected ≡ true)
    × (c'.command_transport ≡ some r')
    × Returns (get_command served_robot Getter.get_twist_command r') (λ first.
      (first.0 ≡ true)
      × (first.1 ≡ a_twist)
      × Returns
          (get_command served_robot Getter.get_twist_command first.2)
          (λ second. (second.0 ≡ false) × (second.1 ≡ a_twist)))
unfolding is_expired start
get_command-send_command_example =
    get_command-send_command exact notes Getter.get_twist_command Command.set_twist_command a_twist
      made operator 0 clock made-Reachable refl refl refl

request_map-set_map_example : Returns (set_map served_robot (5 ∷ 6 ∷ []) 2 made) (λ out.
    (c' : Controller faced) × (request_map faced 1 clock 2
        (record operator { command_transport = some (out.1) })
      ≡ some (ok (5 ∷ 6 ∷ [], c')))
    × (c'.connected ≡ true))
unfolding is_expired start
request_map-set_map_example =
    request_map-set_map exact notes (5 ∷ 6 ∷ []) 2 made operator 0 clock made-Reachable
      (omega arith) (λ e. omega (arith, e)) refl

set_log_message-set_log_level_example :
    (c' : Controller faced) × (r' : Robot served_robot) × (set_log_level faced 1 clock 2
        (record operator { command_transport = some made })
      ≡ some (ok (encode_uint16 Control.log_level_select, c')))
    × (c'.command_transport ≡ some r')
    × ((m : Note)
        → (2 < first_byte m.content
            → first_byte m.content < custom
            → set_log_message served_robot m r' ≡ ok (negsuc 0, r'))
          × ((first_byte m.content ≤ 2) ⊎ (custom ≤ first_byte m.content)
              → set_log_message served_robot m r'
                ≡ send_telemetry served_robot m Telemetry.log_message false r'))
unfolding is_expired start
set_log_message-set_log_level_example =
    set_log_message-set_log_level exact notes 2 made operator 0 clock (omega arith) refl

-- A controller whose heartbeat, announced for 7 microseconds, is due.
abbrev due : Controller faced
due = record operator {
  heart_beat_duration = pos 7;
  heart_beat_timer = record { interval_s = pos 7; running = true; start_time = 0 };
}
