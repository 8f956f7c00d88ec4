-- ===== src/Session/Commanding.antt =====
-- A command from the application of the controller to the application of the robot.
use robot_remote_control.Base.{
  ℕ, suc, ◌≡◌, ◌≢◌, refl, true, false, some, lookup, ok, length, Returns, arith,
}
use robot_remote_control.Bytes.{encode_uint16}
use robot_remote_control.Types.{Protobuf}
use robot_remote_control.Floats.{Floats}
use robot_remote_control.Timer.{start, is_expired}
use robot_remote_control.ControlledRobot.{Robot, command_types}
use robot_remote_control.ControlledRobot.Reachable.{Reachable, Reachable-IsSound}
use robot_remote_control.ControlledRobot.Handling.{accepted, evaluate_request-accepted}
use robot_remote_control.ControlledRobot.Getters.{
  Getter, getter_type, getter_type-IsPlain, get_command, get_command-evaluate_request,
}
use robot_remote_control.RobotController.{Controller}
use robot_remote_control.RobotController.Requests.{Clock, Command, sent_type, send_command}
use robot_remote_control.RobotController.Asking.{answered}
use robot_remote_control.Session.{
  robot_env, controller_env, send_request-evaluate_request, newest_last,
}

pub encode_uint16-length : (n : ℕ) → length (encode_uint16 n) ≢ 0
unfolding encode_uint16
encode_uint16-length n e = omega arith

module _ (f : Floats) (pb : Protobuf f.Float) where
  open pb use {Message, kind_of, serialize}

  -- For a controller whose connection is a robot, whatever the robot went through before: a command
  -- that the application of the controller sends is acknowledged by its type if the reply comes in
  -- time, the controller is connected then, and the application of the robot gets the command as new
  -- by the getter for its type, and again as not new if it asks twice.
  pub get_command-send_command :
      (g : Getter) (command : Command) (m : Message) (r : Robot (robot_env f pb))
      (c : Controller (controller_env f pb)) (fuel : ℕ) (clock : Clock)
      → Reachable (robot_env f pb) r
      → sent_type command ≡ getter_type g
      → lookup (getter_type g) command_types ≡ some (kind_of m)
      → is_expired f (clock 1) (start f c.max_latency (clock 0) c.request_timer) ≡ false
      → (c' : Controller (controller_env f pb)) × (r' : Robot (robot_env f pb)) × (send_command
            (controller_env f pb)
            (suc fuel)
            clock
            command
            m
            (record c { command_transport = some r })
          ≡ some (ok (encode_uint16 (sent_type command), c')))
        × (c'.connected ≡ true)
        × (c'.command_transport ≡ some r')
        × Returns (get_command (robot_env f pb) g r') (λ first.
          (first.0 ≡ true)
          × (first.1 ≡ m)
          × Returns
              (get_command (robot_env f pb) g first.2)
              (λ second. (second.0 ≡ false) × (second.1 ≡ m)))
  unfolding send_command
  get_command-send_command g command m r c fuel clock reached types of_class in_time =
      let type = getter_type g in
      let (b, found, same) =
        (Reachable-IsSound (robot_env f pb) r reached).commands type (kind_of m) of_class in
      let bytes = length (encode_uint16 type) in
      let r' = accepted (robot_env f pb) type m b r in
      let handles =
        evaluate_request-accepted (robot_env f pb) type m b r bytes (getter_type-IsPlain g) found
          same refl in
      (
        answered (controller_env f pb) clock r' c,
        r',
        rw types (
            send_request-evaluate_request f pb fuel clock _ (encode_uint16 type) type r r' c handles
              (newest_last r.command_transport.outbox (encode_uint16 type))
              (encode_uint16-length type) in_time),
        refl,
        refl,
        rw handles at (get_command-evaluate_request (robot_env f pb) g m b r bytes found same refl),
      )
