-- ===== src/Session.antt =====
-- A controller and a robot that are connected to each other: the connection of the controller is the
-- robot, which handles each request that is sent before the reply is polled for, and the reply is what
-- it sent last.
pub mod Commanding
pub mod Requesting
pub mod Maps
pub mod Streaming
use robot_remote_control.Base.{
  ℕ, suc, ◌≡◌, ◌≢◌, refl, ap, ◌∙◌, sym, true, false, Option, none, some, List, [], ◌∷◌, ◌++◌, ok,
  fault, ◌>>=◌, length, Returns, Returns-map,
}
use robot_remote_control.Bytes.{Bytes, encode_uint16}
use robot_remote_control.Types.{Protobuf}
use robot_remote_control.Floats.{Floats}
use robot_remote_control.MessageTypes.Control
use robot_remote_control.Timer.{start, is_expired}
use robot_remote_control.Transport.{Transport, Link, link, noblock}
use robot_remote_control.Env.{Env}
use robot_remote_control.ControlledRobot.{Robot}
use robot_remote_control.ControlledRobot.Requests.{evaluate_request, send_reply}
use robot_remote_control.ControlledRobot.Reachable.{Reachable}
use robot_remote_control.ControlledRobot.Setters.{
  Setter, setter_type, setter_class, set_telemetry, set_telemetry-evaluate_request,
}
use robot_remote_control.RobotController.{Controller}
use robot_remote_control.RobotController.Requests.{Clock, send_request}
use robot_remote_control.RobotController.Asking.{
  Request, requested_type, requested_class, ask, ask-receive, answered, send_request-receive,
}

abbrev newest : List Bytes → Bytes
newest [] = []
newest (m ∷ []) = m
newest (m ∷ n ∷ ms) = newest (n ∷ ms)

pub newest_last : (ms : List Bytes) (m : Bytes) → newest (ms ++ m ∷ []) ≡ m
newest_last [] m = refl
newest_last (n ∷ []) m = refl
newest_last (n ∷ o ∷ ms) m = newest_last (o ∷ ms) m

module _ (f : Floats) (pb : Protobuf f.Float) where
  open pb use {Message, kind_of, serialize}

  abbrev pub robot_env : Env
  robot_env = record { floats = f; protobuf = pb; transport = link }

  -- A fault of the robot is an exception on the connection.
  abbrev pub handled : Bytes → Robot robot_env → Option ℕ × Robot robot_env
  handled message r = elim (evaluate_request robot_env message r) [
    | fault e ↦ (none, r)
    | ok out ↦ (some (length message), out.1)
  ]

  abbrev pub served : Transport
  served = record {
    State = Robot robot_env;
    send = λ message flags r. handled message r;
    receive = λ flags r.
        (length (newest r.command_transport.outbox), newest r.command_transport.outbox, r);
  }

  abbrev pub controller_env : Env
  controller_env = record { floats = f; protobuf = pb; transport = served }

  -- The request for the type of a setter, and what the robot sends as the reply.
  reply_sent :
      (q : Request) (m : Message) (r : Robot robot_env)
      → evaluate_request robot_env
          (encode_uint16 Control.telemetry_request ++ encode_uint16 (requested_type q))
          r
        ≡ (send_reply robot_env (serialize m) r >>= λ r'. ok (Control.telemetry_request, r'))
      → (handled (encode_uint16 Control.telemetry_request ++ encode_uint16 (requested_type q)) r)
        ≡ (
          some (
              length (encode_uint16 Control.telemetry_request ++ encode_uint16 (requested_type q))),
          record r {
            command_transport = record (r.command_transport) {
              outbox = r.command_transport.outbox ++ serialize m ∷ [];
            };
          },
        )
  unfolding send_reply
  reply_sent q m r e = rw (e, handled) refl

  -- What the application of a robot gives to a setter is what the application of a controller gets by
  -- the request for the setter's type, whatever the robot went through before, if the message is not
  -- serialized to nothing and the robot replies in time.
  pub ask-set_telemetry :
      (s : Setter) (q : Request) (m : Message) (r : Robot robot_env) (t : Link)
      (c : Controller controller_env) (fuel : ℕ) (clock : Clock)
      → Reachable robot_env r
      → kind_of m ≡ setter_class s
      → requested_type q ≡ setter_type s
      → requested_class q ≡ setter_class s
      → r.telemetry_transport ≡ some t
      → length (serialize m) ≢ 0
      → is_expired f (clock 1) (start f c.max_latency (clock 0) c.request_timer) ≡ false
      → Returns (set_telemetry robot_env s m r) (λ out.
        (c' : Controller controller_env) × (ask controller_env
            (suc fuel)
            clock
            q
            (record c { command_transport = some (out.1) })
          ≡ some (ok (m, c')))
        × (c'.connected ≡ true))
  ask-set_telemetry s q m r t c fuel clock reached of_class types classes connected something
        in_time =
      Returns-map _ _ (set_telemetry robot_env s m r)
        (set_telemetry-evaluate_request robot_env s m r t _ reached of_class connected refl)
        λ out answered.
          let request =
            encode_uint16 Control.telemetry_request ++ encode_uint16 (requested_type q) in
          let done = reply_sent q m out.1 (rw types answered) in
          let reply : newest (handled request out.1).1.command_transport.outbox ≡ serialize m =
            ap (λ h. newest h.1.command_transport.outbox) done
            ∙ newest_last out.1.command_transport.outbox (serialize m) in
          ask-receive controller_env fuel clock q m (record c { command_transport = some (out.1) })
            out.1 (length request) refl (ap (λ h. h.0) done)
            (λ none_there. something (ap length (sym reply) ∙ none_there)) reply
            (of_class ∙ sym classes) in_time

  -- A request that the robot handles and answers with something is returned by `sendRequest` with the
  -- robot's last message for the reply.
  pub send_request-evaluate_request :
      (fuel : ℕ) (clock : Clock) (message reply : Bytes) (type : ℕ) (r r' : Robot robot_env)
      (c : Controller controller_env)
      → evaluate_request robot_env message r ≡ ok (type, r')
      → newest r'.command_transport.outbox ≡ reply
      → length reply ≢ 0
      → is_expired f (clock 1) (start f c.max_latency (clock 0) c.request_timer) ≡ false
      → send_request controller_env
          (suc fuel)
          clock
          message
          noblock
          (record c { command_transport = some r })
        ≡ some (ok (reply, answered controller_env clock r' c))
  send_request-evaluate_request fuel clock message reply type r r' c handles last something
        in_time =
      let done : handled message r ≡ (some (length message), r') = rw (handles, handled) refl in
      send_request-receive controller_env fuel clock message
        (record c { command_transport = some r }) r (length message) refl (ap (λ h. h.0) done)
        (λ none_there. something (
          ap length (sym last)
          ∙ ap (λ h. length (newest h.1.command_transport.outbox)) (sym done)
          ∙ none_there))
        in_time
      ∙ rw (done, last)
