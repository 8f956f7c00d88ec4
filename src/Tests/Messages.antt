-- ===== src/Tests/Messages.antt =====
-- Concrete cases for the messages that a robot handles.
use robot_remote_control.Base.{
  Returns, ◌>>=◌, ℕ, ◌≡◌, refl, arith, true, false, if◌then◌else◌, none, some, [], ◌∷◌, ◌++◌, ok,
  fault, Fault, List,
}
use robot_remote_control.Base.Int.{ℤ, pos}
use robot_remote_control.Bytes.{
  encode_uint16, str_eq, read_uint16, strip_type, read_uint16-encode_uint16,
}
use robot_remote_control.Types.{Kind}
use robot_remote_control.MessageTypes.Control
use robot_remote_control.Transport.{none_flag}
use robot_remote_control.ControlledRobot.{Robot}
use robot_remote_control.ControlledRobot.Commands.{CommandBuffer}
use robot_remote_control.ControlledRobot.Promises.{promise_at, put_promise}
use robot_remote_control.ControlledRobot.Sending.{request_permission, send_telemetry}
use robot_remote_control.ControlledRobot.Requests.{
  evaluate_request, permission_given, default_request,
}
use robot_remote_control.ControlledRobot.Getters.{
  get_twist_command, get_command, get_command-evaluate_request_bad,
}
use robot_remote_control.ControlledRobot.Granting.{
  answer, answer-permission_given, request_permission-send_telemetry, evaluate_request-permission,
}
use robot_remote_control.Tests.Samples.{Note, sample}
use robot_remote_control.Tests.Robot.{bare}

abbrev twist_buffer : CommandBuffer Note
twist_buffer = record {
  kind = Kind.twist;
  command = record { class_of = Kind.twist; content = [] };
  isnew = false;
  callbacks = 5 ∷ [];
}

abbrev heartbeat_buffer : CommandBuffer Note
heartbeat_buffer = record {
  kind = Kind.heart_beat;
  command = record { class_of = Kind.heart_beat; content = [] };
  isnew = false;
  callbacks = [];
}

-- A robot with two command buffers, a log level, a running timer and a callback for its expiry.
abbrev robot : Robot sample
robot = record bare {
  commandbuffers =
      (Control.twist_command, twist_buffer) ∷ (Control.heartbeat, heartbeat_buffer) ∷ [];
  command_callbacks = 6 ∷ [];
  heartbeat_timer = record { interval_s = pos 4; running = true; start_time = 3 };
  heartbeat_expired_callback = true;
}

abbrev a_twist : Note
a_twist = record { class_of = Kind.twist; content = 7 ∷ [] }

get_command-evaluate_request_bad_example :
    Returns {A = Robot sample × ℕ × Robot sample}
      (evaluate_request sample (encode_uint16 Control.twist_command ++ 0 ∷ 7 ∷ []) robot
        >>= λ first.
            evaluate_request sample (encode_uint16 Control.twist_command ++ 1 ∷ 7 ∷ []) first.1
            >>= λ second. ok (first.1, second.0, second.1))
      (λ out.
        (out.1 ≡ Control.no_control_data)
        × (out.2.command_transport
            ≡ (sample.transport.send
                (encode_uint16 Control.no_control_data)
                none_flag
                out.0.command_transport).1)
        × (out.2.called ≡ out.0.called)
        × Returns
            (get_command sample get_twist_command out.2)
            (λ got. (got.0 ≡ false) × (got.1 ≡ record { class_of = Kind.twist; content = [] })))
unfolding encode_uint16
get_command-evaluate_request_bad_example =
    get_command-evaluate_request_bad sample get_twist_command a_twist (1 ∷ 7 ∷ []) twist_buffer
      robot 2 2 refl refl refl refl refl

-- A permission that grants the request of the key 4, 2.
abbrev a_permission : Note
a_permission = record { class_of = Kind.permission; content = 1 ∷ 4 ∷ 2 ∷ [] }

abbrev a_request : Note
a_request = record { class_of = Kind.permission_request; content = 0 ∷ 4 ∷ 2 ∷ [] }

answer-permission_given_example :
    answer sample (4 ∷ 2 ∷ []) (permission_given sample (0 ∷ 1 ∷ 4 ∷ 2 ∷ []) robot) ≡ (
      if str_eq (4 ∷ 2 ∷ []) (4 ∷ 2 ∷ [])
      then elim (answer sample (4 ∷ 2 ∷ []) robot) [ none ↦ some true | some v ↦ some v ]
      else answer sample (4 ∷ 2 ∷ []) robot)
answer-permission_given_example =
    answer-permission_given sample (4 ∷ 2 ∷ []) a_permission robot refl

abbrev a_heartbeat : Note
a_heartbeat = record { class_of = Kind.heart_beat; content = 50 ∷ [] }

-- Three times without a new heartbeat.
abbrev rounds : List (ℕ × ℕ × ℕ)
rounds = (8, 9, 10) ∷ (18, 19, 20) ∷ (28, 29, 30) ∷ []

abbrev sent_request : ℤ × Robot sample
sent_request = (
  pos 0,
  record robot {
    telemetry_transport = none;
    pending_permission_requests = put_promise (4 ∷ 2 ∷ []) (promise_at (4 ∷ 2 ∷ []) []) [];
  },
)

request_permission-send_telemetry_example :
    request_permission sample a_request (record robot { telemetry_transport = none }) ≡ (
      let uid = 4 ∷ 2 ∷ [] in
      let p = promise_at uid [] in
      if p.retrieved
      then fault Fault.no_return
      else ok (
        uid,
        record (sent_request.1) {
          pending_permission_requests =
              put_promise uid
                (record p { retrieved = true })
                sent_request.1.pending_permission_requests;
        },
      ))
unfolding send_telemetry
request_permission-send_telemetry_example =
    request_permission-send_telemetry sample a_request (record robot { telemetry_transport = none })
      sent_request refl

read_uint16-encode_uint16_example :
    (read_uint16 (encode_uint16 300 ++ 7 ∷ []) ≡ ok 300)
    × (strip_type (encode_uint16 300 ++ 7 ∷ []) ≡ ok (7 ∷ []))
read_uint16-encode_uint16_example = read_uint16-encode_uint16 300 (7 ∷ []) (omega arith)

evaluate_request-permission_example :
    evaluate_request sample (encode_uint16 Control.permission ++ 0 ∷ 1 ∷ 4 ∷ 2 ∷ []) robot
    ≡ default_request sample Control.permission
        (0 ∷ 1 ∷ 4 ∷ 2 ∷ [])
        (permission_given sample (0 ∷ 1 ∷ 4 ∷ 2 ∷ []) robot)
evaluate_request-permission_example = evaluate_request-permission sample (0 ∷ 1 ∷ 4 ∷ 2 ∷ []) robot
