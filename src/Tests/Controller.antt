-- ===== src/Tests/Controller.antt =====
-- Concrete cases for the controller.
use robot_remote_control.Base.{
  take, ℕ, ◌*◌, ◌≡◌, ◌≤◌, refl, arith, true, false, none, some, List, [], ◌∷◌, ◌++◌, map, ok,
  Returns, Returns_value, length, replicate,
}
use robot_remote_control.Base.Int.{pos}
use robot_remote_control.Bytes.{Bytes, encode_uint16}
use robot_remote_control.Types.{Kind}
use robot_remote_control.MessageTypes.Telemetry
use robot_remote_control.Timer.{start, is_expired}
use robot_remote_control.Transport.{Link, noblock}
use robot_remote_control.RingBuffer.{new_ring}
use robot_remote_control.RingBuffer.Queue
use robot_remote_control.RingBuffer.Calls.{new_ring-IsValid}
use robot_remote_control.RobotController.{
  Controller, new_robot_controller, set_max_latency, unregistered,
}
use robot_remote_control.RobotController.Requests.{send_request}
use robot_remote_control.RobotController.Receiving.{evaluate_telemetry}
use robot_remote_control.RobotController.Reading.{get_telemetry}
use robot_remote_control.RobotController.Update.{receive_telemetry}
use robot_remote_control.RobotController.Replied.{Answered, send_request-Answered}
use robot_remote_control.RobotController.Delivered.{Pending}
use robot_remote_control.RobotController.Sensors.{Sensed, evaluate_telemetry-Sensed}
use robot_remote_control.RobotController.Keeping.{IsSound, new_robot_controller-IsSound}
use robot_remote_control.RobotController.Reachable.{
  Reached, constructed, latency_set, Reached-IsSound, Reached-get_telemetry,
}
use robot_remote_control.RobotController.Stream.{
  Yields, nothing, one_more, receive_telemetry-Pending,
}
use robot_remote_control.Tests.Samples.{Note, sample, waiting}

abbrev pose_at : ℕ → Note
pose_at n = record { class_of = Kind.pose; content = n ∷ [] }

abbrev framed : Note → Bytes
framed m = encode_uint16 Telemetry.current_pose ++ 0 ∷ m.content

abbrev incoming : List Note
incoming = pose_at 5 ∷ pose_at 6 ∷ pose_at 7 ∷ []

-- A controller that knows the types 0 and 1, with a buffer of two poses, and to which three poses come.
abbrev controller : Controller sample
controller =
    record (unregistered sample (some (waiting ((9 ∷ []) ∷ [])))
      (some (waiting (map framed incoming))) (pos 5000) false 0) {
        buffers = record {
          slots = none ∷ some (record { kind = Kind.pose; ring = new_ring (pose_at 0) 2 }) ∷ [];
          converters = [];
        };
        telemetry_adders = none ∷ some Kind.pose ∷ replicate 10 none;
      }

nothing-Pending : Pending sample 1 Kind.pose 2 [] controller
unfolding new_ring
nothing-Pending =
    let (valid, empty) = new_ring-IsValid (pose_at 0) 2 (omega arith) (omega arith) in
    (record { typed = refl; valid = valid; sized = refl }, empty)

abbrev clock : ℕ → ℕ
clock n = 1000 * n

send_request-Answered_example :
    (out : Bytes × Controller sample) × (send_request sample 9 clock (1 ∷ 0 ∷ []) noblock controller
      ≡ some (ok out))
    × Answered sample clock (1 ∷ 0 ∷ []) noblock (waiting ((9 ∷ []) ∷ [])) controller out
unfolding is_expired start
send_request-Answered_example =
    send_request-Answered sample 4 9 clock (1 ∷ 0 ∷ []) noblock (waiting ((9 ∷ []) ∷ [])) controller
      refl (λ j. omega arith) refl (omega arith)

-- A map, which the controller takes on request only.
abbrev map_comes : Link
map_comes = waiting ((encode_uint16 Telemetry.map_telemetry ++ 0 ∷ 3 ∷ []) ∷ [])

abbrev a_value : Note
a_value = record { class_of = Kind.simple_sensor; content = 3 ∷ 44 ∷ [] }

evaluate_telemetry-Sensed_example :
    Returns
      (evaluate_telemetry sample
        (encode_uint16 Telemetry.simple_sensor_value ++ 0 ∷ 3 ∷ 44 ∷ [])
        controller)
      (λ out. Sensed sample a_value controller out.1)
evaluate_telemetry-Sensed_example =
    evaluate_telemetry-Sensed sample a_value controller refl (omega arith) refl tt

all_wait : Yields sample (waiting (map framed incoming)) (map framed incoming) (waiting [])
unfolding encode_uint16
all_wait =
    one_more _ _ _ (λ e. omega (arith, e))
      (one_more _ _ _ (λ e. omega (arith, e))
        (one_more _ _ _ (λ e. omega (arith, e)) (nothing _ refl)))

receive_telemetry-Pending_example :
    (out : Controller sample) × (receive_telemetry sample 4 controller ≡ some (ok out))
    × (out.telemetry_transport ≡ some (waiting []))
    × Pending sample 1 Kind.pose 2 (take 2 ([] ++ incoming)) out
receive_telemetry-Pending_example =
    receive_telemetry-Pending sample 4 1 2 Kind.pose (waiting (map framed incoming)) (waiting [])
      incoming [] controller refl all_wait (omega arith) (omega arith) (refl, (refl, (refl, tt)))
      refl (omega arith) nothing-Pending

-- A controller to which the reply to a request for the pose comes.
abbrev asking : Controller sample
asking = record controller { command_transport = some (waiting ((0 ∷ 5 ∷ []) ∷ [])) }

-- A controller with buffers of capacity 2 that was made and then given another latency.
set_up :
    (c : Controller sample) × (new_robot_controller sample none none 2 (pos 5000) true 7 ≡ ok c)
    × IsSound sample 2 c
set_up =
    Returns_value (IsSound sample 2) (new_robot_controller sample none none 2 (pos 5000) true 7) (
      new_robot_controller-IsSound sample none none 2 (pos 5000) true 7 (omega arith) (omega arith))

set_up-Reached : Reached sample 2 (set_max_latency sample (pos 300) set_up.0)
set_up-Reached =
    latency_set (pos 300) set_up.0
      (constructed none none (pos 5000) true 7 set_up.0 (omega arith) (omega arith) set_up.1)

Reached-IsSound_example : IsSound sample 2 (set_max_latency sample (pos 300) set_up.0)
Reached-IsSound_example =
    Reached-IsSound sample 2 (set_max_latency sample (pos 300) set_up.0) set_up-Reached

Reached-get_telemetry_example :
    (q : List Note) × (length q ≤ 2)
    × (Pending sample Telemetry.current_pose Kind.pose 2 q
          (set_max_latency sample (pos 300) set_up.0)
        × Returns
            (evaluate_telemetry sample
              (encode_uint16 Telemetry.current_pose ++ 0 ∷ 5 ∷ [])
              (set_max_latency sample (pos 300) set_up.0))
            (λ out.
              Returns
                (get_telemetry sample Kind.pose Telemetry.current_pose out.1)
                (λ got. got.0 ≡ Queue.first (q ++ pose_at 5 ∷ []))))
Reached-get_telemetry_example =
    Reached-get_telemetry sample 2 (set_max_latency sample (pos 300) set_up.0) (pose_at 5)
      Telemetry.current_pose set_up-Reached refl
