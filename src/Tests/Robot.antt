-- ===== src/Tests/Robot.antt =====
-- Concrete cases for the robot's telemetry, maps and states.
use robot_remote_control.Base.{
  ℕ, ◌<◌, ◌≡◌, ◌≢◌, refl, arith, false, some, List, [], ◌∷◌, ◌++◌, Result, ok, fault, Fault, ◌>>=◌,
  Returns, WhenReturns, length,
}
use robot_remote_control.Base.Int.{pos}
use robot_remote_control.Bytes.{Bytes, encode_uint16}
use robot_remote_control.Types.{Kind}
use robot_remote_control.MessageTypes.Control
use robot_remote_control.MessageTypes.Telemetry
use robot_remote_control.Transport.{Link, link_receive, noblock}
use robot_remote_control.Timer.{start}
use robot_remote_control.Floats.{exact}
use robot_remote_control.TelemetryBuffer.{register_type, new_telemetry_buffer}
use robot_remote_control.ControlledRobot.{Robot, new_controlled_robot}
use robot_remote_control.ControlledRobot.Sending.{send_telemetry, set_map}
use robot_remote_control.ControlledRobot.Requests.{evaluate_request, send_reply}
use robot_remote_control.ControlledRobot.Update.{drain}
use robot_remote_control.ControlledRobot.Sound.{IsSound}
use robot_remote_control.ControlledRobot.Stored.{set_map_overflow}
use robot_remote_control.ControlledRobot.Replies.{
  RepliesOnce, evaluate_request-RepliesOnce, Waits, drain_total,
}
use robot_remote_control.ControlledRobot.Reachable.{
  Reachable, constructed, Reachable-IsSound, Reachable-send_telemetry,
}
use robot_remote_control.Tests.Samples.{Note, sample, waiting}

abbrev pub made_with : Result (Robot sample) → Robot sample → Robot sample
made_with (ok r) other = r
made_with (fault e) other = other

-- A robot without any command buffer, with two messages to handle.
abbrev pub bare : Robot sample
bare = record {
  command_transport =
      waiting
        ((encode_uint16 Control.log_level_select ++ encode_uint16 3) ∷ (encode_uint16 99) ∷ []);
  telemetry_transport = some (waiting []);
  commandbuffers = [];
  command_callbacks = [];
  heartbeat_values = record { class_of = Kind.heart_beat; content = [] };
  heartbeat_timer =
      start exact (pos 0) 0 (record { interval_s = pos 0; running = false; start_time = 0 });
  heartbeat_allowed_latency = pos 100;
  heartbeat_expired_callback = false;
  connected = false;
  map_buffer = [];
  buffers = new_telemetry_buffer;
  log_level = 19;
  pending_permission_requests = [];
  called = [];
}

-- The robot that the constructor returns.
abbrev pub made : Robot sample
made =
    made_with
      (new_controlled_robot sample bare.command_transport (some (waiting [])) (pos 100) false) bare

made_lem :
    new_controlled_robot sample bare.command_transport (some (waiting [])) (pos 100) false ≡ ok made
unfolding new_controlled_robot register_type new_telemetry_buffer
made_lem = refl

pub made-Reachable : Reachable sample made
made-Reachable =
    constructed bare.command_transport (some (waiting [])) (pos 100) false made made_lem

pub made-connected : made.telemetry_transport ≡ some (waiting [])
unfolding new_controlled_robot register_type new_telemetry_buffer
made-connected = refl

abbrev pub a_pose : Note
a_pose = record { class_of = Kind.pose; content = 1 ∷ 2 ∷ [] }

Reachable-IsSound_example : IsSound sample made
Reachable-IsSound_example = Reachable-IsSound sample made made-Reachable

Reachable-send_telemetry_example :
    Returns (send_telemetry sample a_pose Telemetry.current_pose false made) (λ out.
      evaluate_request sample
        (encode_uint16 Control.telemetry_request ++ encode_uint16 Telemetry.current_pose)
        out.1
      ≡ (send_reply sample (0 ∷ 1 ∷ 2 ∷ []) out.1 >>= λ r'. ok (Control.telemetry_request, r')))
unfolding encode_uint16
Reachable-send_telemetry_example =
    Reachable-send_telemetry sample made a_pose Telemetry.current_pose 5 false (waiting [])
      made-Reachable refl made-connected refl

set_map_overflow_example : set_map sample (5 ∷ []) 65536 bare ≡ fault Fault.out_of_bounds
set_map_overflow_example =
    set_map_overflow sample (5 ∷ []) 65536 bare tt (omega arith) (omega arith)

evaluate_request-RepliesOnce_example :
    WhenReturns
      (evaluate_request sample (encode_uint16 Control.map_request ++ encode_uint16 3) bare)
      (RepliesOnce sample bare)
evaluate_request-RepliesOnce_example =
    evaluate_request-RepliesOnce sample (encode_uint16 Control.map_request ++ encode_uint16 3) bare

abbrev inbox_length : Link → ℕ
inbox_length l = length l.inbox

shorter :
    (inbox outbox : List Bytes)
    → (link_receive inbox outbox).0 ≢ 0
    → inbox_length (link_receive inbox outbox).2 < length inbox
shorter [] outbox some_message = absurd (some_message refl)
shorter (m ∷ ms) outbox some_message = omega arith

link_received :
    (s : Link)
    → (sample.transport.receive noblock s).0 ≢ 0
    → inbox_length (sample.transport.receive noblock s).2 < inbox_length s
link_received s some_message = shorter s.inbox s.outbox some_message

inbox_length-Waits : Waits sample inbox_length
inbox_length-Waits = record { received = link_received; sent = λ reply s. omega arith }

drain_total_example : (out : Result (Robot sample)) × (drain sample 3 bare ≡ some out)
drain_total_example = drain_total sample inbox_length inbox_length-Waits 3 bare (omega arith)
