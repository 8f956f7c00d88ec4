-- ===== src/ControlledRobot/Reachable.antt =====
-- The states that a robot gets into by the calls of its application and the messages it receives.
use robot_remote_control.Base.{ℕ, ◌≡◌, refl, Bool, Option, some, ◌++◌, ok, ◌>>=◌, lookup, Returns}
use robot_remote_control.Base.Int.{ℤ}
use robot_remote_control.Bytes.{Bytes, encode_uint16}
use robot_remote_control.Types.{Kind}
use robot_remote_control.Types.Table.{lookup_below}
use robot_remote_control.MessageTypes.Control
use robot_remote_control.Transport.{none_flag}
use robot_remote_control.Env.{Env}
use robot_remote_control.ControlledRobot.{Robot, telemetry_types, new_controlled_robot}
use robot_remote_control.ControlledRobot.Sending.{send_telemetry, set_map}
use robot_remote_control.ControlledRobot.Requests.{evaluate_request, receive_request, send_reply}
use robot_remote_control.ControlledRobot.Update.{update}
use robot_remote_control.ControlledRobot.Sending.{request_permission}
use robot_remote_control.ControlledRobot.Setup.{
  setup_heartbeat_callback, add_command_received_callback, add_type_received_callback,
}
use robot_remote_control.ControlledRobot.Getters.{Getter, get_command}
use robot_remote_control.ControlledRobot.Keeping.Application.{
  setup_heartbeat_callback-IsSound, add_command_received_callback-IsSound,
  add_type_received_callback-IsSound, get_command-IsSound, request_permission-IsSound,
}
use robot_remote_control.ControlledRobot.Sound.{IsSound, new_controlled_robot-IsSound}
use robot_remote_control.ControlledRobot.Keeping.Requests.{receive_request-IsSound}
use robot_remote_control.ControlledRobot.Keeping.Sending.{send_telemetry-IsSound, set_map-IsSound}
use robot_remote_control.ControlledRobot.Keeping.Updating.{WhenUpdated, update-IsSound}
use robot_remote_control.ControlledRobot.Stored.{telemetry_requested-send_telemetry}

module _ (env : Env) where
  open env.floats use {Float}
  open env.protobuf use {Message, kind_of, serialize}
  open env.transport use {State, send}

  -- Each step is a call that returned. Telemetry is sent by the setters, under a type that the
  -- constructor registered for its class.
  pub data Reachable : Robot env → Type 0 where
    constructed :
        (c : State) (t : Option State) (latency : Float) (garbage : Bool) (r : Robot env)
        → new_controlled_robot env c t latency garbage ≡ ok r
        → Reachable r
    sent :
        (m : Message) (type : ℕ) (only : Bool) (r : Robot env) (out : ℤ × Robot env)
        → Reachable r
        → lookup type telemetry_types ≡ some (kind_of m)
        → send_telemetry env m type only r ≡ ok out
        → Reachable out.1
    mapped :
        (m : Bytes) (map_id : ℕ) (r : Robot env) (out : ℤ × Robot env)
        → Reachable r
        → set_map env m map_id r ≡ ok out
        → Reachable out.1
    received :
        (r : Robot env) (out : ℕ × Robot env)
        → Reachable r
        → receive_request env r ≡ ok out
        → Reachable out.1
    updated :
        (fuel started checked elapsed : ℕ) (r r' : Robot env)
        → Reachable r
        → update env fuel started checked elapsed r ≡ some (ok r')
        → Reachable r'
    heartbeat_set_up :
        (latency : Float) (r : Robot env)
        → Reachable r
        → Reachable (setup_heartbeat_callback env latency r)
    callback_added :
        (cb : ℕ) (r : Robot env) → Reachable r → Reachable (add_command_received_callback env cb r)
    type_callback_added :
        (type cb : ℕ) (r r' : Robot env)
        → Reachable r
        → add_type_received_callback env type cb r ≡ ok r'
        → Reachable r'
    command_read :
        (g : Getter) (r : Robot env) (out : Bool × Message × Robot env)
        → Reachable r
        → get_command env g r ≡ ok out
        → Reachable out.2
    permission_requested :
        (request : Message) (r : Robot env) (out : Bytes × Robot env)
        → Reachable r
        → kind_of request ≡ Kind.permission_request
        → request_permission env request r ≡ ok out
        → Reachable out.1

  -- In every state that a robot reaches, each registered telemetry type has its buffer and its
  -- converter, each command type has a buffer of its class, and the buffers of the maps are well formed.
  pub Reachable-IsSound : (r : Robot env) → Reachable r → IsSound env r
  Reachable-IsSound _ (constructed c t latency garbage r e) =
      rw e at (new_controlled_robot-IsSound env c t latency garbage)
  Reachable-IsSound _ (sent m type only r out was listed e) =
      rw e at (send_telemetry-IsSound env m type only r (Reachable-IsSound r was) listed)
  Reachable-IsSound _ (mapped m map_id r out was e) =
      rw e at (set_map-IsSound env m map_id r (Reachable-IsSound r was))
  Reachable-IsSound _ (received r out was e) =
      rw e at (receive_request-IsSound env r (Reachable-IsSound r was))
  Reachable-IsSound _ (updated fuel started checked elapsed r r' was e) =
      rw (e, WhenUpdated) at
        (update-IsSound env fuel started checked elapsed r (Reachable-IsSound r was))
  Reachable-IsSound _ (heartbeat_set_up latency r was) =
      setup_heartbeat_callback-IsSound env latency r (Reachable-IsSound r was)
  Reachable-IsSound _ (callback_added cb r was) =
      add_command_received_callback-IsSound env cb r (Reachable-IsSound r was)
  Reachable-IsSound _ (type_callback_added type cb r r' was e) =
      rw e at (add_type_received_callback-IsSound env type cb r (Reachable-IsSound r was))
  Reachable-IsSound _ (command_read g r out was e) =
      rw e at (get_command-IsSound env g r (Reachable-IsSound r was))
  Reachable-IsSound _ (permission_requested request r out was is_request e) =
      rw e at (request_permission-IsSound env request r (Reachable-IsSound r was) is_request)

  -- In every state that a robot reaches and for every message of a registered telemetry type,
  -- `sendTelemetry` returns if the transport sends, and a telemetry request for the type that is
  -- handled next is answered with that message.
  pub Reachable-send_telemetry :
      (r : Robot env) (m : Message) (type bytes : ℕ) (request_only : Bool) (t : State)
      → Reachable r
      → lookup type telemetry_types ≡ some (kind_of m)
      → r.telemetry_transport ≡ some t
      → (send (encode_uint16 type ++ serialize m) none_flag t).0 ≡ some bytes
      → Returns (send_telemetry env m type request_only r) (λ out.
        evaluate_request env (encode_uint16 Control.telemetry_request ++ encode_uint16 type) out.1
        ≡ (send_reply env (serialize m) out.1 >>= λ r'. ok (Control.telemetry_request, r')))
  Reachable-send_telemetry r m type bytes request_only t reached listed connected sends =
      telemetry_requested-send_telemetry env m type request_only r t bytes
        (lookup_below 65536 type (kind_of m) telemetry_types refl listed)
        ((Reachable-IsSound r reached).telemetry type (kind_of m) listed) connected sends
