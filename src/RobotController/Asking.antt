-- ===== src/RobotController/Asking.antt =====
-- src/RobotController/RobotController.hpp: the functions that ask the robot for what it stored last.
use robot_remote_control.Base.{
  ℕ, suc, ◌≡◌, ◌≢◌, refl, true, false, ==_ne, Option, some, List, ◌++◌, Result, ok, ◌>>=◌,
}
use mathlib.Core.Option
use robot_remote_control.Bytes.{Bytes, encode_uint16}
use robot_remote_control.Types.{Kind}
use robot_remote_control.MessageTypes.Control
use robot_remote_control.MessageTypes.Telemetry
use robot_remote_control.Timer.{start, is_expired}
use robot_remote_control.Transport.{noblock}
use robot_remote_control.Env.{Env}
use robot_remote_control.RobotController.{Controller}
use robot_remote_control.RobotController.Requests.{
  Clock, wait_reply, finish_request, send_request, request_binary, request_telemetry,
}

-- The requests for telemetry, each with the type and the class of its call of `requestTelemetry`.
pub data Request : Type 0 where
  request_complex_actions request_simple_actions request_controllable_joints : Request
  request_simple_sensors request_robot_name request_video_streams request_current_pose : Request

abbrev pub requested_type : Request → ℕ
requested_type Request.request_complex_actions = Telemetry.complex_actions
requested_type Request.request_simple_actions = Telemetry.simple_actions
requested_type Request.request_controllable_joints = Telemetry.controllable_joints
requested_type Request.request_simple_sensors = Telemetry.simple_sensor_definition
requested_type Request.request_robot_name = Telemetry.robot_name
requested_type Request.request_video_streams = Telemetry.video_streams
requested_type Request.request_current_pose = Telemetry.current_pose

abbrev pub requested_class : Request → Kind
requested_class Request.request_complex_actions = Kind.complex_actions
requested_class Request.request_simple_actions = Kind.simple_actions
requested_class Request.request_controllable_joints = Kind.joint_state
requested_class Request.request_simple_sensors = Kind.simple_sensors
requested_class Request.request_robot_name = Kind.robot_name
requested_class Request.request_video_streams = Kind.video_streams
requested_class Request.request_current_pose = Kind.pose

module _ (env : Env) where
  open env.protobuf use {Message, kind_of, serialize, parse, states, parse-serialize}
  open env.transport use {State, send, receive}

  unfoldable pub ask :
      ℕ → Clock → Request → Controller env → Option (Result (Message × Controller env))
  unfolding request_telemetry
  ask fuel clock q c =
      request_telemetry env fuel clock (requested_class q) (requested_type q)
        Control.telemetry_request c

  -- `requestRobotState`, with what `*state` holds then.
  unfoldable pub request_robot_state :
      ℕ → Clock → Controller env → Option (Result (List Bytes × Controller env))
  unfolding request_telemetry
  request_robot_state fuel clock c =
      Option.map (λ out. out >>= λ done. ok (states done.0, done.1))
        (request_telemetry env fuel clock Kind.robot_state Telemetry.robot_state
          Control.telemetry_request c)

  -- `requestMap` into a string.
  unfoldable pub request_map :
      ℕ → Clock → ℕ → Controller env → Option (Result (Bytes × Controller env))
  unfolding request_binary
  request_map fuel clock map_id c = request_binary env fuel clock map_id Control.map_request c

  -- `requestMap` into a `Map`, with what `*map` holds then.
  unfoldable pub request_map_message :
      ℕ → Clock → ℕ → Controller env → Option (Result (Message × Controller env))
  unfolding request_map
  request_map_message fuel clock map_id c =
      Option.map (λ out. out >>= λ done. ok ((parse Kind.map_data done.0).1, done.1))
        (request_map fuel clock map_id c)

  -- The connection after the request for the type was sent.
  abbrev pub asked : Request → State → State
  asked q t =
      (send (encode_uint16 Control.telemetry_request ++ encode_uint16 (requested_type q)) noblock
        t).1

  -- The controller after a request that was sent at the time `clock 0` and answered at once.
  abbrev pub answered : Clock → State → Controller env → Controller env
  answered clock t c = record c {
    command_transport = some t;
    request_timer = start env.floats c.max_latency (clock 0) c.request_timer;
    last_connected_timer = start env.floats env.floats.zero_float (clock 2) c.last_connected_timer;
    connected = true;
  }

  -- A reply that is there at the first poll, and in time, is returned by `sendRequest`.
  pub send_request-receive :
      (fuel : ℕ) (clock : Clock) (message : Bytes) (c : Controller env) (t : State) (bytes : ℕ)
      → c.command_transport ≡ some t
      → (send message noblock t).0 ≡ some bytes
      → (receive noblock (send message noblock t).1).0 ≢ 0
      → is_expired env.floats (clock 1) (start env.floats c.max_latency (clock 0) c.request_timer)
        ≡ false
      → send_request env (suc fuel) clock message noblock c
        ≡ some (
            ok (
              (receive noblock (send message noblock t).1).1,
              answered clock (receive noblock (send message noblock t).1).2 c,
            ))
  unfolding send_request finish_request wait_reply
  send_request-receive fuel clock message c t bytes connected sends came in_time =
      let t1 = (send message noblock t).1 in
      let (count, reply, t2) = receive noblock t1 in
      let timer = start env.floats c.max_latency (clock 0) c.request_timer in
      let polled : wait_reply env (suc fuel) clock 1 noblock timer t1 ≡ some (reply, t2, 1) =
        rw (wait_reply, ==_ne count 0 came) in
      rw (connected, send_request, sends, polled) (rw (in_time, finish_request) refl)

  -- A request to which the reply comes in time gives the message that the robot serialized into it, and
  -- the controller is connected then.
  pub ask-receive :
      (fuel : ℕ) (clock : Clock) (q : Request) (m : Message) (c : Controller env) (t : State)
      (bytes : ℕ)
      → c.command_transport ≡ some t
      → (send
          (encode_uint16 Control.telemetry_request ++ encode_uint16 (requested_type q))
          noblock
          t).0
        ≡ some bytes
      → (receive noblock (asked q t)).0 ≢ 0
      → (receive noblock (asked q t)).1 ≡ serialize m
      → kind_of m ≡ requested_class q
      → is_expired env.floats (clock 1) (start env.floats c.max_latency (clock 0) c.request_timer)
        ≡ false
      → (c' : Controller env) × (ask (suc fuel) clock q c ≡ some (ok (m, c')))
        × (c'.connected ≡ true)
  unfolding ask request_telemetry request_binary
  ask-receive fuel clock q m c t bytes connected sends came reply same in_time =
      let message = encode_uint16 Control.telemetry_request ++ encode_uint16 (requested_type q) in
      let e = send_request-receive fuel clock message c t bytes connected sends came in_time in
      let parsed : parse (requested_class q) (serialize m) ≡ (true, m) =
        rw same at (parse-serialize m) in
      (answered clock (receive noblock (asked q t)).2 c, rw (e, reply, parsed), refl)
