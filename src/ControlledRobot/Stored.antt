-- ===== src/ControlledRobot/Stored.antt =====
-- What the robot stores of telemetry and maps is what a later request is answered with.
use robot_remote_control.Base.{
  Returns_value, ℕ, ◌%◌, ◌≡◌, ◌≢◌, ◌<◌, ◌≤◌, ◌∙◌, Bool, lt→ltb, Bool-cases, some, inl, inr, [],
  ◌++◌, ok, fault, Fault, ◌>>=◌, read_at, length, All, Returns, Returns-bind, Returns-map, arith,
  get_elem?, get_elem?-none,
}
use robot_remote_control.Bytes.{Bytes, encode_uint16, read_uint16-encode_uint16, read_uint16_encode}
use robot_remote_control.Types.{Kind}
use robot_remote_control.MessageTypes.Control
use robot_remote_control.RingBuffer.Latest.{Holds, Single-Holds}
use robot_remote_control.RingBuffer.Slots.{push_at, peek_at}
use robot_remote_control.RingBuffer.Placed.{Placed, push_at-Placed, Placed-Holds, peek_at-Holds}
use robot_remote_control.SimpleBuffer.{init_buffer_id}
use robot_remote_control.SimpleBuffer.Store.{
  Fits, Ready, init_buffer_id-Ready, Stored, push_at-Stored,
}
use robot_remote_control.TelemetryBuffer.Registered.{Registered, peek_serialized-Holds, read_at-lt}
use robot_remote_control.Transport.{none_flag}
use robot_remote_control.Env.{Env}
use robot_remote_control.ControlledRobot.{Robot}
use robot_remote_control.ControlledRobot.Sending.{
  send_telemetry, store_telemetry, send_out, set_map, payload_size,
}
use robot_remote_control.ControlledRobot.Requests.{
  evaluate_request, dispatch, telemetry_requested, map_requested, find_map, send_reply,
}

module _ (env : Env) where
  open env.protobuf use {Message, kind_of, serialize}
  open env.transport use {State, send}

  -- A message with its type in front is handled as a message of that type.
  pub evaluate_request-encode_uint16 :
      (type : ℕ) (body : Bytes) (r : Robot env)
      → type < 65536
      → evaluate_request env (encode_uint16 type ++ body) r ≡ dispatch env type body r
  unfolding evaluate_request
  evaluate_request-encode_uint16 type body r small =
      let (typed, rest) = read_uint16-encode_uint16 type body small in rw (typed, rest)

  pub store_telemetry-Holds :
      (m : Message) (type : ℕ) (r : Robot env)
      → Registered type (kind_of m) 1 r.buffers
      → Returns (store_telemetry env m type r) (λ r'.
        Registered type (kind_of m) 1 r'.buffers
        × Returns (read_at r'.buffers.slots type) (Holds (kind_of m) m))
  unfolding store_telemetry
  store_telemetry-Holds m type r reg =
      Returns-bind (λ out. Placed (kind_of m) type m r.buffers.slots out.1) _ _ _
        (push_at-Placed (kind_of m) type m r.buffers.slots reg.buffer)
        λ out placed.
          let holds = Placed-Holds (kind_of m) type m r.buffers.slots out.1 placed in
          (
            record {
              converter = reg.converter;
              buffer =
                  Returns-map (Holds (kind_of m) m) _ (read_at out.1 type) holds
                    (Single-Holds (kind_of m) m);
            },
            holds,
          )

  pub send_out_ok :
      (buf : Bytes) (t : State) (bytes : ℕ) (r : Robot env)
      → (send buf none_flag t).0 ≡ some bytes
      → send_out env buf t r
        ≡ ok (payload_size bytes, record r { telemetry_transport = some (send buf none_flag t).1 })
  unfolding send_out
  send_out_ok buf t bytes r e = rw (e, send_out)

  -- A robot that stored the message under the type answers a request for the type with it.
  request_answered :
      (m : Message) (type : ℕ) (r : Robot env)
      → type < 65536
      → Registered type (kind_of m) 1 r.buffers
      → Returns (read_at r.buffers.slots type) (Holds (kind_of m) m)
      → evaluate_request env (encode_uint16 Control.telemetry_request ++ encode_uint16 type) r
        ≡ (send_reply env (serialize m) r >>= λ r'. ok (Control.telemetry_request, r'))
  unfolding dispatch
  request_answered m type r small reg holds =
      evaluate_request-encode_uint16 Control.telemetry_request (encode_uint16 type) r (omega arith)
      ∙ rw (
        read_uint16_encode type small,
        peek_serialized-Holds env.protobuf r.buffers type 1 (kind_of m) m reg holds,
        telemetry_requested,
      )

  -- Sending telemetry of a registered type stores it: after `sendTelemetry` returned, a telemetry
  -- request for the type is answered with that message. It returns if the transport sends; a message
  -- that is for requests only is stored just the same.
  pub telemetry_requested-send_telemetry :
      (m : Message) (type : ℕ) (request_only : Bool) (r : Robot env) (t : State) (bytes : ℕ)
      → type < 65536
      → Registered type (kind_of m) 1 r.buffers
      → r.telemetry_transport ≡ some t
      → (send (encode_uint16 type ++ serialize m) none_flag t).0 ≡ some bytes
      → Returns (send_telemetry env m type request_only r) (λ out.
        evaluate_request env (encode_uint16 Control.telemetry_request ++ encode_uint16 type) out.1
        ≡ (send_reply env (serialize m) out.1 >>= λ r'. ok (Control.telemetry_request, r')))
  unfolding send_telemetry
  telemetry_requested-send_telemetry m type request_only r t bytes small reg connected sends =
      rw (connected, send_telemetry)
        (Returns-bind
          (λ r'.
            Registered type (kind_of m) 1 r'.buffers
            × Returns (read_at r'.buffers.slots type) (Holds (kind_of m) m))
          _ _ _ (store_telemetry-Holds m type r reg)
          λ stored (reg', holds). elim (Bool-cases request_only) [
            | inl e ↦ rw e (request_answered m type stored small reg' holds)
            | inr e ↦
                rw (e, send_out_ok (encode_uint16 type ++ serialize m) t bytes stored sends)
                  (request_answered m type _ small reg' holds)
          ])

  find_map-Holds :
      (m : Bytes) (id : ℕ) (r : Robot env)
      → Returns (read_at r.map_buffer id) (Holds Kind.string m)
      → find_map env id r ≡ ok m
  unfolding find_map
  find_map-Holds m id r holds = rw (
    lt→ltb id (length r.map_buffer) (read_at-lt (Holds Kind.string m) r.map_buffer id holds),
    peek_at-Holds Kind.string id m r.map_buffer holds,
  )

  find_map-same :
      (id : ℕ) (r r' : Robot env)
      → id < length r.map_buffer
      → id < length r'.map_buffer
      → get_elem? r'.map_buffer id ≡ get_elem? r.map_buffer id
      → find_map env id r' ≡ find_map env id r
  unfolding find_map peek_at
  find_map-same id r r' below below' same =
      rw (lt→ltb id (length r.map_buffer) below, lt→ltb id (length r'.map_buffer) below', same)

  map_answered :
      (m : Bytes) (id : ℕ) (r : Robot env)
      → id < 65536
      → find_map env id r ≡ ok m
      → evaluate_request env (encode_uint16 Control.map_request ++ encode_uint16 id) r
        ≡ (send_reply env m r >>= λ r'. ok (Control.map_request, r'))
  unfolding dispatch
  map_answered m id r small found =
      evaluate_request-encode_uint16 Control.map_request (encode_uint16 id) r (omega arith)
      ∙ rw (read_uint16_encode id small, found, map_requested)

  -- `setMap` for a number of 16 bits stores the map: it returns, the buffers stay well formed, a map
  -- request for the number is answered with that map, and the maps of other numbers are as before.
  pub map_requested-set_map :
      (m : Bytes) (map_id : ℕ) (r : Robot env)
      → All (Fits Kind.string) r.map_buffer
      → map_id < 65536
      → Returns (set_map env m map_id r) (λ out.
        All (Fits Kind.string) out.1.map_buffer
        × (evaluate_request env (encode_uint16 Control.map_request ++ encode_uint16 map_id) out.1
            ≡ (send_reply env m out.1 >>= λ r'. ok (Control.map_request, r')))
        × ((other : ℕ)
            → other ≢ map_id
            → other < length r.map_buffer
            → find_map env other out.1 ≡ find_map env other r))
  unfolding set_map
  map_requested-set_map m map_id r fits small =
      let cut : map_id % 65536 ≡ map_id = omega arith in
      rw cut (
        Returns-bind (Ready Kind.string map_id r.map_buffer) _ _ _
          (init_buffer_id-Ready Kind.string [] map_id r.map_buffer fits)
          λ ready done.
            Returns-bind (λ out. Stored Kind.string map_id m ready out.1) _ _ _
              (push_at-Stored Kind.string map_id m ready done.fits done.ready)
              λ out stored. (
                stored.fits,
                map_answered m map_id _ small (find_map-Holds m map_id _ stored.holds),
                (λ other differs below.
                    find_map-same other r _ below (omega (arith, done.longer, stored.longer)) (
                      stored.others other differs (omega (arith, done.longer))
                      ∙ done.others other differs below)),
              ))

  -- The number of a map is cut to 16 bits where its buffer is made, and is not where it is used: from
  -- 65536 on `setMap` writes behind the vector, unless that is longer for other reasons.
  pub set_map_overflow :
      (m : Bytes) (map_id : ℕ) (r : Robot env)
      → All (Fits Kind.string) r.map_buffer
      → 65536 ≤ map_id
      → length r.map_buffer ≤ map_id
      → set_map env m map_id r ≡ fault Fault.out_of_bounds
  unfolding set_map push_at
  set_map_overflow m map_id r fits large short =
      let (ready, e, done) =
        Returns_value (Ready Kind.string (map_id % 65536) r.map_buffer)
          (init_buffer_id Kind.string [] (map_id % 65536) r.map_buffer)
          (init_buffer_id-Ready Kind.string [] (map_id % 65536) r.map_buffer fits) in
      rw (e, get_elem?-none ready map_id (done.bounded map_id short (omega arith)))
