-- ===== src/RobotController/Sensors.antt =====
-- The values of simple sensors, which share one telemetry type and are told apart by their ids.
use robot_remote_control.Base.{
  lt→ltb, ℕ, ◌%◌, ◌≡◌, ◌≢◌, ◌<◌, ◌∙◌, true, none, some, List, [], ◌∷◌, ◌++◌, ◌>>=◌, read_at, length,
  All, get_elem?, Returns, Returns-bind, Returns-map, arith,
}
use robot_remote_control.Bytes.{encode_uint16, read_uint16-encode_uint16}
use robot_remote_control.Types.{Kind}
use robot_remote_control.MessageTypes.Telemetry
use robot_remote_control.RingBuffer.Queue
use robot_remote_control.RingBuffer.Access.{BufferPtr}
use robot_remote_control.RingBuffer.Slots.{push_at, pop_at}
use robot_remote_control.RingBuffer.Latest.{Holds}
use robot_remote_control.SimpleBuffer.{init_buffer_id}
use robot_remote_control.SimpleBuffer.Store.{
  Fits, Ready, init_buffer_id-Ready, Stored, push_at-Stored,
}
use robot_remote_control.TelemetryBuffer.Registered.{read_at-lt}
use robot_remote_control.Env.{Env}
use robot_remote_control.RobotController.{Controller}
use robot_remote_control.RobotController.Receiving.{
  evaluate_telemetry, special_telemetry, add_to_simple_sensor_buffer,
}
use robot_remote_control.RobotController.Reading.{get_simple_sensor}
use robot_remote_control.RobotController.Delivered.{Queued, pop_at-Queued}

-- A buffer that holds one value is a queue of it.
Queued-Holds :
    {A : Type 0} (k : Kind) (x : A) (p : BufferPtr A) → Holds k x p → Queued k 1 (x ∷ []) p
Queued-Holds k x none h = absurd h
Queued-Holds k x (some b) h = h

module _ (env : Env) where
  open env.protobuf use {Message, kind_of, empty, serialize, parse, parse-serialize, sensor_id}

  -- What the controller has done with a value of a sensor.
  pub record Sensed (m : Message) (c c' : Controller env) : Type 0 where
    pub fits : All (Fits Kind.simple_sensor) c'.simplesensorbuffer
    pub given : Returns (get_simple_sensor env (sensor_id m) c') (λ first.
        (first.0 ≡ some m)
        × Returns (get_simple_sensor env (sensor_id m) first.1) (λ second. second.0 ≡ none))
    pub others :
        (other : ℕ)
        → other ≢ sensor_id m
        → other < length c.simplesensorbuffer
        → get_elem? c'.simplesensorbuffer other ≡ get_elem? c.simplesensorbuffer other

  get_simple_sensor-Queued :
      (id : ℕ) (q : List Message) (c : Controller env)
      → Returns (read_at c.simplesensorbuffer id) (Queued Kind.simple_sensor 1 q)
      → Returns (get_simple_sensor env id c) (λ out.
        (out.0 ≡ (Queue.pop q).0)
        × Returns
            (read_at out.1.simplesensorbuffer id)
            (Queued Kind.simple_sensor 1 (Queue.pop q).1))
  unfolding get_simple_sensor
  get_simple_sensor-Queued id q c there =
      rw
        (lt→ltb id (length c.simplesensorbuffer)
          (read_at-lt (Queued Kind.simple_sensor 1 q) c.simplesensorbuffer id there))
        (Returns-bind
          (λ out.
            (out.0 ≡ (Queue.pop q).0)
            × Returns (read_at out.1 id) (Queued Kind.simple_sensor 1 (Queue.pop q).1))
          _ (pop_at Kind.simple_sensor c.simplesensorbuffer id) _
          (pop_at-Queued Kind.simple_sensor 1 q c.simplesensorbuffer id there) (λ out done. done))

  given_once :
      (id : ℕ) (m : Message) (c : Controller env)
      → Returns (read_at c.simplesensorbuffer id) (Holds Kind.simple_sensor m)
      → Returns (get_simple_sensor env id c) (λ first.
        (first.0 ≡ some m) × Returns (get_simple_sensor env id first.1) (λ second. second.0 ≡ none))
  unfolding Queue.pop
  given_once id m c holds =
      Returns-map
        (λ out.
          (out.0 ≡ some m)
          × Returns (read_at out.1.simplesensorbuffer id) (Queued Kind.simple_sensor 1 []))
        _ (get_simple_sensor env id c)
        (get_simple_sensor-Queued id (m ∷ []) c (
          Returns-map (Holds Kind.simple_sensor m) _ (read_at c.simplesensorbuffer id) holds
            (Queued-Holds Kind.simple_sensor m)))
        (λ first done. (
          done.0,
          Returns-map _ _ (get_simple_sensor env id first.1)
              (get_simple_sensor-Queued id [] first.1 done.1) (λ second last. last.0),
        ))

  -- A value of a sensor whose id has 16 bits takes the place of the last one of the sensor, read or not:
  -- the getter gives it once, and then says that there is nothing new. The values of the other sensors
  -- are as before.
  pub evaluate_telemetry-Sensed :
      (m : Message) (c : Controller env)
      → kind_of m ≡ Kind.simple_sensor
      → sensor_id m < 65536
      → get_elem? c.telemetry_adders Telemetry.simple_sensor_value ≡ some none
      → All (Fits Kind.simple_sensor) c.simplesensorbuffer
      → Returns
          (evaluate_telemetry env (encode_uint16 Telemetry.simple_sensor_value ++ serialize m) c)
          (λ out. Sensed m c out.1)
  unfolding evaluate_telemetry special_telemetry add_to_simple_sensor_buffer
  evaluate_telemetry-Sensed m c is_sensor small no_adder fits =
      let (typed, rest) =
        read_uint16-encode_uint16 Telemetry.simple_sensor_value (serialize m) (omega arith) in
      let parsed : parse Kind.simple_sensor (serialize m) ≡ (true, m) =
        rw is_sensor at (parse-serialize m) in
      let cut : sensor_id m % 65536 ≡ sensor_id m = omega arith in
      let k = Kind.simple_sensor in
      rw (rest, typed, no_adder, parsed, cut)
        (Returns-bind (Sensed m c) _
          (init_buffer_id k (empty k) (sensor_id m) c.simplesensorbuffer >>= _) _
          (Returns-bind (Ready k (sensor_id m) c.simplesensorbuffer) _
            (init_buffer_id k (empty k) (sensor_id m) c.simplesensorbuffer) _
            (init_buffer_id-Ready k (empty k) (sensor_id m) c.simplesensorbuffer fits)
            λ ready done.
              Returns-bind (λ out. Stored k (sensor_id m) m ready out.1) _
                (push_at k ready (sensor_id m) m true) _
                (push_at-Stored k (sensor_id m) m ready done.fits done.ready)
                λ out stored. record {
                  fits = stored.fits;
                  given = given_once (sensor_id m) m _ stored.holds;
                  others = λ other differs below.
                      stored.others other differs (omega (arith, done.longer))
                      ∙ done.others other differs below;
                })
          (λ c' done. done))
