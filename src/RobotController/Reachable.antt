-- ===== src/RobotController/Reachable.antt =====
-- The states that a controller gets into by the calls of its application and by what comes in.
use robot_remote_control.Base.{
  ◌∷◌, [], false, ℕ, ◌≡◌, ◌<◌, ◌≤◌, ◌∙◌, refl, Bool, Bool-cases, inl, inr, Option, none, some,
  Result, List, ◌++◌, ok, fault, lookup, length, read_at, Returns, Returns-map, size_mod, arith,
  ◌==◌,
}
use robot_remote_control.Bytes.{Bytes, encode_uint16}
use robot_remote_control.Types.{Kind}
use robot_remote_control.Types.Table.{lookup_below}
use robot_remote_control.Transport.{Flags}
use robot_remote_control.RingBuffer.Queue
use robot_remote_control.RingBuffer.Valid.{contents, length-contents}
use robot_remote_control.RingBuffer.Access.{BufferPtr}
use robot_remote_control.RingBuffer.Slots.{Slots}
use robot_remote_control.RingBuffer.Latest.{Sized}
use robot_remote_control.Env.{Env}
use robot_remote_control.RobotController.{
  Controller, controller_types, new_robot_controller, set_heart_beat_duration, set_max_latency,
  setup_lost_connection_callback,
}
use robot_remote_control.RobotController.Requests.{Clock, send_request}
use robot_remote_control.RobotController.Receiving.{evaluate_telemetry}
use robot_remote_control.RobotController.Reading.{
  get_telemetry, get_simple_sensor, add_telemetry_received_callback,
}
use robot_remote_control.RobotController.Update.{update}
use robot_remote_control.RobotController.Delivered.{
  Queued, Pending, evaluate_telemetry-Pending, get_telemetry-Pending,
}
use robot_remote_control.RobotController.Keeping.{
  IsSound, Same-IsSound, WhenEnds, new_robot_controller-IsSound,
}
use robot_remote_control.RobotController.Keeping.Receiving.{
  get_telemetry-IsSound, get_simple_sensor-IsSound, add_telemetry_received_callback-IsSound,
}
use robot_remote_control.RobotController.Keeping.Requests.{send_request-Same}
use robot_remote_control.RobotController.Keeping.Updating.{update-IsSound}

module _ {A : Type 0} where
  -- A buffer that is well formed holds some elements, no more than its capacity.
  pub Sized-Queued :
      (k : Kind) (cap : ℕ) (slots : Slots A) (j : ℕ)
      → Returns (read_at slots j) (Sized k cap)
      → (0 < cap) × ((q : List A) × (length q ≤ cap) × Returns (read_at slots j) (Queued k cap q))
  Sized-Queued k cap slots j h = holds (read_at slots j) h
    where
      holds :
          (out : Result (BufferPtr A))
          → Returns out (Sized k cap)
          → (0 < cap) × ((q : List A) × (length q ≤ cap) × Returns out (Queued k cap q))
      holds (fault e) h = absurd h
      holds (ok none) h = absurd h
      holds (ok (some b)) h =
          let same = h.sized in
          let inside = h.valid.out_inside in
          let fits = h.valid.fits in
          (omega arith, (contents b.ring, omega (arith, length-contents b.ring h.valid), (h, refl)))

  -- An element that is put behind others, if there is room, does not change which is the oldest.
  pub oldest :
      (cap : ℕ) (q : List A) (x : A)
      → 0 < cap
      → (Queue.pop (Queue.push cap q x false).1).0 ≡ Queue.first (q ++ x ∷ [])
  unfolding Queue.push Queue.pop Queue.first
  oldest cap [] x some_room = ground arith
  oldest cap (y ∷ q) x some_room = elim (Bool-cases (length (y ∷ q) == cap)) [
    | inl e ↦ rw e
    | inr e ↦ rw e
  ]

module _ (env : Env) where
  open env.floats use {Float}
  open env.protobuf use {Message, kind_of, serialize}
  open env.transport use {State}

  -- Each step is a call that returned. All commands and requests are sent by `sendRequest`, and all
  -- getters read by `getTelemetry`.
  pub data Reached (cap : ℕ) : Controller env → Type 0 where
    constructed :
        (t u : Option State) (latency : Float) (garbage : Bool) (garbage_time : ℕ)
        (c : Controller env)
        → 0 < cap
        → cap < size_mod
        → new_robot_controller env t u cap latency garbage garbage_time ≡ ok c
        → Reached cap c
    requested :
        (fuel : ℕ) (clock : Clock) (message : Bytes) (flags : Flags) (c : Controller env)
        (out : Bytes × Controller env)
        → Reached cap c
        → send_request env fuel clock message flags c ≡ some (ok out)
        → Reached cap out.1
    updated :
        (fuel now : ℕ) (clock : Clock) (back restarted : ℕ) (c c' : Controller env)
        → Reached cap c
        → update env fuel now clock back restarted c ≡ some (ok c')
        → Reached cap c'
    telemetry_read :
        (k : Kind) (type : ℕ) (c : Controller env) (out : Option Message × Controller env)
        → Reached cap c
        → get_telemetry env k type c ≡ ok out
        → Reached cap out.1
    sensor_read :
        (id : ℕ) (c : Controller env) (out : Option Message × Controller env)
        → Reached cap c
        → get_simple_sensor env id c ≡ ok out
        → Reached cap out.1
    callback_added :
        (k : Kind) (type cb : ℕ) (c c' : Controller env)
        → Reached cap c
        → add_telemetry_received_callback env k type cb c ≡ ok c'
        → Reached cap c'
    duration_set :
        (duration : Float) (now : ℕ) (c : Controller env)
        → Reached cap c
        → Reached cap (set_heart_beat_duration env duration now c)
    latency_set :
        (latency : Float) (c : Controller env)
        → Reached cap c
        → Reached cap (set_max_latency env latency c)
    lost_callback_set :
        (cb : ℕ) (c : Controller env)
        → Reached cap c
        → Reached cap (setup_lost_connection_callback env cb c)

  -- In every state that a controller reaches, each telemetry type of the constructor has its buffer,
  -- converter and adder, of its class and of the capacity given, and the buffers of sensors are null or
  -- of capacity 1.
  pub Reached-IsSound : (cap : ℕ) (c : Controller env) → Reached cap c → IsSound env cap c
  unfolding set_heart_beat_duration set_max_latency setup_lost_connection_callback
  Reached-IsSound cap _ (constructed t u latency garbage garbage_time c some_room small e) =
      rw e at
        (new_robot_controller-IsSound env t u cap latency garbage garbage_time some_room small)
  Reached-IsSound cap _ (requested fuel clock message flags c out was e) =
      Same-IsSound env cap c out.1
        (rw (e, WhenEnds) at (send_request-Same env fuel clock message flags c))
        (Reached-IsSound cap c was)
  Reached-IsSound cap _ (updated fuel now clock back restarted c c' was e) =
      rw (e, WhenEnds) at
        (update-IsSound env cap fuel now clock back restarted c (Reached-IsSound cap c was))
  Reached-IsSound cap _ (telemetry_read k type c out was e) =
      rw e at (get_telemetry-IsSound env cap k type c (Reached-IsSound cap c was))
  Reached-IsSound cap _ (sensor_read id c out was e) =
      rw e at (get_simple_sensor-IsSound env cap id c (Reached-IsSound cap c was))
  Reached-IsSound cap _ (callback_added k type cb c c' was e) =
      rw e at
        (add_telemetry_received_callback-IsSound env cap k type cb c (Reached-IsSound cap c was))
  Reached-IsSound cap _ (duration_set duration now c was) =
      Same-IsSound env cap c _ (record { buffers = refl; adders = refl; sensors = refl })
        (Reached-IsSound cap c was)
  Reached-IsSound cap _ (latency_set latency c was) =
      Same-IsSound env cap c _ (record { buffers = refl; adders = refl; sensors = refl })
        (Reached-IsSound cap c was)
  Reached-IsSound cap _ (lost_callback_set cb c was) =
      Same-IsSound env cap c _ (record { buffers = refl; adders = refl; sensors = refl })
        (Reached-IsSound cap c was)

  -- What is there to read after a message came.
  abbrev Read : ℕ → ℕ → Message → List Message → Controller env → Type 0
  Read cap type m q c =
      Pending env type (kind_of m) cap q c
      × Returns (evaluate_telemetry env (encode_uint16 type ++ serialize m) c) (λ out.
        Returns (get_telemetry env (kind_of m) type out.1)
          (λ got. got.0 ≡ Queue.first (q ++ m ∷ [])))

  -- In every state that a controller reaches, the buffer of each telemetry type of the constructor holds
  -- some messages, no more than its capacity; a message of that type can be taken in without a fault,
  -- and the getter gives then the oldest of the messages held and the new one, in that order.
  pub Reached-get_telemetry :
      (cap : ℕ) (c : Controller env) (m : Message) (type : ℕ)
      → Reached cap c
      → lookup type controller_types ≡ some (kind_of m)
      → (q : List Message) × (length q ≤ cap) × Read cap type m q c
  Reached-get_telemetry cap c m type reached listed =
      let sound = Reached-IsSound cap c reached in
      let k = kind_of m in
      let (some_room, (q, fits, waiting)) =
        Sized-Queued k cap c.buffers.slots type (sound.telemetry type k listed).buffer in
      let small = lookup_below 65536 type k controller_types refl listed in
      (
        q,
        fits,
        (
          waiting,
          Returns-map _ _ (evaluate_telemetry env (encode_uint16 type ++ serialize m) c)
              (evaluate_telemetry-Pending env type cap m q c small (sound.adders type k listed)
                waiting)
              (λ out taken.
                Returns-map _ _ (get_telemetry env k type out.1)
                  (get_telemetry-Pending env type cap k (Queue.push cap q m false).1 out.1 taken.2)
                  (λ got given. given.0 ∙ oldest cap q m some_room)),
        ),
      )
