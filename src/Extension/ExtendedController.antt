-- ===== src/Extension/ExtendedController.antt =====
-- The extended controller has all that a controller has, and takes in the new type as its own.
use robot_remote_control.Base.{
  ℕ, ◌≡◌, ◌∙◌, refl, false, Bool, Option, some, none, List, [], ◌∷◌, ◌++◌, lookup, get_elem?,
  Returns, Returns-map, Returns_value, arith,
}
use robot_remote_control.Bytes.{encode_uint16}
use robot_remote_control.Types.{Kind}
use robot_remote_control.Types.Table.{lookup_below}
use robot_remote_control.MessageTypes.Telemetry
use robot_remote_control.RingBuffer.Queue
use robot_remote_control.TelemetryBuffer.{register_type, new_telemetry_buffer}
use robot_remote_control.Env.{Env}
use robot_remote_control.RobotController.{
  Controller, controller_types, new_robot_controller, register_adders, register_adder,
}
use robot_remote_control.RobotController.Sound.{Known, Adds, register_adder-Adds}
use robot_remote_control.RobotController.Keeping.{IsSound, new_robot_controller-IsSound}
use robot_remote_control.RobotController.Receiving.{evaluate_telemetry}
use robot_remote_control.RobotController.Delivered.{
  evaluate_telemetry-Pending, get_telemetry-Pending,
}
use robot_remote_control.RobotController.Reachable.{Sized-Queued, oldest}
use robot_remote_control.Extension.{
  new_telemetry_message, telemetry_class, new_extended_controller, get_new_telemetry_message,
}

module _ (env : Env) where
  open env.floats use {Float}
  open env.protobuf use {Message, kind_of, serialize}
  open env.transport use {State}

  no_adder_lem :
      (c t : Option State) (latency : Float) (garbage : Bool) (garbage_time : ℕ)
      → Returns
          (new_extended_controller env c t latency garbage garbage_time)
          (λ made. get_elem? made.telemetry_adders Telemetry.simple_sensor_value ≡ some none)
  unfolding new_extended_controller new_robot_controller register_adders register_adder
      register_type new_telemetry_buffer
  no_adder_lem c t latency garbage garbage_time = refl

  pub record IsExtended (c : Controller env) : Type 0 where
    pub sound : IsSound env 10 c
    pub known : Known env new_telemetry_message telemetry_class 10 c

  old-Known :
      (first made : Controller env)
      → IsSound env 10 first
      → Adds env new_telemetry_message telemetry_class 10 first made
      → (j : ℕ) (k : Kind) → lookup j controller_types ≡ some k
      → Known env j k 10 made
  old-Known first made sound done j k listed =
      let below = lookup_below 23 j k controller_types refl listed in
      done.others j k (λ same. omega (arith, same))
        (record { registered = sound.telemetry j k listed; adder = sound.adders j k listed })

  pub new_extended_controller-IsExtended :
      (c t : Option State) (latency : Float) (garbage : Bool) (garbage_time : ℕ)
      → Returns (new_extended_controller env c t latency garbage garbage_time) IsExtended
  unfolding new_extended_controller
  new_extended_controller-IsExtended c t latency garbage garbage_time =
      let (first, e, sound) =
        Returns_value (IsSound env 10)
          (new_robot_controller env c t 10 latency garbage garbage_time)
          (new_robot_controller-IsSound env c t 10 latency garbage garbage_time (omega arith)
            (omega arith)) in
      let (made, e', done) =
        Returns_value (Adds env new_telemetry_message telemetry_class 10 first)
          (register_adder env new_telemetry_message telemetry_class 10 first)
          (register_adder-Adds env new_telemetry_message telemetry_class 10 first (omega arith)
            (omega arith)) in
      let no_adder = rw (e, e') at (no_adder_lem c t latency garbage garbage_time) in
      rw (e, e')
        (record {
          sound = record {
            telemetry = λ j k listed. (old-Known first made sound done j k listed).registered;
            adders = λ j k listed. (old-Known first made sound done j k listed).adder;
            no_adder = no_adder;
            sensors = rw done.same_sensors sound.sensors;
          };
          known = done.known;
        })

  -- A controller that the application's constructor made keeps all that the library's constructor
  -- registers. A message of the new telemetry type can be taken in without a fault, and the getter gives
  -- then the oldest of the messages of the type that are held, the new one being the last.
  pub new_extended_controller_lem :
      (c t : Option State) (latency : Float) (garbage : Bool) (garbage_time : ℕ) (m : Message)
      → kind_of m ≡ telemetry_class
      → Returns (new_extended_controller env c t latency garbage garbage_time) (λ made.
        IsSound env 10 made
        × ((q : List Message) × Returns
              (evaluate_telemetry env (encode_uint16 new_telemetry_message ++ serialize m) made)
              (λ out.
                Returns
                  (get_new_telemetry_message env out.1)
                  (λ got. got.0 ≡ Queue.first (q ++ m ∷ [])))))
  unfolding get_new_telemetry_message
  new_extended_controller_lem c t latency garbage garbage_time m of_class =
      Returns-map IsExtended _ (new_extended_controller env c t latency garbage garbage_time)
        (new_extended_controller-IsExtended c t latency garbage garbage_time)
        λ made done.
          let type = new_telemetry_message in
          let k = telemetry_class in
          let (some_room, (q, fits, waiting)) =
            Sized-Queued k 10 made.buffers.slots type done.known.registered.buffer in
          let taken =
            evaluate_telemetry-Pending env type 10 m q made (omega arith)
              (rw of_class done.known.adder) (rw of_class waiting) in
          (
            done.sound,
            (
              q,
              Returns-map _ _ (evaluate_telemetry env (encode_uint16 type ++ serialize m) made)
                  (rw of_class at taken)
                  λ out there.
                    Returns-map _ _ (get_new_telemetry_message env out.1)
                      (get_telemetry-Pending env type 10 k (Queue.push 10 q m false).1 out.1
                        there.2)
                      (λ got given. given.0 ∙ oldest 10 q m some_room),
            ),
          )
