-- ===== src/RobotController/Keeping.antt =====
-- What holds of a controller between two calls, whatever came in on its channels.
pub mod Receiving
pub mod Requests
pub mod Updating
use robot_remote_control.Base.{
  ℕ, ◌≡◌, ◌∙◌, ◌<◌, refl, Bool, Option, none, some, List, [], get_elem?, lookup, read_at, All,
  Returns, Returns_value, Result, ok, fault, ◌>>=◌, WhenReturns, size_mod, ap,
}
use mathlib.Core.Option
use robot_remote_control.Types.{Kind}
use robot_remote_control.MessageTypes.Telemetry
use robot_remote_control.SimpleBuffer.Store.{Fits}
use robot_remote_control.RingBuffer.Kept.{SameSized}
use robot_remote_control.TelemetryBuffer.{register_type, new_telemetry_buffer}
use robot_remote_control.TelemetryBuffer.Registered.{Registered}
use robot_remote_control.Env.{Env}
use robot_remote_control.RobotController.{
  Controller, controller_types, new_robot_controller, register_adders, register_adder,
}
use robot_remote_control.RobotController.Sound.{Known, new_robot_controller-Known}

-- If it ends at all, and without a fault, what it returns satisfies `P`.
abbrev pub WhenEnds : {A : Type 0} → Option (Result A) → (A → Type 0) → Type 0
WhenEnds none P = Unit
WhenEnds (some out) P = WhenReturns out P

pub WhenEnds-bind :
    {A B : Type 0} (P : A → Type 0) (Q : B → Type 0) (m : Option (Result A)) (f : A → Result B)
    → WhenEnds m P
    → ((a : A) → P a → WhenReturns (f a) Q)
    → WhenEnds (Option.map (λ out. out >>= f) m) Q
WhenEnds-bind P Q none f h k = tt
WhenEnds-bind P Q (some (fault e)) f h k = tt
WhenEnds-bind P Q (some (ok a)) f h k = k a h

module _ (env : Env) where
  open env.floats use {Float}
  open env.protobuf use {Message}
  open env.transport use {State}

  -- Each telemetry type that the constructor registers has its buffer, of the capacity that the
  -- constructor was given, its converter, and its adder of the same class; the values of sensors have
  -- no adder, and the buffer of each sensor is null or of capacity 1.
  pub record IsSound (cap : ℕ) (c : Controller env) : Type 0 where
    pub telemetry :
        (type : ℕ) (k : Kind)
        → lookup type controller_types ≡ some k
        → Registered type k cap c.buffers
    pub adders :
        (type : ℕ) (k : Kind)
        → lookup type controller_types ≡ some k
        → get_elem? c.telemetry_adders type ≡ some (some k)
    pub no_adder : get_elem? c.telemetry_adders Telemetry.simple_sensor_value ≡ some none
    pub sensors : All (Fits Kind.simple_sensor) c.simplesensorbuffer

  -- The members that soundness is about are the same.
  pub record Same (c c' : Controller env) : Type 0 where
    pub buffers : c'.buffers ≡ c.buffers
    pub adders : c'.telemetry_adders ≡ c.telemetry_adders
    pub sensors : c'.simplesensorbuffer ≡ c.simplesensorbuffer

  pub Same-IsSound : (cap : ℕ) (c c' : Controller env) → Same c c' → IsSound cap c → IsSound cap c'
  Same-IsSound cap c c' same sound = record {
    telemetry = λ type k listed. rw (same.buffers) (sound.telemetry type k listed);
    adders = λ type k listed. rw (same.adders) (sound.adders type k listed);
    no_adder = rw (same.adders) sound.no_adder;
    sensors = rw (same.sensors) sound.sensors;
  }

  -- The buffers may change as calls on them change them.
  pub SameSized-IsSound :
      (cap : ℕ) (c c' : Controller env)
      → c'.buffers.converters ≡ c.buffers.converters
      → SameSized c.buffers.slots c'.buffers.slots
      → c'.telemetry_adders ≡ c.telemetry_adders
      → c'.simplesensorbuffer ≡ c.simplesensorbuffer
      → IsSound cap c
      → IsSound cap c'
  SameSized-IsSound cap c c' converters slots adders sensors sound = record {
    telemetry = λ type k listed.
        let was = sound.telemetry type k listed in
        record { converter = rw converters was.converter; buffer = slots type k cap was.buffer };
    adders = λ type k listed. rw adders (sound.adders type k listed);
    no_adder = rw adders sound.no_adder;
    sensors = rw sensors sound.sensors;
  }

  unregistered_types :
      (t u : Option State) (cap : ℕ) (latency : Float) (garbage : Bool) (garbage_time : ℕ)
      → Returns (new_robot_controller env t u cap latency garbage garbage_time) (λ c.
        (get_elem? c.telemetry_adders Telemetry.simple_sensor_value ≡ some none)
        × (c.simplesensorbuffer ≡ []))
  unfolding new_robot_controller register_adders register_adder register_type new_telemetry_buffer
  unregistered_types t u cap latency garbage garbage_time = (refl, refl)

  pub new_robot_controller-IsSound :
      (t u : Option State) (cap : ℕ) (latency : Float) (garbage : Bool) (garbage_time : ℕ)
      → 0 < cap
      → cap < size_mod
      → Returns (new_robot_controller env t u cap latency garbage garbage_time) (IsSound cap)
  new_robot_controller-IsSound t u cap latency garbage garbage_time some_room small =
      let (c, e, known) =
        Returns_value _ (new_robot_controller env t u cap latency garbage garbage_time)
          (new_robot_controller-Known env t u cap latency garbage garbage_time some_room small) in
      let (no_adder, no_sensors) =
        rw e at (unregistered_types t u cap latency garbage garbage_time) in
      rw e (record {
        telemetry = λ type k listed. (known type k listed).registered;
        adders = λ type k listed. (known type k listed).adder;
        no_adder = no_adder;
        sensors = rw no_sensors tt;
      })
