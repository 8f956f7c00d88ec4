-- ===== src/RobotController/Keeping/Receiving.antt =====
-- Whatever comes in on the telemetry channel, and whatever is read, the controller stays sound.
use robot_remote_control.Base.{
  ℕ, refl, Bool-cases, ◌==◌, ◌||◌, ltb, ltb→lt, true, false, Option, none, some, inl, inr,
  Option-cases, length, ok, ◌>>=◌, ◌%◌, read_at, get_elem?, All, Returns, WhenReturns,
  WhenReturns-bind, Returns_value,
}
use robot_remote_control.Bytes.{Bytes, read_uint16, strip_type}
use robot_remote_control.Types.{Kind}
use robot_remote_control.MessageTypes.Telemetry
use robot_remote_control.RingBuffer.Slots.{push_at, pop_at}
use robot_remote_control.RingBuffer.Kept.{
  push_at-SameSized, pop_at-SameSized, add_callback-SameSized, push_at-Fits, pop_at-Fits,
}
use robot_remote_control.SimpleBuffer.{init_buffer_id}
use robot_remote_control.SimpleBuffer.Store.{Fits, Ready, init_buffer_id-Ready}
use robot_remote_control.Env.{Env}
use robot_remote_control.RobotController.{Controller}
use robot_remote_control.RobotController.Receiving.{
  evaluate_telemetry, add_to_telemetry_buffer, special_telemetry, add_to_simple_sensor_buffer,
}
use robot_remote_control.RobotController.Reading.{
  get_telemetry, get_simple_sensor, add_telemetry_received_callback,
}
use robot_remote_control.RobotController.Keeping.{IsSound, SameSized-IsSound}

module _ (env : Env) where
  open env.protobuf use {Message, parse, empty, sensor_id}

  abbrev pub SoundOut : {A : Type 0} → ℕ → A × Controller env → Type 0
  SoundOut cap out = IsSound env cap out.1

  add_to_telemetry_buffer-IsSound :
      (cap : ℕ) (k : Kind) (type : ℕ) (body : Bytes) (c : Controller env)
      → IsSound env cap c
      → WhenReturns (add_to_telemetry_buffer env k type body c) (IsSound env cap)
  unfolding add_to_telemetry_buffer
  add_to_telemetry_buffer-IsSound cap k type body c sound =
      WhenReturns-bind (IsSound env cap) (push_at k c.buffers.slots type (parse k body).1 false) _
        λ out pushed.
          SameSized-IsSound env cap c _ refl
            (rw pushed at (push_at-SameSized k c.buffers.slots type (parse k body).1 false)) refl
            refl sound

  add_to_simple_sensor_buffer-IsSound :
      (cap : ℕ) (body : Bytes) (c : Controller env)
      → IsSound env cap c
      → WhenReturns (add_to_simple_sensor_buffer env body c) (IsSound env cap)
  unfolding add_to_simple_sensor_buffer
  add_to_simple_sensor_buffer-IsSound cap body c sound =
      let k = Kind.simple_sensor in
      let sensor = (parse k body).1 in
      let id = sensor_id sensor % 65536 in
      let (ready, e, made) =
        Returns_value (Ready k id c.simplesensorbuffer)
          (init_buffer_id k (empty k) id c.simplesensorbuffer)
          (init_buffer_id-Ready k (empty k) id c.simplesensorbuffer sound.sensors) in
      rw e (
        WhenReturns-bind (IsSound env cap) (push_at k ready (sensor_id sensor) sensor true) _
          λ out pushed. record {
            telemetry = sound.telemetry;
            adders = sound.adders;
            no_adder = sound.no_adder;
            sensors =
                rw pushed at (push_at-Fits k k ready (sensor_id sensor) sensor true made.fits);
          })

  special_telemetry-IsSound :
      (cap type : ℕ) (body : Bytes) (c : Controller env)
      → IsSound env cap c
      → WhenReturns (special_telemetry env type body c) (SoundOut cap)
  unfolding special_telemetry
  special_telemetry-IsSound cap type body c sound =
      elim (Bool-cases (type == Telemetry.simple_sensor_value)) [
        | inl e ↦ rw e (
            WhenReturns-bind (SoundOut cap) (add_to_simple_sensor_buffer env body c) _
              λ c' added. rw added at (add_to_simple_sensor_buffer-IsSound cap body c sound))
        | inr e ↦
            rw e
              (elim (Bool-cases (
                type == Telemetry.telemetry_message_types_number
                || type == Telemetry.no_telemetry_data)) [ inl e ↦ rw e sound | inr e ↦ rw e tt ])
      ]

  pub evaluate_telemetry-IsSound :
      (cap : ℕ) (reply : Bytes) (c : Controller env)
      → IsSound env cap c
      → WhenReturns (evaluate_telemetry env reply c) (SoundOut cap)
  unfolding evaluate_telemetry
  evaluate_telemetry-IsSound cap reply c sound =
      WhenReturns-bind (SoundOut cap) (strip_type reply) _ λ body e.
        WhenReturns-bind (SoundOut cap) (read_uint16 reply) _ λ type e'.
          WhenReturns-bind (SoundOut cap) (read_at c.telemetry_adders type) _
            (λ adder e''. stored_by type body adder)
    where
      stored_by :
          (type : ℕ) (body : Bytes) (adder : Option Kind)
          → WhenReturns
              (elim adder [
                | none ↦ special_telemetry env type body c
                | some k ↦ add_to_telemetry_buffer env k type body c >>= λ c'. ok (type, c')
              ])
              (SoundOut cap)
      stored_by type body none = special_telemetry-IsSound cap type body c sound
      stored_by type body (some k) =
          WhenReturns-bind (SoundOut cap) (add_to_telemetry_buffer env k type body c) _
            λ c' done. rw done at (add_to_telemetry_buffer-IsSound cap k type body c sound)

  pub get_telemetry-IsSound :
      (cap : ℕ) (k : Kind) (type : ℕ) (c : Controller env)
      → IsSound env cap c
      → WhenReturns (get_telemetry env k type c) (SoundOut cap)
  unfolding get_telemetry
  get_telemetry-IsSound cap k type c sound =
      WhenReturns-bind (SoundOut cap) (pop_at k c.buffers.slots type) _ λ out popped.
        SameSized-IsSound env cap c _ refl (rw popped at (pop_at-SameSized k c.buffers.slots type))
          refl refl sound

  -- The getter of a sensor returns, for every number.
  pub get_simple_sensor-IsSound :
      (cap id : ℕ) (c : Controller env)
      → IsSound env cap c
      → Returns (get_simple_sensor env id c) (SoundOut cap)
  unfolding get_simple_sensor
  get_simple_sensor-IsSound cap id c sound =
      elim (Bool-cases (ltb id (length c.simplesensorbuffer))) [
        | inr e ↦ rw e sound
        | inl e ↦
            let k = Kind.simple_sensor in
            let inside = ltb→lt id (length c.simplesensorbuffer) e in
            let (out, popped, fits) =
              Returns_value (λ out. All (Fits k) out.1) (pop_at k c.simplesensorbuffer id)
                (pop_at-Fits k k c.simplesensorbuffer id inside sound.sensors) in
            rw (e, popped)
              (record {
                telemetry = sound.telemetry;
                adders = sound.adders;
                no_adder = sound.no_adder;
                sensors = fits;
              })
      ]

  pub add_telemetry_received_callback-IsSound :
      (cap : ℕ) (k : Kind) (type cb : ℕ) (c : Controller env)
      → IsSound env cap c
      → WhenReturns (add_telemetry_received_callback env k type cb c) (IsSound env cap)
  unfolding add_telemetry_received_callback
  add_telemetry_received_callback-IsSound cap k type cb c sound =
      elim (Option-cases (get_elem? c.buffers.slots type)) [
        | inl e ↦ rw (e, WhenReturns) tt
        | inr (p, e) ↦
            rw (e, WhenReturns)
              (SameSized-IsSound env cap c _ refl
                (add_callback-SameSized k c.buffers.slots type cb p e) refl refl sound)
      ]
