-- ===== src/RobotController/Receiving.antt =====
-- src/RobotController/RobotController.cpp: `evaluateTelemetry`, which puts a message from the
-- telemetry channel into its buffer.
use robot_remote_control.Base.{
  ℕ, ◌%◌, ◌==◌, ◌||◌, if◌then◌else◌, true, false, none, some, ◌++◌, map, Result, ok, fault, Fault,
  ◌>>=◌, read_at,
}
use robot_remote_control.Bytes.{Bytes, read_uint16, strip_type}
use robot_remote_control.Types.{Kind}
use robot_remote_control.MessageTypes.Telemetry
use robot_remote_control.RingBuffer.Slots.{push_at}
use robot_remote_control.SimpleBuffer.{init_buffer_id}
use robot_remote_control.Env.{Env}
use robot_remote_control.RobotController.{Controller, data_called}

module _ (env : Env) where
  open env.protobuf use {Message, parse, empty, sensor_id}

  -- `TelemetryAdder::addToTelemetryBuffer`. What the parser leaves is stored, parsed or not; a full
  -- buffer refuses it.
  unfoldable pub add_to_telemetry_buffer :
      Kind → ℕ → Bytes → Controller env → Result (Controller env)
  add_to_telemetry_buffer k type body c =
      push_at k c.buffers.slots type (parse k body).1 false >>= λ out. ok (record c {
        buffers = record (c.buffers) { slots = out.1 };
        called = c.called ++ map (λ call. data_called call.0 call.1) out.2;
      })

  -- The id is a number of 32 bits, and is cut to 16 where the buffer is made only. Nobody can add a
  -- callback to a buffer of a sensor.
  unfoldable pub add_to_simple_sensor_buffer : Bytes → Controller env → Result (Controller env)
  add_to_simple_sensor_buffer body c =
      let sensor = (parse Kind.simple_sensor body).1 in
      init_buffer_id Kind.simple_sensor (empty Kind.simple_sensor) (sensor_id sensor % 65536)
        c.simplesensorbuffer
      >>= λ ready. push_at Kind.simple_sensor ready (sensor_id sensor) sensor true >>= λ out.
          ok (record c { simplesensorbuffer = out.1 })

  -- The types without an adder.
  unfoldable pub special_telemetry : ℕ → Bytes → Controller env → Result (ℕ × Controller env)
  unfolding add_to_simple_sensor_buffer
  special_telemetry type body c =
      if type == Telemetry.simple_sensor_value
      then (add_to_simple_sensor_buffer body c >>= λ c'. ok (type, c'))
      else if type == Telemetry.telemetry_message_types_number
          || type == Telemetry.no_telemetry_data
      then ok (type, c)
      else fault Fault.range_error

  unfoldable pub evaluate_telemetry : Bytes → Controller env → Result (ℕ × Controller env)
  unfolding add_to_telemetry_buffer special_telemetry
  evaluate_telemetry reply c = strip_type reply >>= λ body. read_uint16 reply >>= λ type.
      read_at c.telemetry_adders type >>= λ adder. elim adder [
        | none ↦ special_telemetry type body c
        | some k ↦ add_to_telemetry_buffer k type body c >>= λ c'. ok (type, c')
      ]
