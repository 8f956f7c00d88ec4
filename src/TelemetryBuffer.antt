-- ===== src/TelemetryBuffer.antt =====
-- src/TelemetryBuffer.hpp and src/TelemetryBuffer.cpp: a buffer for each telemetry type, and for each
-- a converter that serializes the buffer's oldest value without the caller knowing its type.
pub mod Registered
use robot_remote_control.Base.{
  ℕ, ◌+◌, ◌==◌, leb, ◌||◌, not, if◌then◌else◌, Option, none, some, List, [], Result, ok, fault,
  Fault, ◌>>=◌, read_at, write_at, length, resize, of_option,
}
use robot_remote_control.Bytes.{Bytes}
use robot_remote_control.Types.{Kind, Protobuf}
use robot_remote_control.MessageTypes.Telemetry.{no_telemetry_data, telemetry_message_types_number}
use robot_remote_control.RingBuffer.{new_ring}
use robot_remote_control.RingBuffer.Slots.{Slots, peek_at}

-- `ProtobufToString<PBTYPE>`: the type, and the number of the buffer that it reads.
pub record Converter : Type 0 where
  pub pbtype : Kind
  pub type : ℕ

pub record TelemetryBuffer (A : Type 0) : Type 0 where
  pub slots : Slots A
  pub converters : List (Option Converter)

-- A vector of pointers that is long enough for an index.
abbrev pub fitted {ℓ} : {B : Type ℓ} → ℕ → List (Option B) → List (Option B)
fitted type xs = if leb (length xs) type then resize (type + 1) none xs else xs

module _ {A : Type 0} where
  unfoldable pub new_telemetry_buffer : TelemetryBuffer A
  new_telemetry_buffer = record {
    slots = resize telemetry_message_types_number none [];
    converters = resize telemetry_message_types_number none [];
  }

  unfoldable pub register_type : Kind → A → ℕ → ℕ → TelemetryBuffer A → Result (TelemetryBuffer A)
  register_type k default type buffersize t = do
    slots ←
        write_at (fitted type t.slots) type
          (some (record { kind = k; ring = new_ring default buffersize }))
    converters ←
        write_at (fitted type t.converters) type (some (record { pbtype = k; type = type }))
    ok (record { slots = slots; converters = converters })

module _ {F : Type 0} (pb : Protobuf F) where
  open pb use {Message, serialize}

  -- `ProtobufToString::get`: the empty string if the buffer is empty.
  unfoldable pub converted : TelemetryBuffer Message → Converter → Result Bytes
  converted t c = do
    m ← peek_at c.pbtype t.slots c.type
    ok (elim m [ none ↦ [] | some m ↦ serialize m ])

  -- The test of the source holds of every number, since the type cannot equal both constants.
  unfoldable pub peek_serialized : TelemetryBuffer Message → ℕ → Result Bytes
  unfolding converted
  peek_serialized t type =
      if not (type == no_telemetry_data) || not (type == telemetry_message_types_number)
      then (read_at t.converters type >>= of_option Fault.null_pointer >>= converted t)
      else ok []
