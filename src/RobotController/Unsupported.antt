-- ===== src/RobotController/Unsupported.antt =====
-- Telemetry of a type that the controller does not know.
use robot_remote_control.Base.{
  ℕ, ◌≡◌, ◌≤◌, ◌⊎◌, ltb, if◌then◌else◌, none, some, Fault, length, get_elem?,
}
use robot_remote_control.Bytes.{Bytes}
use robot_remote_control.MessageTypes.Telemetry
use robot_remote_control.Env.{Env}
use robot_remote_control.RobotController.{Controller}

-- The types that the constructor registers nothing for, and that are not handled apart.
abbrev pub IsUnsupported : ℕ → Type 0
IsUnsupported type =
    (type ≡ Telemetry.maps_definition)
    ⊎ (type ≡ Telemetry.map_telemetry)
    ⊎ (Telemetry.telemetry_message_types_number ≤ type)

module _ (env : Env) where
  open env.floats use {Float}
  open env.transport use {State, receive}

  -- What the constructor leaves for these types.
  record Lacks (c : Controller env) : Type 0 where
    maps : get_elem? c.telemetry_adders Telemetry.maps_definition ≡ some none
    map : get_elem? c.telemetry_adders Telemetry.map_telemetry ≡ some none
    end : length c.telemetry_adders ≡ Telemetry.telemetry_message_types_number

  -- What comes of a message of such a type.
  abbrev pub failure : ℕ → Fault
  failure type =
      if ltb type Telemetry.telemetry_message_types_number
      then Fault.range_error
      else Fault.out_of_bounds
