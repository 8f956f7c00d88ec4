-- ===== src/Extension/ExtendedRobot.antt =====
-- The extended robot has all that a robot has, and handles the new types as its own.
use robot_remote_control.Base.{
  ℕ, ◌≡◌, ◌∙◌, refl, Bool, Bool-cases, ◌==◌, inl, inr, Option, some, List, lookup, insert,
  lookup-insert, Returns, Returns-bind, Returns_value, arith,
}
use robot_remote_control.Types.Table.{lookup_below}
use robot_remote_control.MessageTypes.Control
use robot_remote_control.TelemetryBuffer.{register_type, new_telemetry_buffer}
use robot_remote_control.TelemetryBuffer.Registered.{Registered, Registers, register_type-Registers}
use robot_remote_control.Env.{Env}
use robot_remote_control.ControlledRobot.{
  Robot, new_controlled_robot, register_telemetry, register_telemetry_type, register_command_type,
  telemetry_types, command_types,
}
use robot_remote_control.ControlledRobot.Commands.{CommandBuffer, new_command_buffer}
use robot_remote_control.ControlledRobot.Sound.{IsSound, HasCommands, new_controlled_robot-IsSound}
use robot_remote_control.ControlledRobot.Getters.{lookup_inserted}
use robot_remote_control.Extension.{
  new_control_message, new_telemetry_message, control_class, telemetry_class, new_extended_robot,
}

module _ (env : Env) where
  open env.floats use {Float}
  open env.protobuf use {Message, kind_of, serialize, empty}
  open env.transport use {State, send}

  pub record IsExtended (c : State) (t : Option State) (r : Robot env) : Type 0 where
    pub sound : IsSound env r
    pub telemetry : Registered new_telemetry_message telemetry_class 1 r.buffers
    pub command :
        (b : CommandBuffer Message) × (lookup new_control_message r.commandbuffers ≡ some b)
        × (b.kind ≡ control_class)
    pub control_channel : r.command_transport ≡ c
    pub telemetry_channel : r.telemetry_transport ≡ t

  channels :
      (c : State) (t : Option State) (latency : Float) (garbage : Bool)
      → Returns
          (new_controlled_robot env c t latency garbage)
          (λ r. (r.command_transport ≡ c) × (r.telemetry_transport ≡ t))
  unfolding new_controlled_robot register_telemetry register_telemetry_type register_type
      new_telemetry_buffer
  channels c t latency garbage = (refl, refl)

  insert_new :
      (b : CommandBuffer Message) (bufs : List (ℕ × CommandBuffer Message))
      → HasCommands env bufs
      → HasCommands env (insert new_control_message b bufs)
  insert_new b bufs has j k listed =
      let (old, there, of_class) = has j k listed in
      let below = lookup_below 13 j k command_types refl listed in
      elim (Bool-cases (new_control_message == j)) [
        | inr other ↦ (old, lookup-insert new_control_message j b bufs ∙ rw other there, of_class)
        | inl e ↦ absurd (ground arith)
      ]

  pub new_extended_robot-IsExtended :
      (c : State) (t : Option State) (latency : Float) (garbage : Bool)
      → Returns (new_extended_robot env c t latency garbage) (IsExtended c t)
  unfolding new_extended_robot register_telemetry_type register_command_type new_command_buffer
  new_extended_robot-IsExtended c t latency garbage =
      let (r, e, sound) =
        Returns_value (IsSound env) (new_controlled_robot env c t latency garbage)
          (new_controlled_robot-IsSound env c t latency garbage) in
      let (control, telemetry) = rw e at (channels c t latency garbage) in
      rw e (
        Returns-bind (Registers new_telemetry_message telemetry_class 1 r.buffers) _
          (register_type telemetry_class (empty telemetry_class) new_telemetry_message 1 r.buffers)
          _
          (register_type-Registers telemetry_class (empty telemetry_class) new_telemetry_message 1
            r.buffers (omega arith) (omega arith))
          λ buffers done. record {
            sound = record {
              telemetry = λ j k listed.
                  let below = lookup_below 23 j k telemetry_types refl listed in
                  done.others j k 1 (λ same. omega (arith, same)) (sound.telemetry j k listed);
              commands = insert_new _ r.commandbuffers sound.commands;
              maps = sound.maps;
            };
            telemetry = done.registered;
            command = (_, lookup_inserted new_control_message _ r.commandbuffers, refl);
            control_channel = control;
            telemetry_channel = telemetry;
          })
