-- ===== src/ControlledRobot/Commands.antt =====
-- src/ControlledRobot/ControlledRobot.hpp: `CommandBufferBase` and `CommandBuffer`, the last command
-- of a type and whether it was read.
use robot_remote_control.Base.{◌≡◌, ℕ, Bool, true, false, if◌then◌else◌, List, [], ◌∷◌, ◌++◌}
use robot_remote_control.Bytes.{Bytes}
use robot_remote_control.Types.{Kind, Protobuf}

pub record CommandBuffer (M : Type 0) : Type 0 where
  pub kind : Kind
  pub command : M
  pub isnew : Bool
  pub callbacks : List ℕ

module _ {M : Type 0} where
  unfoldable pub new_command_buffer : Kind → M → CommandBuffer M
  new_command_buffer k default = record {
    kind = k;
    command = default;
    isnew = false;
    callbacks = [];
  }

  unfoldable pub add_command_received_callback : ℕ → CommandBuffer M → CommandBuffer M
  add_command_received_callback cb b = record b { callbacks = b.callbacks ++ cb ∷ [] }

  -- `read(COMMAND *target)`: whether the command was new, what `*target` holds then, and the buffer.
  unfoldable pub read : CommandBuffer M → Bool × M × CommandBuffer M
  read b = (b.isnew, b.command, record b { isnew = false })

  -- `write(const COMMAND &src)`: the buffer, and the callbacks that are called.
  unfoldable pub write : M → CommandBuffer M → CommandBuffer M × List ℕ
  write src b = (record b { command = src; isnew = true }, b.callbacks)

module _ {F : Type 0} (pb : Protobuf F) where
  open pb use {Message, parse, serialize}

  -- `write(const std::string &serializedMessage)`. What cannot be parsed still goes into the command,
  -- which is then not new.
  unfoldable pub write_serialized :
      Bytes → CommandBuffer Message → Bool × CommandBuffer Message × List ℕ
  write_serialized message b =
      let (parsed, command) = parse b.kind message in
      if parsed
      then (true, record b { command = command; isnew = true }, b.callbacks)
      else (false, record b { command = command; isnew = false }, [])

  -- `read(std::string *receivedMessage)`
  unfoldable pub read_serialized : CommandBuffer Message → Bool × Bytes × CommandBuffer Message
  read_serialized b = (b.isnew, serialize b.command, record b { isnew = false })

  pub write_serialized_parsed :
      (message : Bytes) (m : Message) (b : CommandBuffer Message)
      → parse b.kind message ≡ (true, m)
      → write_serialized message b ≡ (true, record b { command = m; isnew = true }, b.callbacks)
  unfolding write_serialized
  write_serialized_parsed message m b e = rw e

  pub write_serialized_bad :
      (message : Bytes) (b : CommandBuffer Message)
      → (parse b.kind message).0 ≡ false
      → write_serialized message b
        ≡ (false, record b { command = (parse b.kind message).1; isnew = false }, [])
  unfolding write_serialized
  write_serialized_bad message b e = rw e
