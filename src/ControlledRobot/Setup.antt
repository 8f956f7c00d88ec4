-- ===== src/ControlledRobot/Setup.antt =====
-- src/ControlledRobot/ControlledRobot.hpp: the callbacks that the application sets up, and what it asks
-- of the connection.
use robot_remote_control.Base.{
  of_option, lookup, insert, ◌∷◌, [], ℕ, Bool, true, ◌++◌, Result, ok, Fault, ◌>>=◌,
}
use robot_remote_control.Env.{Env}
use robot_remote_control.ControlledRobot.{Robot}
use robot_remote_control.ControlledRobot.Commands.{add_command_received_callback as add_to_buffer}

module _ (env : Env) where
  -- `setupHeartbeatCallback`
  unfoldable pub setup_heartbeat_callback : env.floats.Float → Robot env → Robot env
  setup_heartbeat_callback latency r = record r {
    heartbeat_allowed_latency = latency;
    heartbeat_expired_callback = true;
  }

  -- `addCommandReceivedCallback` for every command, and for those of one type.
  unfoldable pub add_command_received_callback : ℕ → Robot env → Robot env
  add_command_received_callback cb r = record r {
    command_callbacks = r.command_callbacks ++ cb ∷ [];
  }

  unfoldable pub add_type_received_callback : ℕ → ℕ → Robot env → Result (Robot env)
  add_type_received_callback type cb r = do
    b ← of_option Fault.null_pointer (lookup type r.commandbuffers)
    ok (record r { commandbuffers = insert type (add_to_buffer cb b) r.commandbuffers })

  unfoldable pub is_connected : Robot env → Bool
  is_connected r = r.connected
