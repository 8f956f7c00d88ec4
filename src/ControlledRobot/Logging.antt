-- ===== src/ControlledRobot/Logging.antt =====
-- The level that a LOG_LEVEL_SELECT request sets, and the log messages that are sent at it.
use robot_remote_control.Base.{
  ℕ, ◌≡◌, ◌<◌, ◌≤◌, ◌⊎◌, ◌∙◌, true, false, ◌||◌, leb, some, ◌++◌, ok, Returns, arith,
}
use robot_remote_control.Base.Int.{negsuc}
use robot_remote_control.Bytes.{encode_uint16, read_uint16_encode}
use robot_remote_control.MessageTypes.Control
use robot_remote_control.MessageTypes.Telemetry
use robot_remote_control.MessageTypes.Level.{custom}
use robot_remote_control.Transport.{none_flag}
use robot_remote_control.Env.{Env}
use robot_remote_control.ControlledRobot.{Robot}
use robot_remote_control.ControlledRobot.Sending.{set_log_message, send_telemetry}
use robot_remote_control.ControlledRobot.Requests.{
  evaluate_request, dispatch, log_level_selected, send_reply,
}
use robot_remote_control.ControlledRobot.Stored.{evaluate_request-encode_uint16}

too_detailed :
    (level own : ℕ) → level < own → own < custom → (leb own level || leb custom own) ≡ false
too_detailed level own above below = ground arith

wanted : (level own : ℕ) → (own ≤ level) ⊎ (custom ≤ own) → (leb own level || leb custom own) ≡ true
wanted level own h = ground arith

module _ (env : Env) where
  open env.protobuf use {Message, log_level}
  open env.transport use {State, send}

  -- The robot after a request for the level: it has it, and the request is acknowledged.
  abbrev pub selected : ℕ → Robot env → Robot env
  selected level r = record r {
    command_transport =
        (send (encode_uint16 Control.log_level_select) none_flag r.command_transport).1;
    log_level = level;
  }

  pub evaluate_request-selected :
      (level : ℕ) (r : Robot env) (bytes : ℕ)
      → level < 65536
      → (send (encode_uint16 Control.log_level_select) none_flag r.command_transport).0 ≡ some bytes
      → evaluate_request env (encode_uint16 Control.log_level_select ++ encode_uint16 level) r
        ≡ ok (Control.log_level_select, selected level r)
  unfolding dispatch log_level_selected
  evaluate_request-selected level r bytes small sends =
      evaluate_request-encode_uint16 env Control.log_level_select (encode_uint16 level) r
        (omega arith)
      ∙ rw (read_uint16_encode level small, log_level_selected) (rw (sends, send_reply))

  -- Once the robot has acknowledged a request for a log level, `setLogMessage` refuses every message
  -- above that level with -1 and without any effect, unless the message is of a custom level, and
  -- sends all others as telemetry.
  pub set_log_message-evaluate_request :
      (level : ℕ) (r : Robot env) (bytes : ℕ)
      → level < 65536
      → (send (encode_uint16 Control.log_level_select) none_flag r.command_transport).0 ≡ some bytes
      → Returns
          (evaluate_request env (encode_uint16 Control.log_level_select ++ encode_uint16 level) r)
          (λ out.
            (m : Message)
            → (level < log_level m
                → log_level m < custom
                → set_log_message env m out.1 ≡ ok (negsuc 0, out.1))
              × ((log_level m ≤ level) ⊎ (custom ≤ log_level m)
                  → set_log_message env m out.1
                    ≡ send_telemetry env m Telemetry.log_message false out.1))
  unfolding set_log_message
  set_log_message-evaluate_request level r bytes small sends =
      rw (evaluate_request-selected level r bytes small sends) (λ m. (
        (λ above below. rw (too_detailed level (log_level m) above below)),
        (λ h. rw (wanted level (log_level m) h)),
      ))
