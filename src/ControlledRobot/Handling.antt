-- ===== src/ControlledRobot/Handling.antt =====
-- How a command message is handled: the command is stored and acknowledged, or refused.
use robot_remote_control.Base.{
  ◌⊎◌, inl, inr, ℕ, ◌≡◌, ◌≢◌, ◌<◌, refl, ◌∙◌, true, false, ==_ne, none, some, [], ◌∷◌, ◌++◌, map,
  ok, fault, Fault, lookup, insert, length, arith,
}
use robot_remote_control.Bytes.{Bytes, encode_uint16, read_uint16, strip_type}
use robot_remote_control.MessageTypes.Control
use robot_remote_control.Transport.{none_flag}
use robot_remote_control.Env.{Env}
use robot_remote_control.ControlledRobot.{Robot, command_called, type_called}
use robot_remote_control.ControlledRobot.Commands.{
  CommandBuffer, write_serialized_parsed, write_serialized_bad,
}
use robot_remote_control.ControlledRobot.Requests.{
  evaluate_request, dispatch, command_given, default_request, send_reply,
}
use robot_remote_control.ControlledRobot.Stored.{evaluate_request-encode_uint16}

-- The types that `evaluateRequest` does not handle in cases of their own.
pub record IsPlain (type : ℕ) : Type 0 where
  pub small : type < 65536
  pub not_telemetry : type ≢ Control.telemetry_request
  pub not_map : type ≢ Control.map_request
  pub not_level : type ≢ Control.log_level_select
  pub not_permission : type ≢ Control.permission

module _ (env : Env) where
  open env.protobuf use {Message, kind_of, serialize, parse, parse-serialize}
  open env.transport use {State, send}

  plain_default :
      (type : ℕ) (body : Bytes) (r : Robot env)
      → IsPlain type
      → evaluate_request env (encode_uint16 type ++ body) r ≡ default_request env type body r
  unfolding dispatch
  plain_default type body r plain =
      evaluate_request-encode_uint16 env type body r plain.small
      ∙ rw (
        ==_ne type Control.telemetry_request plain.not_telemetry,
        ==_ne type Control.map_request plain.not_map,
        ==_ne type Control.log_level_select plain.not_level,
        ==_ne type Control.permission plain.not_permission,
      )

  -- The robot after a command was stored, acknowledged and reported.
  abbrev pub accepted : ℕ → Message → CommandBuffer Message → Robot env → Robot env
  accepted type m b r = record r {
    command_transport = (send (encode_uint16 type) none_flag r.command_transport).1;
    commandbuffers = insert type (record b { command = m; isnew = true }) r.commandbuffers;
    called =
        (r.called ++ map command_called b.callbacks)
        ++ map (λ cb. type_called cb type) r.command_callbacks;
  }

  -- The robot after a command that cannot be parsed.
  abbrev pub refused : ℕ → Bytes → CommandBuffer Message → Robot env → Robot env
  refused type body b r = record r {
    command_transport =
        (send (encode_uint16 Control.no_control_data) none_flag r.command_transport).1;
    commandbuffers =
        insert type (record b { command = (parse b.kind body).1; isnew = false }) r.commandbuffers;
    called = r.called ++ [];
  }

  command_given_parsed :
      (type : ℕ) (body : Bytes) (m : Message) (b : CommandBuffer Message) (r : Robot env)
      (bytes : ℕ)
      → parse b.kind body ≡ (true, m)
      → (send (encode_uint16 type) none_flag r.command_transport).0 ≡ some bytes
      → command_given env type body b r ≡ ok (type, accepted type m b r)
  unfolding command_given
  command_given_parsed type body m b r bytes parsed sends =
      rw (write_serialized_parsed env.protobuf body m b parsed) (rw (sends, send_reply))

  command_given_bad :
      (type : ℕ) (body : Bytes) (b : CommandBuffer Message) (r : Robot env) (bytes : ℕ)
      → (parse b.kind body).0 ≡ false
      → (send (encode_uint16 Control.no_control_data) none_flag r.command_transport).0 ≡ some bytes
      → command_given env type body b r ≡ ok (Control.no_control_data, refused type body b r)
  unfolding command_given
  command_given_bad type body b r bytes bad sends =
      rw (write_serialized_bad env.protobuf body b bad) (rw (sends, send_reply))

  default_request_found :
      (type : ℕ) (body : Bytes) (b : CommandBuffer Message) (r : Robot env)
      → lookup type r.commandbuffers ≡ some b
      → default_request env type body r ≡ command_given env type body b r
  unfolding default_request command_given
  default_request_found type body b r found = rw (default_request, found)

  -- A serialized command whose type has a buffer of its class is stored there as new, its type is sent
  -- back and returned, and first its callbacks, then those for every command, are added to the calls.
  pub evaluate_request-accepted :
      (type : ℕ) (m : Message) (b : CommandBuffer Message) (r : Robot env) (bytes : ℕ)
      → IsPlain type
      → lookup type r.commandbuffers ≡ some b
      → b.kind ≡ kind_of m
      → (send (encode_uint16 type) none_flag r.command_transport).0 ≡ some bytes
      → evaluate_request env (encode_uint16 type ++ serialize m) r ≡ ok (type, accepted type m b r)
  evaluate_request-accepted type m b r bytes plain found same sends =
      plain_default type (serialize m) r plain
      ∙ default_request_found type (serialize m) b r found
      ∙ command_given_parsed type (serialize m) m b r bytes (rw same (parse-serialize m)) sends

  -- A command that cannot be parsed is answered by NO_CONTROL_DATA, which is returned too. What the
  -- parser made of it is in the buffer, but is not new, and nothing is called.
  pub evaluate_request-refused :
      (type : ℕ) (body : Bytes) (b : CommandBuffer Message) (r : Robot env) (bytes : ℕ)
      → IsPlain type
      → lookup type r.commandbuffers ≡ some b
      → (parse b.kind body).0 ≡ false
      → (send (encode_uint16 Control.no_control_data) none_flag r.command_transport).0 ≡ some bytes
      → evaluate_request env (encode_uint16 type ++ body) r
        ≡ ok (Control.no_control_data, refused type body b r)
  evaluate_request-refused type body b r bytes plain found bad sends =
      plain_default type body r plain
      ∙ default_request_found type body b r found
      ∙ command_given_bad type body b r bytes bad sends

  -- A command whose type has no buffer is answered by NO_CONTROL_DATA, and its own type is returned;
  -- nothing else changes.
  pub evaluate_request-unknown :
      (type : ℕ) (body : Bytes) (r : Robot env) (bytes : ℕ)
      → IsPlain type
      → lookup type r.commandbuffers ≡ none
      → (send (encode_uint16 Control.no_control_data) none_flag r.command_transport).0 ≡ some bytes
      → evaluate_request env (encode_uint16 type ++ body) r
        ≡ ok (
          type,
          record r {
            command_transport =
                (send (encode_uint16 Control.no_control_data) none_flag r.command_transport).1;
          },
        )
  unfolding default_request
  evaluate_request-unknown type body r bytes plain missing sends =
      plain_default type body r plain ∙ rw (missing, default_request, sends, send_reply)

  -- A message of fewer than two bytes makes `evaluateRequest` read behind it or throw.
  pub evaluate_request_short :
      (request : Bytes) (r : Robot env)
      → length request < 2
      → (evaluate_request env request r ≡ fault Fault.out_of_bounds)
        ⊎ (evaluate_request env request r ≡ fault Fault.length_error)
  unfolding evaluate_request read_uint16 strip_type
  evaluate_request_short [] r short = inl refl
  evaluate_request_short (low ∷ []) r short = inr refl
  evaluate_request_short (low ∷ high ∷ rest) r short = absurd (omega arith)
