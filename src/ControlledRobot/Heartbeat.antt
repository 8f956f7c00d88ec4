-- ===== src/ControlledRobot/Heartbeat.antt =====
-- The connection state that the heartbeat keeps.
use robot_remote_control.Base.{
  ℕ, ◌≡◌, ◌≤◌, refl, ◌∙◌, Bool, true, false, not, Bool-cases, inl, inr, if◌then◌else◌, some, [],
  ◌∷◌, ◌++◌, List, Returns, arith, lookup, insert, lookup-insert,
}
use robot_remote_control.Base.Int.{sub_ℕ}
use robot_remote_control.Bytes.{encode_uint16}
use robot_remote_control.MessageTypes.Control
use robot_remote_control.Timer.{Timer, start, is_expired, get_elapsed_time}
use robot_remote_control.Timer.Expiry.{is_expired-start}
use robot_remote_control.Transport.{none_flag}
use robot_remote_control.Env.{Env}
use robot_remote_control.ControlledRobot.{Robot, Event, expired_called}
use robot_remote_control.ControlledRobot.Commands.{CommandBuffer, read}
use robot_remote_control.ControlledRobot.Requests.{evaluate_request}
use robot_remote_control.ControlledRobot.Handling.{IsPlain, accepted, evaluate_request-accepted}
use robot_remote_control.ControlledRobot.Update.{read_heartbeat, check_heartbeat}

not_lem : (b : Bool) → (if b then false else true) ≡ not b
not_lem true = refl
not_lem false = refl

module _ (env : Env) where
  open env.floats use {Float, geb, seconds, add}
  open env.protobuf use {Message, kind_of, serialize, heartbeatduration}
  open env.transport use {State, send}

  pub heartbeat-IsPlain : IsPlain Control.heartbeat
  heartbeat-IsPlain = record {
    small = omega arith;
    not_telemetry = λ e. omega arith;
    not_map = λ e. omega arith;
    not_level = λ e. omega arith;
    not_permission = λ e. omega arith;
  }

  -- The test of the timer decides the connection if the heartbeat was just read.
  check_heartbeat-connected :
      (now later : ℕ) (r : Robot env)
      → (check_heartbeat env now later r).connected
        ≡ (if is_expired env.floats now r.heartbeat_timer then false else r.connected)
  unfolding check_heartbeat
  check_heartbeat-connected now later r =
      elim (Bool-cases (is_expired env.floats now r.heartbeat_timer)) [
        | inr e ↦ rw e
        | inl e ↦
            rw e (elim (Bool-cases r.heartbeat_expired_callback) [ inl e ↦ rw e | inr e ↦ rw e ])
      ]

  read_heartbeat_new :
      (now : ℕ) (r : Robot env) (b : CommandBuffer Message)
      → lookup Control.heartbeat r.commandbuffers ≡ some b
      → b.isnew ≡ true
      → read_heartbeat env now r ≡ record r {
        heartbeat_values = b.command;
        commandbuffers = insert Control.heartbeat (record b { isnew = false }) r.commandbuffers;
        connected = true;
        heartbeat_timer =
            start env.floats
              (add (heartbeatduration b.command) r.heartbeat_allowed_latency)
              now
              r.heartbeat_timer;
      }
  unfolding read_heartbeat read
  read_heartbeat_new now r b found new = rw (found, read_heartbeat) (rw (new, read))

  -- After a heartbeat command was handled, `update` reads it and the robot is connected as long as
  -- less time has passed than the duration that the heartbeat announces and the allowed latency
  -- together, and not from then on.
  pub check_heartbeat-evaluate_request :
      (m : Message) (b : CommandBuffer Message) (r : Robot env) (bytes : ℕ)
      → lookup Control.heartbeat r.commandbuffers ≡ some b
      → b.kind ≡ kind_of m
      → (send (encode_uint16 Control.heartbeat) none_flag r.command_transport).0 ≡ some bytes
      → Returns (evaluate_request env (encode_uint16 Control.heartbeat ++ serialize m) r) (λ out.
        (began now later : ℕ)
        → (check_heartbeat env now later (read_heartbeat env began out.1)).connected
          ≡ not (
              geb
                (seconds (sub_ℕ now began))
                (add (heartbeatduration m) r.heartbeat_allowed_latency)))
  check_heartbeat-evaluate_request m b r bytes found same sends =
      rw
        (evaluate_request-accepted env Control.heartbeat m b r bytes heartbeat-IsPlain found same
          sends)
        (λ began now later.
          let stored = record b { command = m; isnew = true } in
          let after = accepted env Control.heartbeat m b r in
          let there : lookup Control.heartbeat after.commandbuffers ≡ some stored =
            lookup-insert Control.heartbeat Control.heartbeat stored r.commandbuffers in
          let interval = add (heartbeatduration m) r.heartbeat_allowed_latency in
          check_heartbeat-connected now later (read_heartbeat env began after)
          ∙ rw
              (
                read_heartbeat_new began after stored there refl,
                is_expired-start env.floats interval began now r.heartbeat_timer,
              )
              (not_lem (geb (seconds (sub_ℕ now began)) interval)))

  -- What the heartbeat does to the robot in one `update` after the other while no new heartbeat comes:
  -- each with the time at its start, at the test of the timer, and at the reading of what elapsed.
  abbrev pub quiet_updates : List (ℕ × ℕ × ℕ) → Robot env → Robot env
  quiet_updates [] r = r
  quiet_updates ((began, now, later) ∷ rounds) r =
      quiet_updates rounds (check_heartbeat env now later (read_heartbeat env began r))

  -- Each test of the timer is at the time or later.
  abbrev pub AllFrom : ℕ → List (ℕ × ℕ × ℕ) → Type 0
  AllFrom expired [] = Unit
  AllFrom expired ((began, now, later) ∷ rounds) = (expired ≤ now) × AllFrom expired rounds

  abbrev pub expiry : Bool → Float → List (Event Float)
  expiry callback elapsed = if callback then expired_called elapsed ∷ [] else []

  -- The calls of the callback: one for each `update`, if there is a callback.
  abbrev pub expiries : Bool → Timer Float → List (ℕ × ℕ × ℕ) → List (Event Float)
  expiries callback timer [] = []
  expiries callback timer ((began, now, later) ∷ rounds) =
      expiry callback (get_elapsed_time env.floats later timer) ++ expiries callback timer rounds

  -- An `update` after the expiry is as the one before: the timer is kept and no heartbeat is new.
  record Quieted (began now later : ℕ) (b : CommandBuffer Message) (r out : Robot env)
      : Type 0 where
    disconnected : out.connected ≡ false
    called_once :
        out.called
        ≡ r.called
          ++ expiry r.heartbeat_expired_callback
              (get_elapsed_time env.floats later r.heartbeat_timer)
    same_timer : out.heartbeat_timer ≡ r.heartbeat_timer
    same_callback : out.heartbeat_expired_callback ≡ r.heartbeat_expired_callback
    still : lookup Control.heartbeat out.commandbuffers ≡ some (record b { isnew = false })
