-- ===== src/ControlledRobot/Replies.antt =====
-- Every request is answered by one message, and the loop of `update` ends.
use robot_remote_control.Base.{
  WhenReturns-map, ap, ◌∙◌, ℕ, zero, suc, ◌<◌, ◌≤◌, ◌≡◌, ◌≢◌, refl, arith, ◌==◌, Bool-cases, some,
  Option-cases, inl, inr, Result, ok, fault, ◌>>=◌, lookup, WhenReturns, WhenReturns-bind,
}
use robot_remote_control.Bytes.{Bytes, read_uint16, strip_type}
use robot_remote_control.MessageTypes.Control
use robot_remote_control.TelemetryBuffer.{peek_serialized}
use robot_remote_control.Transport.{none_flag, noblock}
use robot_remote_control.Env.{Env}
use robot_remote_control.ControlledRobot.{Robot}
use robot_remote_control.ControlledRobot.Commands.{CommandBuffer, write_serialized}
use robot_remote_control.ControlledRobot.Requests.{
  send_reply, telemetry_requested, find_map, map_requested, log_level_selected, permission_given,
  command_given, default_request, dispatch, evaluate_request, receive_request,
  notify_command_callbacks,
}
use robot_remote_control.ControlledRobot.Update.{drain}

module _ (env : Env) where
  open env.protobuf use {Message}
  open env.transport use {State, send, receive}

  -- The robot sent one message on the command channel, and received none there.
  abbrev pub RepliesOnce : Robot env → ℕ × Robot env → Type 0
  RepliesOnce r out =
      (reply : Bytes) × (out.1.command_transport ≡ (send reply none_flag r.command_transport).1)

  send_reply_once :
      (reply : Bytes) (r : Robot env)
      → WhenReturns
          (send_reply env reply r)
          (λ r'. r'.command_transport ≡ (send reply none_flag r.command_transport).1)
  unfolding send_reply
  send_reply_once reply r = elim (Option-cases (send reply none_flag r.command_transport).0) [
    | inl e ↦ rw (e, WhenReturns) tt
    | inr (n, e) ↦ rw (e, WhenReturns) refl
  ]

  -- A branch that ends by a reply, with whatever it returns and does to the other members.
  reply_then :
      (reply : Bytes) (r s : Robot env) (f : Robot env → ℕ × Robot env)
      → s.command_transport ≡ r.command_transport
      → ((r' : Robot env) → (f r').1.command_transport ≡ r'.command_transport)
      → WhenReturns (send_reply env reply s >>= (λ r'. ok (f r'))) (RepliesOnce r)
  reply_then reply r s f same keeps =
      WhenReturns-bind (RepliesOnce r) (send_reply env reply s) _ λ r' e. (
        reply,
        keeps r' ∙ rw e at (send_reply_once reply s) ∙ ap (λ c. (send reply none_flag c).1) same,
      )

  telemetry_requested_once :
      (body : Bytes) (r : Robot env) → WhenReturns (telemetry_requested env body r) (RepliesOnce r)
  unfolding telemetry_requested
  telemetry_requested_once body r =
      WhenReturns-bind (RepliesOnce r) (read_uint16 body) _ λ requested e.
        WhenReturns-bind (RepliesOnce r) (peek_serialized env.protobuf r.buffers requested) _
          λ reply e'. reply_then reply r r _ refl (λ r'. refl)

  map_requested_once :
      (body : Bytes) (r : Robot env) → WhenReturns (map_requested env body r) (RepliesOnce r)
  unfolding map_requested
  map_requested_once body r = WhenReturns-bind (RepliesOnce r) (read_uint16 body) _ λ requested e.
      WhenReturns-bind (RepliesOnce r) (find_map env requested r) _
        λ reply e'. reply_then reply r r _ refl (λ r'. refl)

  log_level_selected_once :
      (body : Bytes) (r : Robot env) → WhenReturns (log_level_selected env body r) (RepliesOnce r)
  unfolding log_level_selected
  log_level_selected_once body r =
      WhenReturns-bind (RepliesOnce r) (read_uint16 body) _
        λ level e. reply_then _ r _ _ refl (λ r'. refl)

  command_given_once :
      (msgtype : ℕ) (body : Bytes) (b : CommandBuffer Message) (r s : Robot env)
      → s.command_transport ≡ r.command_transport
      → WhenReturns (command_given env msgtype body b s) (RepliesOnce r)
  unfolding command_given notify_command_callbacks
  command_given_once msgtype body b r s same =
      elim (Bool-cases (write_serialized env.protobuf body b).0) [
        | inl e ↦ rw e (reply_then _ r _ _ same (λ r'. refl))
        | inr e ↦ rw e (reply_then _ r _ _ same (λ r'. refl))
      ]

  default_request_once :
      (msgtype : ℕ) (body : Bytes) (r s : Robot env)
      → s.command_transport ≡ r.command_transport
      → WhenReturns (default_request env msgtype body s) (RepliesOnce r)
  unfolding default_request
  default_request_once msgtype body r s same =
      elim (Option-cases (lookup msgtype s.commandbuffers)) [
        | inl e ↦ rw (e, WhenReturns) (reply_then _ r s _ same (λ r'. refl))
        | inr (b, e) ↦ rw (e, WhenReturns) (command_given_once msgtype body b r s same)
      ]

  dispatch_once :
      (msgtype : ℕ) (body : Bytes) (r : Robot env)
      → WhenReturns (dispatch env msgtype body r) (RepliesOnce r)
  unfolding dispatch permission_given
  dispatch_once msgtype body r = elim (Bool-cases (msgtype == Control.telemetry_request)) [
    | inl e ↦ rw e (telemetry_requested_once body r)
    | inr e ↦ rw e (elim (Bool-cases (msgtype == Control.map_request)) [
      | inl e ↦ rw e (map_requested_once body r)
      | inr e ↦ rw e (elim (Bool-cases (msgtype == Control.log_level_select)) [
        | inl e ↦ rw e (log_level_selected_once body r)
        | inr e ↦ rw e (elim (Bool-cases (msgtype == Control.permission)) [
          | inl e ↦ rw e (default_request_once msgtype body r (permission_given env body r) refl)
          | inr e ↦ rw e (default_request_once msgtype body r r refl)
        ])
      ])
    ])
  ]

  -- Whenever `evaluateRequest` returns, on every branch, it has sent exactly one message on the command
  -- channel: the reply that a request waits for.
  pub evaluate_request-RepliesOnce :
      (request : Bytes) (r : Robot env)
      → WhenReturns (evaluate_request env request r) (RepliesOnce r)
  unfolding evaluate_request
  evaluate_request-RepliesOnce request r =
      WhenReturns-bind (RepliesOnce r) (read_uint16 request) _ λ msgtype e.
        WhenReturns-bind (RepliesOnce r) (strip_type request) _
          λ body e'. dispatch_once msgtype body r

  -- What a connection promises about the messages that wait on it while the robot works through
  -- them: one fewer after each that was received, and no more after a message was sent.
  pub record Waits (waiting : State → ℕ) : Type 0 where
    pub received :
        (s : State) → (receive noblock s).0 ≢ 0 → waiting (receive noblock s).2 < waiting s
    pub sent : (reply : Bytes) (s : State) → waiting (send reply none_flag s).1 ≤ waiting s

  receive_request-waiting :
      (waiting : State → ℕ) (w : Waits waiting) (r : Robot env)
      → WhenReturns (receive_request env r) (λ out.
        out.0 ≢ Control.no_control_data
        → waiting out.1.command_transport < waiting r.command_transport)
  unfolding receive_request
  receive_request-waiting waiting w r =
      let (n, msg, c) = receive noblock r.command_transport in
      let r' = record r { command_transport = c } in
      elim (Bool-cases (n == 0)) [
        | inl e ↦ rw e (λ not_zero. absurd (not_zero refl))
        | inr e ↦ rw e (
            WhenReturns-map (RepliesOnce r') _ (evaluate_request env msg r')
              (evaluate_request-RepliesOnce msg r')
              λ out (reply, same) _. omega (
                arith,
                ap waiting same,
                w.sent reply c,
                w.received r.command_transport (λ zero. absurd (ground arith)),
              ))
      ]

  -- One round of the loop, with the rest of it given.
  round_total :
      (waiting : State → ℕ) (fuel : ℕ) (r : Robot env) (result : Result (ℕ × Robot env))
      → receive_request env r ≡ result
      → WhenReturns result (λ out.
        out.0 ≢ Control.no_control_data
        → waiting out.1.command_transport < waiting r.command_transport)
      → ((r' : Robot env)
          → waiting r'.command_transport < waiting r.command_transport
          → (out : Result (Robot env)) × (drain env fuel r' ≡ some out))
      → (out : Result (Robot env)) × (drain env (suc fuel) r ≡ some out)
  unfolding drain
  round_total waiting fuel r (fault e) same fewer rest = (fault e, rw (same, drain))
  round_total waiting fuel r (ok out) same fewer rest =
      elim (Bool-cases (out.0 == Control.no_control_data)) [
        | inl e ↦ (ok out.1, rw (same, drain, e))
        | inr e ↦ let (last, q) = rest out.1 (fewer (ground arith)) in (last, rw (same, drain, e) q)
      ]

  -- If finitely many messages wait, and what arrives meanwhile is among them, the loop of `update`
  -- ends, after at most as many rounds and one.
  pub drain_total :
      (waiting : State → ℕ) (w : Waits waiting) (fuel : ℕ) (r : Robot env)
      → waiting r.command_transport < fuel
      → (out : Result (Robot env)) × (drain env fuel r ≡ some out)
  drain_total waiting w zero r enough = elim enough [ ]
  drain_total waiting w (suc fuel) r enough =
      round_total waiting fuel r (receive_request env r) refl (receive_request-waiting waiting w r)
        (λ r' fewer. drain_total waiting w fuel r' (omega arith))
