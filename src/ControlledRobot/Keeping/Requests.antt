-- ===== src/ControlledRobot/Keeping/Requests.antt =====
-- The handling of a message keeps the robot sound.
use robot_remote_control.Base.{
  ℕ, ◌≡◌, sym, ◌∙◌, ap, Bool-cases, ◌==◌, ==_iff, Option, none, some, Option-cases, inl, inr, List,
  ok, ◌>>=◌, lookup, insert, lookup-insert, WhenReturns, WhenReturns-bind,
}
use robot_remote_control.Bytes.{Bytes, read_uint16, strip_type}
use robot_remote_control.MessageTypes.Control
use robot_remote_control.TelemetryBuffer.{peek_serialized}
use robot_remote_control.Transport.{none_flag, noblock}
use robot_remote_control.Env.{Env}
use robot_remote_control.ControlledRobot.{Robot}
use robot_remote_control.ControlledRobot.Commands.{CommandBuffer, write_serialized}
use robot_remote_control.ControlledRobot.Requests.{
  send_reply, telemetry_requested, find_map, map_requested, log_level_selected, permission_given,
  command_given, default_request, dispatch, evaluate_request, receive_request,
  notify_command_callbacks,
}
use robot_remote_control.ControlledRobot.Sound.{IsSound, HasCommands}

module _ (env : Env) where
  open env.protobuf use {Message, kind_of, serialize, parse}
  open env.transport use {State, send, receive}

  -- What the callers of a result with a robot learn.
  abbrev pub SoundOut : {A : Type 0} → A × Robot env → Type 0
  SoundOut out = IsSound env out.1

  send_reply-IsSound :
      (reply : Bytes) (r : Robot env)
      → IsSound env r
      → WhenReturns (send_reply env reply r) (IsSound env)
  unfolding send_reply
  send_reply-IsSound reply r sound =
      elim (Option-cases (send reply none_flag r.command_transport).0) [
        | inl e ↦ rw (e, WhenReturns) tt
        | inr (n, e) ↦
            rw (e, WhenReturns)
              (record { telemetry = sound.telemetry; commands = sound.commands; maps = sound.maps })
      ]

  reply_then :
      (reply : Bytes) (r : Robot env) (f : Robot env → ℕ × Robot env)
      → IsSound env r
      → ((r' : Robot env) → IsSound env r' → IsSound env (f r').1)
      → WhenReturns (send_reply env reply r >>= (λ r'. ok (f r'))) SoundOut
  reply_then reply r f sound keeps =
      WhenReturns-bind SoundOut (send_reply env reply r) _
        λ r' e. keeps r' (rw e at (send_reply-IsSound reply r sound))

  -- A buffer of the same class may take the place of a command buffer.
  pub insert-HasCommands :
      (type : ℕ) (b c : CommandBuffer Message) (bufs : List (ℕ × CommandBuffer Message))
      → lookup type bufs ≡ some b
      → c.kind ≡ b.kind
      → HasCommands env bufs
      → HasCommands env (insert type c bufs)
  insert-HasCommands type b c bufs found same has j k listed =
      let (old, there, of_class) = has j k listed in
      elim (Bool-cases (type == j)) [
        | inr other ↦ (old, lookup-insert type j c bufs ∙ rw other there, of_class)
        | inl e ↦
            let here : type ≡ j = (==_iff type j).0 e in
            let both : Path (Option (CommandBuffer Message)) (some b) (some old) =
              sym found ∙ ap (λ i. lookup i bufs) here ∙ there in
            (
              c,
              lookup-insert type j c bufs ∙ rw e,
              same ∙ ap (λ o. elim o [ none ↦ b.kind | some x ↦ x.kind ]) both ∙ of_class,
            )
      ]

  write_serialized_kind :
      (body : Bytes) (b : CommandBuffer Message)
      → (write_serialized env.protobuf body b).1.kind ≡ b.kind
  unfolding write_serialized
  write_serialized_kind body b = elim (Bool-cases (parse b.kind body).0) [
    | inl e ↦ rw e
    | inr e ↦ rw e
  ]

  command_given-IsSound :
      (type : ℕ) (body : Bytes) (b : CommandBuffer Message) (r : Robot env)
      → lookup type r.commandbuffers ≡ some b
      → IsSound env r
      → WhenReturns (command_given env type body b r) SoundOut
  unfolding command_given notify_command_callbacks
  command_given-IsSound type body b r found sound =
      let c = (write_serialized env.protobuf body b).1 in
      let kept =
        insert-HasCommands type b c r.commandbuffers found (write_serialized_kind body b)
          sound.commands in
      elim (Bool-cases (write_serialized env.protobuf body b).0) [
        | inl e ↦ rw e (
            reply_then _ _ _
              (record { telemetry = sound.telemetry; commands = kept; maps = sound.maps })
              (λ r' s. record { telemetry = s.telemetry; commands = s.commands; maps = s.maps }))
        | inr e ↦ rw e (
            reply_then _ _ _
              (record { telemetry = sound.telemetry; commands = kept; maps = sound.maps })
              (λ r' s. s))
      ]

  default_request-IsSound :
      (type : ℕ) (body : Bytes) (r : Robot env)
      → IsSound env r
      → WhenReturns (default_request env type body r) SoundOut
  unfolding default_request
  default_request-IsSound type body r sound = elim (Option-cases (lookup type r.commandbuffers)) [
    | inl e ↦ rw (e, WhenReturns) (reply_then _ r _ sound (λ r' s. s))
    | inr (b, e) ↦ rw (e, WhenReturns) (command_given-IsSound type body b r e sound)
  ]

  asked-IsSound :
      (body : Bytes) (r : Robot env)
      → IsSound env r
      → WhenReturns (telemetry_requested env body r) SoundOut
        × WhenReturns (map_requested env body r) SoundOut
        × WhenReturns (log_level_selected env body r) SoundOut
  unfolding telemetry_requested map_requested log_level_selected
  asked-IsSound body r sound = (
    WhenReturns-bind SoundOut (read_uint16 body) _ λ requested e.
        WhenReturns-bind SoundOut (peek_serialized env.protobuf r.buffers requested) _
          λ reply e'. reply_then reply r _ sound (λ r' s. s),
    WhenReturns-bind SoundOut (read_uint16 body) _ λ requested e.
        WhenReturns-bind SoundOut (find_map env requested r) _
          λ reply e'. reply_then reply r _ sound (λ r' s. s),
    WhenReturns-bind SoundOut (read_uint16 body) _ λ level e.
        reply_then _ (record r { log_level = level }) _
          (record { telemetry = sound.telemetry; commands = sound.commands; maps = sound.maps })
          (λ r' s. s),
  )

  permission_given-IsSound :
      (body : Bytes) (r : Robot env) → IsSound env r → IsSound env (permission_given env body r)
  unfolding permission_given
  permission_given-IsSound body r sound = record {
    telemetry = sound.telemetry;
    commands = sound.commands;
    maps = sound.maps;
  }

  dispatch-IsSound :
      (msgtype : ℕ) (body : Bytes) (r : Robot env)
      → IsSound env r
      → WhenReturns (dispatch env msgtype body r) SoundOut
  unfolding dispatch
  dispatch-IsSound msgtype body r sound =
      let (telemetry, maps, level) = asked-IsSound body r sound in
      elim (Bool-cases (msgtype == Control.telemetry_request)) [
        | inl e ↦ rw e telemetry
        | inr e ↦ rw e (elim (Bool-cases (msgtype == Control.map_request)) [
          | inl e ↦ rw e maps
          | inr e ↦ rw e (elim (Bool-cases (msgtype == Control.log_level_select)) [
            | inl e ↦ rw e level
            | inr e ↦ rw e (elim (Bool-cases (msgtype == Control.permission)) [
              | inl e ↦
                  rw e
                    (default_request-IsSound msgtype body _ (permission_given-IsSound body r sound))
              | inr e ↦ rw e (default_request-IsSound msgtype body r sound)
            ])
          ])
        ])
      ]

  pub receive_request-IsSound :
      (r : Robot env) → IsSound env r → WhenReturns (receive_request env r) SoundOut
  unfolding receive_request evaluate_request
  receive_request-IsSound r sound =
      let (n, msg, c) = receive noblock r.command_transport in
      let after : IsSound env (record r { command_transport = c }) = record {
        telemetry = sound.telemetry;
        commands = sound.commands;
        maps = sound.maps;
      } in
      elim (Bool-cases (n == 0)) [
        | inl e ↦ rw e after
        | inr e ↦ rw e (
            WhenReturns-bind SoundOut (read_uint16 msg) _ λ msgtype e.
              WhenReturns-bind SoundOut (strip_type msg) _
                λ body e'. dispatch-IsSound msgtype body _ after)
      ]
