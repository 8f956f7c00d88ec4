-- ===== src/RobotController/Keeping/Requests.antt =====
-- Sending a request and waiting for its reply leaves the buffers of the controller alone.
use robot_remote_control.Base.{
  ℕ, ◌+◌, refl, ◌∙◌, ◌&&◌, Bool-cases, Option, none, some, inl, inr, Option-cases, ok,
}
use mathlib.Core.Option
use robot_remote_control.Bytes.{Bytes}
use robot_remote_control.MessageTypes.Control
use robot_remote_control.Timer.{Timer, start, is_expired}
use robot_remote_control.Transport.{Flags}
use robot_remote_control.Env.{Env}
use robot_remote_control.RobotController.{Controller}
use robot_remote_control.RobotController.Requests.{
  Clock, finish_request, send_request, send_protobuf_data,
}
use robot_remote_control.RobotController.Update.{beat, restart_heart_beat, heart_beat}
use robot_remote_control.RobotController.Keeping.{Same, WhenEnds, WhenEnds-bind}

module _ (env : Env) where
  open env.floats use {Float, zero_float, nonzero}
  open env.protobuf use {Message, new_heart_beat}
  open env.transport use {State, send}

  unchanged : (c : Controller env) → Same env c c
  unchanged c = record { buffers = refl; adders = refl; sensors = refl }

  finish_request-Same :
      (clock : Clock) (reply : Bytes) (k : ℕ) (c d : Controller env)
      → Same env c d
      → Same env c (finish_request env clock reply k d).1
  unfolding finish_request
  finish_request-Same clock reply k c d same =
      elim (Bool-cases (is_expired env.floats (clock k) d.request_timer)) [
        | inl e ↦
            rw e (record { buffers = same.buffers; adders = same.adders; sensors = same.sensors })
        | inr e ↦
            rw e (record { buffers = same.buffers; adders = same.adders; sensors = same.sensors })
      ]

  replied-Same :
      (clock : Clock) (timer : Timer Float) (c : Controller env) (out : Option (Bytes × State × ℕ))
      → WhenEnds
          (Option.map
            (λ out. ok (
              finish_request env clock out.0 out.2
                (record c { request_timer = timer; command_transport = some (out.1) })))
            out)
          (λ out. Same env c out.1)
  replied-Same clock timer c none = tt
  replied-Same clock timer c (some out) =
      finish_request-Same clock out.0 out.2 c _
        (record { buffers = refl; adders = refl; sensors = refl })

  pub send_request-Same :
      (fuel : ℕ) (clock : Clock) (message : Bytes) (flags : Flags) (c : Controller env)
      → WhenEnds (send_request env fuel clock message flags c) (λ out. Same env c out.1)
  unfolding send_request
  send_request-Same fuel clock message flags c = elim (Option-cases c.command_transport) [
    | inl e ↦ rw (e, WhenEnds) tt
    | inr (t, e) ↦
        rw (e, WhenEnds)
          (elim (Option-cases (send message flags t).0) [
            | inl failed ↦
                rw (failed, WhenEnds) (record { buffers = refl; adders = refl; sensors = refl })
            | inr (n, sent) ↦ rw (sent, WhenEnds) (replied-Same clock _ _ _)
          ])
  ]

  Same-trans : (c d e : Controller env) → Same env c d → Same env d e → Same env c e
  Same-trans c d e first then = record {
    buffers = then.buffers ∙ first.buffers;
    adders = then.adders ∙ first.adders;
    sensors = then.sensors ∙ first.sensors;
  }

  beat-Same :
      (fuel : ℕ) (clock : Clock) (back : ℕ) (c : Controller env)
      → WhenEnds (beat env fuel clock back c) (Same env c)
  unfolding beat send_protobuf_data
  beat-Same fuel clock back c = elim (Option-cases c.command_transport) [
    | inl e ↦ rw (e, WhenEnds) (record { buffers = refl; adders = refl; sensors = refl })
    | inr (t, e) ↦
        let started = record c {
          latency_timer = start env.floats zero_float (clock 0) c.latency_timer;
        } in
        rw (e, WhenEnds)
          (WhenEnds-bind (λ out. Same env started out.1) _
            (send_protobuf_data env fuel (λ k. clock (k + 1)) (new_heart_beat c.heart_beat_duration)
              Control.heartbeat started)
            _ (send_request-Same fuel (λ k. clock (k + 1)) _ _ started)
            λ out same. record {
              buffers = same.buffers;
              adders = same.adders;
              sensors = same.sensors;
            })
  ]

  pub heart_beat-Same :
      (fuel now : ℕ) (clock : Clock) (back restarted : ℕ) (c : Controller env)
      → WhenEnds (heart_beat env fuel now clock back restarted c) (Same env c)
  unfolding heart_beat restart_heart_beat
  heart_beat-Same fuel now clock back restarted c =
      elim (Bool-cases
        (nonzero c.heart_beat_duration && is_expired env.floats now c.heart_beat_timer)) [
          | inr e ↦ rw (e, WhenEnds) (unchanged c)
          | inl e ↦
              rw (e, WhenEnds)
                (WhenEnds-bind (Same env c) _ (beat env fuel clock back c) _
                  (beat-Same fuel clock back c)
                  λ d same. record {
                    buffers = same.buffers;
                    adders = same.adders;
                    sensors = same.sensors;
                  })
        ]
