-- ===== src/RobotController/Replied.antt =====
-- What `sendRequest` returns, and that it does.
use robot_remote_control.Base.{
  ℕ, zero, suc, ◌+◌, ◌-◌, ◌<◌, ◌≤◌, ◌≡◌, refl, sym, ap, none, ◌==◌, ◌⊎◌, inl, inr, Bool-cases, true,
  false, some, Option-cases, [], ◌∷◌, ◌++◌, ok, arith,
}
use robot_remote_control.Bytes.{Bytes}
use robot_remote_control.Timer.{Timer, start, is_expired, get_elapsed_time}
use robot_remote_control.Timer.Expiry.{is_expired_mono}
use robot_remote_control.Transport.{Flags}
use robot_remote_control.Env.{Env}
use robot_remote_control.RobotController.{Controller, lost_called}
use robot_remote_control.RobotController.Requests.{
  Clock, wait_reply, lost, finish_request, send_request,
}

module _ (env : Env) where
  open env.floats use {Float, zero_float}
  open env.transport use {State, send, receive}

  -- The connection after so many polls.
  abbrev pub polled : Flags → ℕ → State → State
  polled flags zero s = s
  polled flags (suc i) s = polled flags i (receive flags s).2

  -- The polls before the `i`-th found no message, and the clock, read after each, was not past the
  -- latency.
  abbrev pub Waited : Clock → ℕ → Flags → Timer Float → State → ℕ → Type 0
  Waited clock k flags timer s i =
      (j : ℕ)
      → j < i
      → (((receive flags (polled flags j s)).0 == 0) ≡ true)
        × (is_expired env.floats (clock (k + j)) timer ≡ false)

  -- The connection is down, the empty string is returned, and the callback was called once.
  abbrev pub IsLost : Controller env → Float → Bytes × Controller env → Type 0
  IsLost c seconds out =
      (out.1.connected ≡ false)
      × (out.0 ≡ [])
      × (out.1.called ≡ c.called ++ lost_called c.lost_connection_callback seconds ∷ [])
      × (out.1.last_connected_timer ≡ c.last_connected_timer)

  -- What a request that was sent has done after so many polls: there was a message in time, which is
  -- what it returned, and the connection is up from now on; or the time was over, and the connection is lost.
  pub record Replied (clock : Clock) (flags : Flags) (timer : Timer Float) (s : State)
      (c : Controller env) (out : Bytes × Controller env) : Type 0 where
    pub polls : ℕ
    pub waited : Waited clock 1 flags timer s polls
    pub after : out.1.command_transport ≡ some (polled flags (suc polls) s)
    pub outcome :
        ((((receive flags (polled flags polls s)).0 == 0) ≡ false)
          × (is_expired env.floats (clock (1 + polls)) timer ≡ false)
          × (out.0 ≡ (receive flags (polled flags polls s)).1)
          × (out.1.connected ≡ true)
          × (out.1.called ≡ c.called)
          × (out.1.last_connected_timer
              ≡ start env.floats zero_float (clock (1 + polls + 1)) c.last_connected_timer))
        ⊎ ((is_expired env.floats (clock (1 + polls)) timer ≡ true)
            × ((later : ℕ) × (1 + polls < later)
                × IsLost c (get_elapsed_time env.floats (clock later) c.last_connected_timer) out))

  -- What a request that returned has done. If it could not be sent, the connection is lost at once.
  pub record Answered (clock : Clock) (message : Bytes) (flags : Flags) (t : State)
      (c : Controller env) (out : Bytes × Controller env) : Type 0 where
    pub known :
        (((send message flags t).0 ≡ none) × IsLost c c.max_latency out)
        ⊎ ((bytes : ℕ) × ((send message flags t).0 ≡ some bytes)
            × Replied clock flags
                (start env.floats c.max_latency (clock 0) c.request_timer)
                (send message flags t).1
                c
                out)
    pub same_buffers : out.1.buffers ≡ c.buffers
    pub same_sensors : out.1.simplesensorbuffer ≡ c.simplesensorbuffer

  -- What the loop has done after so many polls.
  record Polled (clock : Clock) (k : ℕ) (flags : Flags) (timer : Timer Float) (s : State)
      (out : Bytes × State × ℕ) : Type 0 where
    polls : ℕ
    waited : Waited clock k flags timer s polls
    after : out.1 ≡ polled flags (suc polls) s
    outcome :
        ((((receive flags (polled flags polls s)).0 == 0) ≡ false)
          × (out.0 ≡ (receive flags (polled flags polls s)).1)
          × (out.2 ≡ k + polls))
        ⊎ ((is_expired env.floats (clock (k + polls)) timer ≡ true) × (out.2 ≡ k + polls + 1))

  positive :
      (clock : Clock) (k n : ℕ) (timer : Timer Float)
      → is_expired env.floats (clock (k + n)) timer ≡ true
      → is_expired env.floats (clock k) timer ≡ false
      → 0 < n
  positive clock k zero timer over later = absurd (grind (arith, over, later))
  positive clock k (suc n) timer over later = omega arith

  not_yet :
      (clock : Clock) (k n : ℕ) (timer : Timer Float)
      → is_expired env.floats (clock (k + n)) timer ≡ true
      → is_expired env.floats (clock k) timer ≡ false
      → is_expired env.floats (clock (k + 1 + (n - 1))) timer ≡ true
  not_yet clock k n timer over later =
      let same : k + 1 + (n - 1) ≡ k + n = omega (arith, positive clock k n timer over later) in
      rw same over

  Waited-suc :
      (clock : Clock) (k : ℕ) (flags : Flags) (timer : Timer Float) (s : State) (i : ℕ)
      → ((receive flags s).0 == 0) ≡ true
      → is_expired env.floats (clock k) timer ≡ false
      → Waited clock (k + 1) flags timer (receive flags s).2 i
      → Waited clock k flags timer s (suc i)
  Waited-suc clock k flags timer s i empty early rest zero below =
      let same : k + 0 ≡ k = omega arith in (empty, rw same early)
  Waited-suc clock k flags timer s i empty early rest (suc j) below =
      let same : k + suc j ≡ k + 1 + j = omega arith in
      let (none_yet, in_time) = rest j (omega arith) in (none_yet, rw same in_time)

  Polled-suc :
      (clock : Clock) (k : ℕ) (flags : Flags) (timer : Timer Float) (s : State)
      (out : Bytes × State × ℕ)
      → ((receive flags s).0 == 0) ≡ true
      → is_expired env.floats (clock k) timer ≡ false
      → Polled clock (k + 1) flags timer (receive flags s).2 out
      → Polled clock k flags timer s out
  Polled-suc clock k flags timer s out empty early done =
      let same : k + suc done.polls ≡ k + 1 + done.polls = omega arith in
      record {
        polls = suc done.polls;
        waited = Waited-suc clock k flags timer s done.polls empty early done.waited;
        after = done.after;
        outcome = rw same done.outcome;
      }

  -- Polling ends when a message came or, at the latest, at the first reading of the clock at which
  -- the timer is expired.
  wait_reply_total :
      (n fuel : ℕ) (clock : Clock) (k : ℕ) (flags : Flags) (timer : Timer Float) (s : State)
      → is_expired env.floats (clock (k + n)) timer ≡ true
      → n < fuel
      → (out : Bytes × State × ℕ) × (wait_reply env fuel clock k flags timer s ≡ some out)
        × Polled clock k flags timer s out
  unfolding wait_reply
  wait_reply_total n zero clock k flags timer s over enough = elim enough [ ]
  wait_reply_total n (suc fuel) clock k flags timer s over enough =
      let (count, replystr, s') = receive flags s in
      let same : k + 0 ≡ k = omega arith in
      elim (Bool-cases ((receive flags s).0 == 0)) [
        | inr e ↦ (
          (replystr, s', k),
          rw (e, wait_reply) refl,
          record {
            polls = 0;
            waited = λ j below. absurd (omega arith);
            after = refl;
            outcome = inl (e, refl, sym same);
          },
        )
        | inl e ↦ elim (Bool-cases (is_expired env.floats (clock k) timer)) [
          | inl now ↦ (
            (replystr, s', k + 1),
            rw (e, wait_reply, now) refl,
            record {
              polls = 0;
              waited = λ j below. absurd (omega arith);
              after = refl;
              outcome = inr (rw same now, omega arith);
            },
          )
          | inr later ↦
              let (out, q, done) =
                wait_reply_total (n - 1) fuel clock (k + 1) flags timer s'
                  (not_yet clock k n timer over later)
                  (omega (arith, positive clock k n timer over later)) in
              (out, rw (e, wait_reply, later) q, Polled-suc clock k flags timer s out e later done)
        ]
      ]

  -- The loop ended, and the clock does not go back: what is done after it.
  finish_request-Replied :
      (clock : Clock) (flags : Flags) (timer : Timer Float) (s : State) (c : Controller env)
      (out : Bytes × State × ℕ)
      → ((j : ℕ) → clock j ≤ clock (j + 1))
      → Polled clock 1 flags timer s out
      → Replied clock flags timer s c (
          finish_request env clock
            (out.0)
            (out.2)
            (record c { request_timer = timer; command_transport = some (out.1) }))
  unfolding finish_request
  finish_request-Replied clock flags timer s c (replystr, t, k) forward done = elim done.outcome [
    | inl (message, same, at) ↦
        rw at (elim (Bool-cases (is_expired env.floats (clock (1 + done.polls)) timer)) [
          | inl over ↦ rw over (record {
            polls = done.polls;
            waited = done.waited;
            after = ap some done.after;
            outcome = inr (over, (_, omega arith, (refl, refl, refl, refl)));
          })
          | inr early ↦ rw early (record {
            polls = done.polls;
            waited = done.waited;
            after = ap some done.after;
            outcome = inl (message, early, same, refl, refl, refl);
          })
        ])
    | inr (over, at) ↦
        let still =
          is_expired_mono env.floats timer (clock (1 + done.polls)) (clock (1 + done.polls + 1))
            (forward (1 + done.polls)) over in
        rw at (
          rw still (record {
            polls = done.polls;
            waited = done.waited;
            after = ap some done.after;
            outcome = inr (over, (_, omega arith, (refl, refl, refl, refl)));
          }))
  ]

  finish_request_same :
      (clock : Clock) (replystr : Bytes) (k : ℕ) (c : Controller env)
      → ((finish_request env clock replystr k c).1.buffers ≡ c.buffers)
        × ((finish_request env clock replystr k c).1.simplesensorbuffer ≡ c.simplesensorbuffer)
  unfolding finish_request
  finish_request_same clock replystr k c =
      elim (Bool-cases (is_expired env.floats (clock k) c.request_timer)) [
        | inl e ↦ rw e (refl, refl)
        | inr e ↦ rw e (refl, refl)
      ]

  -- `sendRequest` with a connection returns, at the latest when the clock, which does not go back, has
  -- passed the maximal latency: fuel for the polls until then is enough, whatever the connection does.
  -- It polls until a message comes or the time is over. If the message came in time, it is returned,
  -- the controller is connected, the timer since the last reply is started anew, and no callback is
  -- called. If the time was over when the message came or before, the controller is not connected,
  -- the empty string is returned, and the callback for a lost connection is called once, with the time
  -- since the last reply. If the message could not be sent the same happens at once, with the maximal
  -- latency. The buffers are not touched.
  pub send_request-Answered :
      (n fuel : ℕ) (clock : Clock) (message : Bytes) (flags : Flags) (t : State)
      (c : Controller env)
      → c.command_transport ≡ some t
      → ((j : ℕ) → clock j ≤ clock (j + 1))
      → is_expired env.floats
          (clock (1 + n))
          (start env.floats c.max_latency (clock 0) c.request_timer)
        ≡ true
      → n < fuel
      → (out : Bytes × Controller env) × (send_request env fuel clock message flags c
          ≡ some (ok out))
        × Answered clock message flags t c out
  unfolding send_request
  send_request-Answered n fuel clock message flags t c connected forward over enough =
      elim (Option-cases (send message flags t).0) [
        | inl e ↦ (
          lost env c.max_latency (record c { command_transport = some (send message flags t).1 }),
          rw (connected, send_request, e) refl,
          record {
            known = inl (e, (refl, refl, refl, refl));
            same_buffers = refl;
            same_sensors = refl;
          },
        )
        | inr (bytes, e) ↦
            let timer = start env.floats c.max_latency (clock 0) c.request_timer in
            let s = (send message flags t).1 in
            let (out, q, done) = wait_reply_total n fuel clock 1 flags timer s over enough in
            let c' = record c { request_timer = timer; command_transport = some (out.1) } in
            let same = finish_request_same clock (out.0) (out.2) c' in
            (
              finish_request env clock (out.0) (out.2) c',
              rw (connected, send_request, e, q) refl,
              record {
                known =
                    inr (bytes, e, finish_request-Replied clock flags timer s c out forward done);
                same_buffers = same.0;
                same_sensors = same.1;
              },
            )
      ]
