-- ===== src/ControlledRobot/Granting.antt =====
-- Requests for a permission and the answers to them.
use robot_remote_control.Base.{
  WhenReturns-map, ℕ, ◌≡◌, refl, ◌∙◌, ap, Bool, true, false, Bool-cases, if◌then◌else◌, Option,
  none, some, Option-cases, inl, inr, ◌++◌, ok, fault, Fault, arith, WhenReturns, WhenReturns-bind,
}
use robot_remote_control.Base.Int.{ℤ}
use robot_remote_control.Bytes.{Bytes, encode_uint16, str_eq, str_eq_iff, str_eq_refl}
use robot_remote_control.RingBuffer.Slots.{push_at}
use robot_remote_control.Transport.{none_flag}
use robot_remote_control.Types.{Kind}
use robot_remote_control.MessageTypes.Control
use robot_remote_control.MessageTypes.Telemetry
use robot_remote_control.Env.{Env}
use robot_remote_control.ControlledRobot.{Robot}
use robot_remote_control.ControlledRobot.Promises.{
  Promise, promise_at, put_promise, set_value, get_future, promise_at-put_promise, value-set_value,
}
use robot_remote_control.ControlledRobot.Sending.{
  request_permission, send_telemetry, store_telemetry, send_out, promised,
}
use robot_remote_control.ControlledRobot.Requests.{
  evaluate_request, dispatch, permission_given, default_request,
}
use robot_remote_control.ControlledRobot.Stored.{evaluate_request-encode_uint16}

settled :
    (v same : Bool) (p q : Promise)
    → (same ≡ true → p ≡ q)
    → (if same then set_value v p else q).value
      ≡ (if same then elim q.value [ none ↦ some v | some w ↦ some w ] else q.value)
settled v true p q eq = rw (eq refl) (value-set_value v q)
settled v false p q eq = refl

taken_or_given :
    {A : Type 0} (q p : Promise) (v : Promise → A)
    → q ≡ p
    → elim (get_future q) [ none ↦ fault Fault.no_return | some t ↦ ok (v t) ]
      ≡ (if p.retrieved then fault Fault.no_return else ok (v (record p { retrieved = true })))
unfolding get_future
taken_or_given q p v same = rw same (elim (Bool-cases p.retrieved) [ inl e ↦ rw e | inr e ↦ rw e ])

module _ (env : Env) where
  open env.protobuf use {Message, kind_of, serialize, parse, requestuid, granted, parse-serialize}
  open env.transport use {State, send}

  -- The answer to a request of the key, if there is one.
  abbrev pub answer : Bytes → Robot env → Option Bool
  answer uid r = (promise_at uid r.pending_permission_requests).value

  -- The first permission message for a request settles it, whatever later ones say: a permission
  -- changes the answer of its own request only, and only if that has none.
  pub answer-permission_given :
      (uid : Bytes) (perm : Message) (r : Robot env)
      → kind_of perm ≡ Kind.permission
      → (answer uid (permission_given env (serialize perm) r) ≡ (
          if str_eq (requestuid perm) uid
          then elim (answer uid r) [ none ↦ some (granted perm) | some v ↦ some v ]
          else answer uid r))
  unfolding permission_given
  answer-permission_given uid perm r is_permission =
      let parsed : parse Kind.permission (serialize perm) ≡ (true, perm) =
        rw is_permission at (parse-serialize perm) in
      let given = promise_at (requestuid perm) r.pending_permission_requests in
      rw parsed (
        ap (λ p. p.value)
          (promise_at-put_promise (requestuid perm) uid (set_value (granted perm) given)
            r.pending_permission_requests)
        ∙ settled (granted perm) (str_eq (requestuid perm) uid) given
            (promise_at uid r.pending_permission_requests)
            (λ e.
              ap (λ k. promise_at k r.pending_permission_requests)
                ((str_eq_iff (requestuid perm) uid).0 e)))

  -- A permission message is also a command: it goes on to the buffer of its type, with the promise set.
  pub evaluate_request-permission :
      (body : Bytes) (r : Robot env)
      → evaluate_request env (encode_uint16 Control.permission ++ body) r
        ≡ default_request env Control.permission body (permission_given env body r)
  unfolding dispatch
  evaluate_request-permission body r =
      evaluate_request-encode_uint16 env Control.permission body r (omega arith)

  send_out-promises :
      (buf : Bytes) (t : State) (r : Robot env)
      → WhenReturns
          (send_out env buf t r)
          (λ out. out.1.pending_permission_requests ≡ r.pending_permission_requests)
  unfolding send_out
  send_out-promises buf t r = elim (Option-cases (send buf none_flag t).0) [
    | inl e ↦ rw (e, WhenReturns) tt
    | inr (n, e) ↦ rw (e, WhenReturns) refl
  ]

  store_telemetry-promises :
      (m : Message) (type : ℕ) (r : Robot env)
      → WhenReturns
          (store_telemetry env m type r)
          (λ s. s.pending_permission_requests ≡ r.pending_permission_requests)
  unfolding store_telemetry
  store_telemetry-promises m type r =
      WhenReturns-bind (λ s. s.pending_permission_requests ≡ r.pending_permission_requests)
        (push_at (kind_of m) r.buffers.slots type m true) _ (λ out e. refl)

  send_telemetry-promises :
      (m : Message) (type : ℕ) (only : Bool) (r : Robot env)
      → WhenReturns
          (send_telemetry env m type only r)
          (λ out. out.1.pending_permission_requests ≡ r.pending_permission_requests)
  unfolding send_telemetry
  send_telemetry-promises m type true r = elim (Option-cases r.telemetry_transport) [
    | inl e ↦ rw (e, WhenReturns) refl
    | inr (t, e) ↦
        rw (e, WhenReturns)
          (WhenReturns-bind _ (store_telemetry env m type r) _
            (λ s stored. rw stored at (store_telemetry-promises m type r)))
  ]
  send_telemetry-promises m type false r = elim (Option-cases r.telemetry_transport) [
    | inl e ↦ rw (e, WhenReturns) refl
    | inr (t, e) ↦
        rw (e, WhenReturns)
          (WhenReturns-bind _ (store_telemetry env m type r) _ (λ s stored.
            let kept = rw stored at (store_telemetry-promises m type r) in
            WhenReturns-map _ _ (send_out env (encode_uint16 type ++ serialize m) t s)
              (send_out-promises (encode_uint16 type ++ serialize m) t s)
              (λ out same. same ∙ kept)))
  ]

  -- Once `sendTelemetry` has returned, `requestPermission` returns the future of the request if
  -- none was taken for its key before; otherwise it ends without a return value.
  pub request_permission-send_telemetry :
      (request : Message) (r : Robot env) (sent : ℤ × Robot env)
      → send_telemetry env request Telemetry.permission_request false (promised env request r)
        ≡ ok sent
      → request_permission env request r ≡ (
          let uid = requestuid request in
          let p = promise_at uid r.pending_permission_requests in
          if p.retrieved
          then fault Fault.no_return
          else ok (
            uid,
            record (sent.1) {
              pending_permission_requests =
                  put_promise uid
                    (record p { retrieved = true })
                    sent.1.pending_permission_requests;
            },
          ))
  unfolding request_permission
  request_permission-send_telemetry request r sent e =
      let uid = requestuid request in
      let p = promise_at uid r.pending_permission_requests in
      let kept : sent.1.pending_permission_requests
          ≡ (promised env request r).pending_permission_requests =
        rw e at (
          send_telemetry-promises request Telemetry.permission_request false
            (promised env request r)) in
      let there : promise_at uid sent.1.pending_permission_requests ≡ p =
        ap (promise_at uid) kept
        ∙ promise_at-put_promise uid uid p r.pending_permission_requests
        ∙ rw (str_eq_refl uid) in
      rw e (
        taken_or_given (promise_at uid sent.1.pending_permission_requests) p
          (λ q. (
            uid,
            record (sent.1) {
              pending_permission_requests = put_promise uid q sent.1.pending_permission_requests;
            },
          ))
          there)
