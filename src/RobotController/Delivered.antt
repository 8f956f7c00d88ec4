-- ===== src/RobotController/Delivered.antt =====
-- What the controller takes in from the telemetry channel is what its application reads.
use robot_remote_control.Base.{
  ℕ, ◌≡◌, ◌<◌, refl, ◌∙◌, ap, Bool, false, none, some, Option-cases, inl, inr, List, ◌++◌, ok,
  ◌>>=◌, read_at, get_elem?, get_elem?-set_self, get_elem?-lt, Returns, Returns-bind,
}
use robot_remote_control.Bytes.{Bytes, encode_uint16, read_uint16-encode_uint16}
use robot_remote_control.Types.{Kind}
use robot_remote_control.RingBuffer.{pop_data as pop}
use robot_remote_control.RingBuffer.Queue
use robot_remote_control.RingBuffer.Valid.{contents}
use robot_remote_control.RingBuffer.Push.{Pushed, push_data-refines}
use robot_remote_control.RingBuffer.Pop.{Popped, pop_data-refines}
use robot_remote_control.RingBuffer.Access.{AnyBuffer, BufferPtr, push_data, pop_data, with_ring}
use robot_remote_control.RingBuffer.Slots.{Slots, push_at, pop_at}
use robot_remote_control.RingBuffer.Latest.{IsSized, casts, push_data_same}
use robot_remote_control.Env.{Env}
use robot_remote_control.RobotController.{Controller}
use robot_remote_control.RobotController.Receiving.{evaluate_telemetry, add_to_telemetry_buffer}
use robot_remote_control.RobotController.Reading.{get_telemetry}

module _ {A : Type 0} where
  -- A buffer of the class `k` and the capacity `cap` that holds `q`, oldest first.
  abbrev pub Queued : Kind → ℕ → List A → BufferPtr A → Type 0
  Queued k cap q none = ⊥
  Queued k cap q (some b) = IsSized k cap b × (contents b.ring ≡ q)

  pop_data_same :
      (k : Kind) (b : AnyBuffer A)
      → b.kind ≡ k
      → pop_data k (some b) ≡ (pop b.ring >>= (λ out. ok (out.0, with_ring (some b) out.1)))
  unfolding pop_data
  pop_data_same k b e = rw (casts k b e, pop_data)

  push_data-Queued :
      (k : Kind) (cap : ℕ) (q : List A) (p : BufferPtr A) (x : A) (overwrite : Bool)
      → Queued k cap q p
      → Returns
          (push_data k p x overwrite)
          (λ out. Queued k cap (Queue.push cap q x overwrite).1 out.1)
  push_data-Queued k cap q none x overwrite h = absurd h
  push_data-Queued k cap q (some b) x overwrite h = rw (push_data_same k b x overwrite h.0.typed) (
      Returns-bind (Pushed b.ring x overwrite) _ _ _
        (push_data-refines b.ring x overwrite h.0.valid)
        λ out done. (
          record { typed = h.0.typed; valid = done.valid; sized = done.same_size ∙ h.0.sized },
          ap (λ a. a.1) done.queued
              ∙ ap (λ n. (Queue.push n (contents b.ring) x overwrite).1) h.0.sized
              ∙ ap (λ ys. (Queue.push cap ys x overwrite).1) h.1,
        ))

  pop_data-Queued :
      (k : Kind) (cap : ℕ) (q : List A) (p : BufferPtr A)
      → Queued k cap q p
      → Returns
          (pop_data k p)
          (λ out. (out.0 ≡ (Queue.pop q).0) × Queued k cap (Queue.pop q).1 out.1)
  pop_data-Queued k cap q none h = absurd h
  pop_data-Queued k cap q (some b) h = rw (pop_data_same k b h.0.typed) (
      Returns-bind (Popped b.ring) _ _ _ (pop_data-refines b.ring h.0.valid) λ out done. (
        ap (λ a. a.0) done.queued ∙ ap (λ ys. (Queue.pop ys).0) h.1,
        (
          record { typed = h.0.typed; valid = done.valid; sized = done.same_size ∙ h.0.sized },
          ap (λ a. a.1) done.queued ∙ ap (λ ys. (Queue.pop ys).1) h.1,
        ),
      ))

  push_at-Queued :
      (k : Kind) (cap : ℕ) (q : List A) (slots : Slots A) (id : ℕ) (x : A) (overwrite : Bool)
      → Returns (read_at slots id) (Queued k cap q)
      → Returns
          (push_at k slots id x overwrite)
          (λ out. Returns (read_at out.1 id) (Queued k cap (Queue.push cap q x overwrite).1))
  unfolding push_at
  push_at-Queued k cap q slots id x overwrite ready = elim (Option-cases (get_elem? slots id)) [
    | inl e ↦ absurd (rw e at ready)
    | inr (p, e) ↦ rw e (
        Returns-bind (λ out. Queued k cap (Queue.push cap q x overwrite).1 out.1) _
          (push_data k p x overwrite) _ (push_data-Queued k cap q p x overwrite (rw e at ready))
          λ out done. rw (get_elem?-set_self slots id out.1 (get_elem?-lt slots id e)) done)
  ]

  pub pop_at-Queued :
      (k : Kind) (cap : ℕ) (q : List A) (slots : Slots A) (id : ℕ)
      → Returns (read_at slots id) (Queued k cap q)
      → Returns (pop_at k slots id) (λ out.
        (out.0 ≡ (Queue.pop q).0) × Returns (read_at out.1 id) (Queued k cap (Queue.pop q).1))
  unfolding pop_at
  pop_at-Queued k cap q slots id ready = elim (Option-cases (get_elem? slots id)) [
    | inl e ↦ absurd (rw e at ready)
    | inr (p, e) ↦ rw e (
        Returns-bind (λ out. (out.0 ≡ (Queue.pop q).0) × Queued k cap (Queue.pop q).1 out.1) _
          (pop_data k p) _ (pop_data-Queued k cap q p (rw e at ready))
          λ out done.
            (done.0, rw (get_elem?-set_self slots id out.1 (get_elem?-lt slots id e)) done.1))
  ]

module _ (env : Env) where
  open env.protobuf use {Message, kind_of, serialize, parse, parse-serialize, sensor_id}

  -- The buffer of the type holds these messages, oldest first.
  abbrev pub Pending : ℕ → Kind → ℕ → List Message → Controller env → Type 0
  Pending type k cap q c = Returns (read_at c.buffers.slots type) (Queued k cap q)

  evaluate_registered :
      (type : ℕ) (k : Kind) (body : Bytes) (c : Controller env)
      → type < 65536
      → get_elem? c.telemetry_adders type ≡ some (some k)
      → evaluate_telemetry env (encode_uint16 type ++ body) c
        ≡ (add_to_telemetry_buffer env k type body c >>= λ c'. ok (type, c'))
  unfolding evaluate_telemetry
  evaluate_registered type k body c small adder =
      let (typed, rest) = read_uint16-encode_uint16 type body small in rw (rest, typed, adder)

  -- A telemetry message of a registered type goes to the end of the buffer of its type, unless that is
  -- full: then it is dropped, and the messages that wait are kept.
  pub evaluate_telemetry-Pending :
      (type cap : ℕ) (m : Message) (q : List Message) (c : Controller env)
      → type < 65536
      → get_elem? c.telemetry_adders type ≡ some (some (kind_of m))
      → Pending type (kind_of m) cap q c
      → Returns (evaluate_telemetry env (encode_uint16 type ++ serialize m) c) (λ out.
        (out.0 ≡ type)
        × (out.1.telemetry_adders ≡ c.telemetry_adders)
        × Pending type (kind_of m) cap (Queue.push cap q m false).1 out.1)
  unfolding add_to_telemetry_buffer
  evaluate_telemetry-Pending type cap m q c small adder waiting =
      rw
        (
          evaluate_registered type (kind_of m) (serialize m) c small adder,
          add_to_telemetry_buffer,
          parse-serialize m,
        )
        (Returns-bind
          (λ c'.
            (c'.telemetry_adders ≡ c.telemetry_adders)
            × Pending type (kind_of m) cap (Queue.push cap q m false).1 c')
          _ (push_at (kind_of m) c.buffers.slots type m false >>= _) _
          (Returns-bind
            (λ out.
              Returns (read_at out.1 type) (Queued (kind_of m) cap (Queue.push cap q m false).1))
            _ (push_at (kind_of m) c.buffers.slots type m false) _
            (push_at-Queued (kind_of m) cap q c.buffers.slots type m false waiting)
            (λ out done. (refl, done)))
          (λ c' done. (refl, done.0, done.1)))

  -- The getter of a registered type gives the oldest message that waits and removes it, or says that
  -- there is none.
  pub get_telemetry-Pending :
      (type cap : ℕ) (k : Kind) (q : List Message) (c : Controller env)
      → Pending type k cap q c
      → Returns
          (get_telemetry env k type c)
          (λ out. (out.0 ≡ (Queue.pop q).0) × Pending type k cap (Queue.pop q).1 out.1)
  unfolding get_telemetry
  get_telemetry-Pending type cap k q c waiting =
      Returns-bind
        (λ out.
          (out.0 ≡ (Queue.pop q).0) × Returns (read_at out.1 type) (Queued k cap (Queue.pop q).1))
        _ (pop_at k c.buffers.slots type) _ (pop_at-Queued k cap q c.buffers.slots type waiting)
        (λ out done. done)
