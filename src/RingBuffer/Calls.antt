-- ===== src/RingBuffer/Calls.antt =====
-- A ring under any sequence of a client's calls.
use robot_remote_control.Base.{
  ℕ, ◌≡◌, refl, ◌<◌, List, [], ◌∷◌, Result, ok, ◌>>=◌, Returns, Returns-bind, ap, size_mod, arith,
  ◌∙◌, length-replicate,
}
use robot_remote_control.RingBuffer.{RingBuffer, push_data, pop_data, peek_data, new_ring}
use robot_remote_control.RingBuffer.Queue
use robot_remote_control.RingBuffer.Queue.{
  Call, push_call, pop_call, peek_call, Reply, answered, given,
}
use robot_remote_control.RingBuffer.Valid.{IsValid, contents}
use robot_remote_control.RingBuffer.Push.{Pushed, push_data-refines}
use robot_remote_control.RingBuffer.Pop.{Popped, pop_data-refines, peek_data-first}

module _ {A : Type 0} where
  unfoldable pub step : RingBuffer A → Call A → Result (Reply A × RingBuffer A)
  step r (push_call x overwrite) = do
    (stored, r', _) ← push_data r x overwrite
    ok (answered stored, r')
  step r pop_call = do (x, r') ← pop_data r; ok (given x, r')
  step r peek_call = do x ← peek_data r; ok (given x, r)

  unfoldable pub run : RingBuffer A → List (Call A) → Result (List (Reply A) × RingBuffer A)
  unfolding step
  run r [] = ok ([], r)
  run r (c ∷ cs) = do (reply, r') ← step r c; (replies, r'') ← run r' cs; ok (reply ∷ replies, r'')

  pub record Stepped (r : RingBuffer A) (c : Call A) (out : Reply A × RingBuffer A) : Type 0 where
    pub valid : IsValid out.1
    pub queued : (out.0, contents out.1) ≡ Queue.step r.buffersize (contents r) c
    pub same_size : out.1.buffersize ≡ r.buffersize

  step-refines : (r : RingBuffer A) (c : Call A) → IsValid r → Returns (step r c) (Stepped r c)
  unfolding step Queue.step
  step-refines r (push_call x overwrite) v =
      Returns-bind (Pushed r x overwrite) _ _ _ (push_data-refines r x overwrite v) λ out done.
        record {
          valid = done.valid;
          queued = ap (λ a. (answered a.0, a.1)) done.queued;
          same_size = done.same_size;
        }
  step-refines r pop_call v = Returns-bind (Popped r) _ _ _ (pop_data-refines r v) λ out done.
      record {
        valid = done.valid;
        queued = ap (λ a. (given a.0, a.1)) done.queued;
        same_size = done.same_size;
      }
  step-refines r peek_call v =
      rw (peek_data-first r v) (record { valid = v; queued = refl; same_size = refl })

  -- A queue's answers from the second call on, after the first answer.
  run_after : ℕ → Reply A × List A → List (Call A) → List (Reply A) × List A
  run_after cap s cs = let (replies, q) = Queue.run cap s.1 cs in (s.0 ∷ replies, q)

  pub record Ran (r : RingBuffer A) (cs : List (Call A)) (out : List (Reply A) × RingBuffer A)
      : Type 0 where
    pub valid : IsValid out.1
    pub queued : (out.0, contents out.1) ≡ Queue.run r.buffersize (contents r) cs

  -- No sequence of calls of a valid ring has undefined behaviour, and none tells the ring from the
  -- bounded queue of its contents.
  pub run-refines :
      (r : RingBuffer A) (cs : List (Call A)) → IsValid r → Returns (run r cs) (Ran r cs)
  unfolding run Queue.run run_after
  run-refines r [] v = record { valid = v; queued = refl }
  run-refines r (c ∷ cs) v = Returns-bind (Stepped r c) _ _ _ (step-refines r c v) λ out done.
      Returns-bind (Ran out.1 cs) _ _ _ (run-refines out.1 cs done.valid) λ rest ran. record {
        valid = ran.valid;
        queued =
            ap (λ a. (out.0 ∷ a.0, a.1)) ran.queued
            ∙ ap (λ cap. run_after cap (out.0, contents out.1) cs) done.same_size
            ∙ ap (λ s. run_after r.buffersize s cs) done.queued;
      }

  -- A new ring is valid and empty.
  pub new_ring-IsValid :
      (default : A) (n : ℕ)
      → 0 < n
      → n < size_mod
      → IsValid (new_ring default n) × (contents (new_ring default n) ≡ [])
  unfolding new_ring
  new_ring-IsValid default n some_room small = (
    record {
      storage = length-replicate n default;
      small = small;
      fits = omega arith;
      out_inside = some_room;
      linked = omega arith;
    },
    refl,
  )
