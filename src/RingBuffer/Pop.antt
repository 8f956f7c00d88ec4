-- ===== src/RingBuffer/Pop.antt =====
-- `RingBuffer::popData` and `peekData` against the bounded queue.
use native.Mathlib.Nat.{mod-add-mod}
use robot_remote_control.Base.{
  ◌+◌, ◌-◌, ◌%◌, ◌<◌, ◌≡◌, refl, ◌∙◌, ap, Option, some, [], ◌∷◌, arith, get_elem?, ltb, Returns, ok,
  Bool-cases, inl, inr, modulo_ok, read_at_ok, add_size, ltb→lt,
}
use robot_remote_control.RingBuffer.{RingBuffer, pop_data, peek_data}
use robot_remote_control.RingBuffer.Queue
use robot_remote_control.RingBuffer.Valid.{IsValid, contents, window_front}
use robot_remote_control.RingBuffer.Push.{add_size_small}

module _ {A : Type 0} where
  -- What `popData` has done when it returns.
  pub record Popped (r : RingBuffer A) (out : Option A × RingBuffer A) : Type 0 where
    pub valid : IsValid out.1
    pub queued : (out.0, contents out.1) ≡ Queue.pop (contents r)
    pub same_size : out.1.buffersize ≡ r.buffersize
    pub same_callbacks : out.1.callbacks ≡ r.callbacks

  abbrev after_take : RingBuffer A → RingBuffer A
  after_take r = record r {
    contentsize = r.contentsize - 1;
    out_index = (r.out_index + 1) % r.buffersize;
  }

  after_take-IsValid : (r : RingBuffer A) → IsValid r → 0 < r.contentsize → IsValid (after_take r)
  after_take-IsValid r v some_left = record {
    storage = v.storage;
    small = v.small;
    fits = omega arith;
    out_inside = omega arith;
    linked = rw (mod-add-mod, v.linked) (ap (λ k. k % r.buffersize) (omega arith));
  }

  contents_front :
      (r : RingBuffer A) (x : A)
      → 0 < r.contentsize
      → get_elem? r.buffer r.out_index ≡ some x
      → contents r ≡ x ∷ contents (after_take r)
  contents_front r x some_left found =
      window_front r.buffer r.buffersize r.out_index r.contentsize some_left ∙ rw found

  contents_none : (r : RingBuffer A) → r.contentsize ≡ 0 → contents r ≡ []
  contents_none r e = rw e

  -- `popData` on a valid ring reads inside the storage and keeps the invariant. It takes the oldest
  -- element, and answers false just if the ring is empty, as the queue of its contents does.
  pub pop_data-refines : (r : RingBuffer A) → IsValid r → Returns (pop_data r) (Popped r)
  unfolding pop_data Queue.pop
  pop_data-refines r v = elim (Bool-cases (ltb 0 r.contentsize)) [
    | inr empty ↦ rw empty (record {
      valid = v;
      queued = rw (contents_none r (ground arith));
      same_size = refl;
      same_callbacks = refl;
    })
    | inl more ↦
        let (x, found, read) = read_at_ok r.buffer r.out_index (omega arith) in
        rw
          (
            more,
            read,
            modulo_ok (add_size r.out_index 1) r.buffersize (omega arith),
            add_size_small v.out_inside v.small,
          )
          (record {
            valid = after_take-IsValid r v (ltb→lt _ _ more);
            queued = rw (contents_front r x (ltb→lt _ _ more) found);
            same_size = refl;
            same_callbacks = refl;
          })
  ]

  -- `peekData` on a valid ring returns the oldest element of the contents, or false if there is none.
  pub peek_data-first : (r : RingBuffer A) → IsValid r → peek_data r ≡ ok (Queue.first (contents r))
  unfolding peek_data Queue.first
  peek_data-first r v = elim (Bool-cases (ltb 0 r.contentsize)) [
    | inr empty ↦ rw (empty, contents_none r (ground arith))
    | inl more ↦
        let (x, found, read) = read_at_ok r.buffer r.out_index (omega arith) in
        rw (more, read, contents_front r x (ltb→lt _ _ more) found)
  ]
