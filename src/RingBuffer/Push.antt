-- ===== src/RingBuffer/Push.antt =====
-- `RingBuffer::pushData` against the bounded queue.
use native.Mathlib.Nat.{mod-add-mod}
use native.Mathlib.Numerals.{add-one}
use robot_remote_control.Base.{
  ℕ, zero, suc, ◌+◌, ◌%◌, ◌<◌, ◌≤◌, ◌≡◌, refl, ◌∙◌, sym, ap, Bool, true, false, ◌==◌, if◌then◌else◌,
  List, [], ◌∷◌, ◌++◌, arith, length, set, size_mod, drop, Returns, ok, Bool-cases, inl, inr,
  write_at_ok, modulo_ok, add_size, get_elem?-some, length-set, ==_iff, ==_ne,
}
use robot_remote_control.RingBuffer.{RingBuffer, Calls, push_data, push_free, push_over, notify}
use robot_remote_control.RingBuffer.Queue
use robot_remote_control.RingBuffer.Valid.{
  IsValid, contents, window, window-set, mod-shift, length-contents,
}

pub add_size_small : {n m : ℕ} → n < m → m < size_mod → add_size n 1 ≡ n + 1
add_size_small below small = omega arith

pub once_round : (h cap : ℕ) → h < cap → (h + cap) % cap ≡ h
once_round h cap inside = grind arith

module _ {A : Type 0} where
  -- What `pushData` has done when it returns: the ring is valid, it holds what the queue holds, the
  -- answer is the queue's, and the callbacks were called once each just if the element was stored.
  pub record Pushed (r : RingBuffer A) (x : A) (overwrite : Bool)
      (out : Bool × RingBuffer A × Calls A) : Type 0 where
    pub valid : IsValid out.1
    pub queued : (out.0, contents out.1) ≡ Queue.push r.buffersize (contents r) x overwrite
    pub same_size : out.1.buffersize ≡ r.buffersize
    pub same_callbacks : out.1.callbacks ≡ r.callbacks
    pub called : out.2 ≡ (if out.0 then notify r x else [])

  abbrev after_free : RingBuffer A → A → RingBuffer A
  after_free r x = record r {
    buffer = set r.buffer r.in_index x;
    contentsize = r.contentsize + 1;
    in_index = (r.in_index + 1) % r.buffersize;
  }

  abbrev after_over : RingBuffer A → A → RingBuffer A
  after_over r x = record r {
    buffer = set r.buffer r.in_index x;
    out_index = (r.out_index + 1) % r.buffersize;
    in_index = (r.in_index + 1) % r.buffersize;
  }

  in_inside : (r : RingBuffer A) → IsValid r → r.in_index < r.buffersize
  in_inside r v = omega arith

  push_free_lem :
      (r : RingBuffer A) (x : A)
      → IsValid r
      → r.contentsize < r.buffersize
      → push_free r x ≡ ok (true, after_free r x, notify r x)
  unfolding push_free
  push_free_lem r x v room = rw (
    write_at_ok r.buffer r.in_index x (omega arith),
    modulo_ok (add_size r.in_index 1) r.buffersize (omega arith),
    add_size_small (in_inside r v) v.small,
    add_size_small room v.small,
  )

  push_over_lem :
      (r : RingBuffer A) (x : A) → IsValid r → push_over r x ≡ ok (true, after_over r x, notify r x)
  unfolding push_over
  push_over_lem r x v = rw (
    write_at_ok r.buffer r.in_index x (omega arith),
    modulo_ok (add_size r.out_index 1) r.buffersize (omega arith),
    modulo_ok (add_size r.in_index 1) r.buffersize (omega arith),
    add_size_small (in_inside r v) v.small,
    add_size_small v.out_inside v.small,
  )

  after_free-IsValid :
      (r : RingBuffer A) (x : A)
      → IsValid r
      → r.contentsize < r.buffersize
      → IsValid (after_free r x)
  after_free-IsValid r x v room = record {
    storage = length-set r.buffer r.in_index x ∙ v.storage;
    small = v.small;
    fits = omega arith;
    out_inside = v.out_inside;
    linked = rw (v.linked, mod-add-mod) (ap (λ k. k % r.buffersize) (omega arith));
  }

  after_over-IsValid :
      (r : RingBuffer A) (x : A)
      → IsValid r
      → r.contentsize ≡ r.buffersize
      → IsValid (after_over r x)
  after_over-IsValid r x v full = record {
    storage = length-set r.buffer r.in_index x ∙ v.storage;
    small = v.small;
    fits = v.fits;
    out_inside = omega arith;
    linked = rw (v.linked, mod-add-mod, mod-add-mod) (ap (λ k. k % r.buffersize) (omega arith));
  }

  after_free-contents :
      (r : RingBuffer A) (x : A)
      → IsValid r
      → r.contentsize < r.buffersize
      → contents (after_free r x) ≡ contents r ++ x ∷ []
  after_free-contents r x v room = rw (add-one r.contentsize) (
      window-set r.buffer r.buffersize x r.contentsize r.out_index r.in_index (omega arith)
        v.out_inside room v.linked)

  -- Writing at the start of a window that fills the ring, and going on by one.
  over_window :
      (buf : List A) (cap : ℕ) (x : A) (h i n : ℕ)
      → n ≡ cap
      → cap ≤ length buf
      → h < cap
      → i ≡ h
      → window (set buf i x) cap ((h + 1) % cap) n ≡ drop 1 (window buf cap h n) ++ x ∷ []
  over_window buf cap x h i zero full stored inside e = absurd (omega arith)
  over_window buf cap x h i (suc n) full stored inside e =
      let (y, found) = get_elem?-some buf h (omega arith) in
      rw found (
        window-set buf cap x n ((h + 1) % cap) i stored (omega arith) (omega arith) (
          e
          ∙ sym (sym (mod-shift h n cap) ∙ ap (λ k. (h + k) % cap) full ∙ once_round h cap inside)))

  after_over-contents :
      (r : RingBuffer A) (x : A)
      → IsValid r
      → r.contentsize ≡ r.buffersize
      → contents (after_over r x) ≡ drop 1 (contents r) ++ x ∷ []
  after_over-contents r x v full =
      over_window r.buffer r.buffersize x r.out_index r.in_index r.contentsize full (omega arith)
        v.out_inside (grind arith)

  push_full-Pushed :
      (r : RingBuffer A) (x : A) (overwrite : Bool)
      → IsValid r
      → r.contentsize ≡ r.buffersize
      → Returns (if overwrite then push_over r x else ok (false, r, [])) (Pushed r x overwrite)
  unfolding Queue.push
  push_full-Pushed r x true v full = rw (push_over_lem r x v) (record {
    valid = after_over-IsValid r x v full;
    queued = rw (length-contents r v, (==_iff _ _).1 full, after_over-contents r x v full);
    same_size = refl;
    same_callbacks = refl;
    called = refl;
  })
  push_full-Pushed r x false v full = record {
    valid = v;
    queued = rw (length-contents r v, (==_iff _ _).1 full);
    same_size = refl;
    same_callbacks = refl;
    called = refl;
  }

  push_free-Pushed :
      (r : RingBuffer A) (x : A) (overwrite : Bool)
      → IsValid r
      → r.contentsize < r.buffersize
      → Returns (push_free r x) (Pushed r x overwrite)
  unfolding Queue.push
  push_free-Pushed r x overwrite v room = rw (push_free_lem r x v room) (record {
    valid = after_free-IsValid r x v room;
    queued = rw (
      length-contents r v,
      ==_ne r.contentsize r.buffersize (omega arith),
      after_free-contents r x v room,
    );
    same_size = refl;
    same_callbacks = refl;
    called = refl;
  })

  -- `pushData` on a valid ring reads and writes inside the storage and keeps the invariant. It answers
  -- and leaves the contents as the bounded queue does, and calls every callback just if it stores.
  pub push_data-refines :
      (r : RingBuffer A) (x : A) (overwrite : Bool)
      → IsValid r
      → Returns (push_data r x overwrite) (Pushed r x overwrite)
  unfolding push_data Queue.push
  push_data-refines r x overwrite v = elim (Bool-cases (r.contentsize == r.buffersize)) [
    | inr room ↦ rw room (push_free-Pushed r x overwrite v (ground arith))
    | inl full ↦ rw full (push_full-Pushed r x overwrite v ((==_iff _ _).0 full))
  ]
