-- ===== src/RingBuffer.antt =====
-- src/RingBuffer.hpp: the class template `RingBuffer`.
pub mod Queue
pub mod Valid
pub mod Push
pub mod Pop
pub mod Calls
pub mod Resize
pub mod Access
pub mod Latest
pub mod Slots
pub mod Placed
pub mod Kept
use robot_remote_control.Base.{
  ℕ, ◌-◌, ◌<◌, ltb, ◌==◌, if◌then◌else◌, Bool, true, false, Option, none, some, List, [], ◌∷◌, ◌++◌,
  map, Result, ok, ◌>>=◌, read_at, write_at, modulo, add_size, replicate, resize as vector_resize,
}

-- A callback is known by a number; what it does with the data is the client's.
abbrev pub Calls {ℓ} : Type ℓ → Type ℓ
Calls A = List (ℕ × A)

-- `in` and `out` are the source's members of these names.
pub record RingBuffer {ℓ} (A : Type ℓ) : Type ℓ where
  pub buffersize : ℕ
  pub contentsize : ℕ
  pub in_index : ℕ
  pub out_index : ℕ
  pub buffer : List A
  pub callbacks : List ℕ

module _ {ℓ} {A : Type ℓ} where
  -- The constructor; `default` is the value that `std::vector::resize` fills with.
  unfoldable pub new_ring : A → ℕ → RingBuffer A
  new_ring default buffersize = record {
    buffersize = buffersize;
    contentsize = 0;
    in_index = 0;
    out_index = 0;
    buffer = replicate buffersize default;
    callbacks = [];
  }

  unfoldable pub size : RingBuffer A → ℕ
  size r = r.contentsize

  unfoldable pub capacity : RingBuffer A → ℕ
  capacity r = r.buffersize

  unfoldable pub resize : A → ℕ → RingBuffer A → RingBuffer A
  resize default newsize r = record r {
    buffersize = newsize;
    buffer = vector_resize newsize default r.buffer;
    in_index = if ltb newsize r.in_index then newsize else r.in_index;
    out_index = if ltb newsize r.out_index then 0 else r.out_index;
  }

  -- Every callback is called once with the data, in the order of registration.
  unfoldable pub notify : RingBuffer A → A → Calls A
  notify r x = map (λ cb. (cb, x)) r.callbacks

  -- The two writing branches of `pushData`: into free space, and over the oldest element.
  push_free : RingBuffer A → A → Result (Bool × RingBuffer A × Calls A)
  push_free r x = do
    written ← write_at r.buffer r.in_index x
    next ← modulo (add_size r.in_index 1) r.buffersize
    ok (
      true,
      record r { buffer = written; contentsize = add_size r.contentsize 1; in_index = next },
      notify r x,
    )

  push_over : RingBuffer A → A → Result (Bool × RingBuffer A × Calls A)
  push_over r x = do
    written ← write_at r.buffer r.in_index x
    next_out ← modulo (add_size r.out_index 1) r.buffersize
    next ← modulo (add_size r.in_index 1) r.buffersize
    ok (true, record r { buffer = written; out_index = next_out; in_index = next }, notify r x)

  unfoldable pub push_data : RingBuffer A → A → Bool → Result (Bool × RingBuffer A × Calls A)
  unfolding push_free push_over notify
  push_data r x overwrite_if_full =
      if r.contentsize == r.buffersize
      then (if overwrite_if_full then push_over r x else ok (false, r, []))
      else push_free r x

  -- `none` is the return value false; then `*data` is not written.
  take_first : RingBuffer A → Result (Option A × RingBuffer A)
  take_first r = do
    x ← read_at r.buffer r.out_index
    next ← modulo (add_size r.out_index 1) r.buffersize
    ok (some x, record r { contentsize = r.contentsize - 1; out_index = next })

  unfoldable pub pop_data : RingBuffer A → Result (Option A × RingBuffer A)
  unfolding take_first
  pop_data r = if ltb 0 r.contentsize then take_first r else ok (none, r)

  unfoldable pub peek_data : RingBuffer A → Result (Option A)
  peek_data r =
      if ltb 0 r.contentsize then read_at r.buffer r.out_index >>= (λ x. ok (some x)) else ok none

  unfoldable pub add_data_received_callback : RingBuffer A → ℕ → RingBuffer A
  add_data_received_callback r cb = record r { callbacks = r.callbacks ++ cb ∷ [] }
