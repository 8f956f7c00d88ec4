-- ===== src/RingBuffer/Access.antt =====
-- src/RingBuffer.hpp: `RingBufferAccess`, the functions on a `std::shared_ptr<RingBufferBase>`.
use robot_remote_control.Base.{
  ℕ, Bool, true, false, if◌then◌else◌, Option, none, some, [], Result, ok, ◌>>=◌,
}
use robot_remote_control.Types.{Kind, same_kind}
use robot_remote_control.RingBuffer.{
  RingBuffer, Calls, push_data as push, pop_data as pop, peek_data as peek,
  add_data_received_callback as add_callback,
}

-- A buffer of some type: the type that it was made at, and the `RingBuffer` of that type.
pub record AnyBuffer {ℓ} (A : Type ℓ) : Type ℓ where
  pub kind : Kind
  pub ring : RingBuffer A

-- The shared pointer, which may be null.
abbrev pub BufferPtr {ℓ} : Type ℓ → Type ℓ
BufferPtr A = Option (AnyBuffer A)

module _ {ℓ} {A : Type ℓ} where
  -- `std::dynamic_pointer_cast<RingBuffer<DATATYPE>>(buffer)`
  unfoldable pub cast : Kind → BufferPtr A → Option (RingBuffer A)
  cast k none = none
  cast k (some b) = if same_kind b.kind k then some b.ring else none

  -- The buffer that the pointer leads to after a call on the cast one.
  abbrev pub with_ring : BufferPtr A → RingBuffer A → BufferPtr A
  with_ring none r = none
  with_ring (some b) r = some (record b { ring = r })

  unfoldable pub push_data : Kind → BufferPtr A → A → Bool → Result (Bool × BufferPtr A × Calls A)
  unfolding cast
  push_data k buffer x overwrite = elim (cast k buffer) [
    | none ↦ ok (false, buffer, [])
    | some r ↦ push r x overwrite >>= (λ out. ok (out.0, with_ring buffer out.1, out.2))
  ]

  -- `none` is the return value false.
  unfoldable pub pop_data : Kind → BufferPtr A → Result (Option A × BufferPtr A)
  unfolding cast
  pop_data k buffer = elim (cast k buffer) [
    | none ↦ ok (none, buffer)
    | some r ↦ pop r >>= (λ out. ok (out.0, with_ring buffer out.1))
  ]

  unfoldable pub peek_data : Kind → BufferPtr A → Result (Option A)
  unfolding cast
  peek_data k buffer = elim (cast k buffer) [ none ↦ ok none | some r ↦ peek r ]

  unfoldable pub add_data_received_callback : Kind → BufferPtr A → ℕ → Bool × BufferPtr A
  unfolding cast
  add_data_received_callback k buffer cb = elim (cast k buffer) [
    | none ↦ (false, buffer)
    | some r ↦ (true, with_ring buffer (add_callback r cb))
  ]
