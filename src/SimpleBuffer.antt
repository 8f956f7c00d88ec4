-- ===== src/SimpleBuffer.antt =====
-- src/SimpleBuffer.hpp: buffers of capacity 1 that are made when their number is first used. The
-- maps of the robot and the sensor values of the controller are kept in such buffers.
pub mod Store
use robot_remote_control.Base.{
  ℕ, ◌+◌, leb, if◌then◌else◌, none, some, Result, ok, ◌>>=◌, read_at, set, length, resize,
}
use robot_remote_control.Types.{Kind}
use robot_remote_control.RingBuffer.{new_ring}
use robot_remote_control.RingBuffer.Access.{BufferPtr}
use robot_remote_control.RingBuffer.Slots.{Slots}

module _ {ℓ} {A : Type ℓ} where
  -- The vector after the test of its size.
  grown : ℕ → Slots A → Slots A
  grown id slots = if leb (length slots) id then resize (id + 1) none slots else slots

  -- The vector after the test of the pointer at the number.
  filled : Kind → A → ℕ → Slots A → BufferPtr A → Slots A
  filled k default id slots none =
      set slots id (some (record { kind = k; ring = new_ring default 1 }))
  filled k default id slots (some b) = slots

  -- `BUFFERTYPE` is `k`, and `default` its default value. The parameter `id` is a `uint16_t`.
  unfoldable pub init_buffer_id : Kind → A → ℕ → Slots A → Result (Slots A)
  unfolding grown filled
  init_buffer_id k default id slots = do
    p ← read_at (grown id slots) id
    ok (filled k default id (grown id slots) p)
