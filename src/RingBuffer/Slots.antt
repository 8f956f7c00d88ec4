-- ===== src/RingBuffer/Slots.antt =====
-- The vectors of shared pointers to buffers (`std::vector<std::shared_ptr<RingBufferBase>>`) that
-- `TelemetryBuffer` and `SimpleBuffer` keep, and the access to one of their elements.
use robot_remote_control.Base.{ℕ, Bool, Option, List, Result, ok, ◌>>=◌, read_at, set}
use robot_remote_control.Types.{Kind}
use robot_remote_control.RingBuffer.{Calls}
use robot_remote_control.RingBuffer.Access.{BufferPtr, push_data, pop_data, peek_data}

abbrev pub Slots {ℓ} : Type ℓ → Type ℓ
Slots A = List (BufferPtr A)

module _ {ℓ} {A : Type ℓ} where
  -- `RingBufferAccess::pushData(slots[i], x, overwrite)`, and so on. An index past the end is
  -- undefined, a null pointer is not.
  unfoldable pub push_at : Kind → Slots A → ℕ → A → Bool → Result (Bool × Slots A × Calls A)
  push_at k slots i x overwrite = do
    p ← read_at slots i
    (stored, p', calls) ← push_data k p x overwrite
    ok (stored, set slots i p', calls)

  unfoldable pub pop_at : Kind → Slots A → ℕ → Result (Option A × Slots A)
  pop_at k slots i = do p ← read_at slots i; (x, p') ← pop_data k p; ok (x, set slots i p')

  unfoldable pub peek_at : Kind → Slots A → ℕ → Result (Option A)
  peek_at k slots i = read_at slots i >>= peek_data k
