-- ===== src/RingBuffer/Latest.antt =====
-- Buffers of capacity 1, to which the library always writes with `overwriteIfFull`: such a buffer
-- holds the value that was written last.
use robot_remote_control.Base.{
  ℕ, ◌≡◌, refl, ◌≤◌, ◌<◌, ap, ◌∙◌, Bool, true, none, some, List, [], ◌∷◌, length, arith, Returns,
  Returns-bind, ok, ◌>>=◌, size_mod, ==_refl,
}
use robot_remote_control.Types.{Kind, kind_code, same_kind}
use robot_remote_control.RingBuffer.{push_data as push, peek_data as peek, new_ring}
use robot_remote_control.RingBuffer.Queue
use robot_remote_control.RingBuffer.Valid.{IsValid, contents, length-contents}
use robot_remote_control.RingBuffer.Push.{Pushed, push_data-refines}
use robot_remote_control.RingBuffer.Pop.{peek_data-first}
use robot_remote_control.RingBuffer.Calls.{new_ring-IsValid}
use robot_remote_control.RingBuffer.Access.{AnyBuffer, BufferPtr, push_data, peek_data, with_ring}

-- In a queue of one place an overwriting push leaves just the new element.
push_latest :
    {A : Type 0} (cap : ℕ) (q : List A) (x : A)
    → cap ≡ 1
    → length q ≤ cap
    → Queue.push cap q x true ≡ (true, x ∷ [])
unfolding Queue.push
push_latest cap [] x one small = rw one
push_latest cap (y ∷ []) x one small = rw one
push_latest cap (y ∷ z ∷ q) x one small = absurd (omega arith)

module _ {A : Type 0} where
  -- A buffer of the type `k` and the capacity `cap`.
  pub record IsSized (k : Kind) (cap : ℕ) (b : AnyBuffer A) : Type 0 where
    pub typed : b.kind ≡ k
    pub valid : IsValid b.ring
    pub sized : b.ring.buffersize ≡ cap

  abbrev pub Sized : Kind → ℕ → BufferPtr A → Type 0
  Sized k cap none = ⊥
  Sized k cap (some b) = IsSized k cap b

  abbrev pub Single : Kind → BufferPtr A → Type 0
  Single k = Sized k 1

  -- It holds `x`.
  abbrev pub Holds : Kind → A → BufferPtr A → Type 0
  Holds k x none = ⊥
  Holds k x (some b) = IsSized k 1 b × (contents b.ring ≡ x ∷ [])

  pub Single-Holds : (k : Kind) (x : A) (p : BufferPtr A) → Holds k x p → Single k p
  Single-Holds k x none h = h
  Single-Holds k x (some b) h = h.0

  pub new_ring-Sized :
      (k : Kind) (default : A) (cap : ℕ)
      → 0 < cap
      → cap < size_mod
      → Sized k cap (some (record { kind = k; ring = new_ring default cap }))
  unfolding new_ring
  new_ring-Sized k default cap some_room small = record {
    typed = refl;
    valid = (new_ring-IsValid default cap some_room small).0;
    sized = refl;
  }

  pub casts : (k : Kind) (b : AnyBuffer A) → b.kind ≡ k → same_kind b.kind k ≡ true
  casts k b e = rw e (==_refl (kind_code k))

  pub push_data_same :
      (k : Kind) (b : AnyBuffer A) (x : A) (overwrite : Bool)
      → b.kind ≡ k
      → push_data k (some b) x overwrite
        ≡ (push b.ring x overwrite >>= (λ out. ok (out.0, with_ring (some b) out.1, out.2)))
  unfolding push_data
  push_data_same k b x overwrite e = rw (casts k b e, push_data)

  peek_data_same : (k : Kind) (b : AnyBuffer A) → b.kind ≡ k → peek_data k (some b) ≡ peek b.ring
  unfolding peek_data
  peek_data_same k b e = rw (casts k b e, peek_data)

  pub push_data-Holds :
      (k : Kind) (p : BufferPtr A) (x : A)
      → Single k p
      → Returns (push_data k p x true) (λ out. (out.0 ≡ true) × Holds k x out.1)
  push_data-Holds k none x h = absurd h
  push_data-Holds k (some b) x h = rw (push_data_same k b x true h.typed) (
      Returns-bind (Pushed b.ring x true) _ _ _ (push_data-refines b.ring x true h.valid)
        λ out done.
          let queued =
            done.queued
            ∙ push_latest b.ring.buffersize (contents b.ring) x h.sized
                (omega (arith, length-contents b.ring h.valid)) in
          (
            ap (λ a. a.0) queued,
            (
              record { typed = h.typed; valid = done.valid; sized = done.same_size ∙ h.sized },
              ap (λ a. a.1) queued,
            ),
          ))

  pub peek_data-Holds :
      (k : Kind) (p : BufferPtr A) (x : A) → Holds k x p → peek_data k p ≡ ok (some x)
  unfolding Queue.first
  peek_data-Holds k none x h = absurd h
  peek_data-Holds k (some b) x h =
      peek_data_same k b h.0.typed
      ∙ peek_data-first b.ring h.0.valid
      ∙ ap (λ q. ok (Queue.first q)) h.1
