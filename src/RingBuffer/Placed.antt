-- ===== src/RingBuffer/Placed.antt =====
-- A write to a buffer of capacity 1 in a vector of buffers, and reading it back.
use robot_remote_control.Base.{
  ℕ, ◌≡◌, ◌≢◌, ◌<◌, refl, sym, true, some, Option-cases, inl, inr, ok, read_at, set, length,
  Returns, Returns-bind, get_elem?, get_elem?-set_self, get_elem?-set_ne, get_elem?-lt,
}
use robot_remote_control.Types.{Kind}
use robot_remote_control.RingBuffer.Access.{BufferPtr}
use robot_remote_control.RingBuffer.Slots.{Slots, push_at, peek_at}
use robot_remote_control.RingBuffer.Latest.{Single, Holds, push_data-Holds, peek_data-Holds}

module _ {A : Type 0} where
  -- The pointer at the number was replaced by one to a buffer that holds the value.
  pub record Placed (k : Kind) (id : ℕ) (x : A) (old new : Slots A) : Type 0 where
    pub pointer : BufferPtr A
    pub as_set : new ≡ set old id pointer
    pub held : Holds k x pointer
    pub inside : id < length old

  pub push_at-Placed :
      (k : Kind) (id : ℕ) (x : A) (slots : Slots A)
      → Returns (read_at slots id) (Single k)
      → Returns (push_at k slots id x true) (λ out. Placed k id x slots out.1)
  unfolding push_at
  push_at-Placed k id x slots ready = elim (Option-cases (get_elem? slots id)) [
    | inl e ↦ absurd (rw e at ready)
    | inr (p, e) ↦ rw e (
        Returns-bind (λ out. (out.0 ≡ true) × Holds k x out.1) _ _ _
          (push_data-Holds k p x (rw e at ready))
          λ out done. record {
            pointer = out.1;
            as_set = refl;
            held = done.1;
            inside = get_elem?-lt slots id e;
          })
  ]

  pub Placed-Holds :
      (k : Kind) (id : ℕ) (x : A) (old new : Slots A)
      → Placed k id x old new
      → Returns (read_at new id) (Holds k x)
  Placed-Holds k id x old new p = rw (p.as_set, get_elem?-set_self old id p.pointer p.inside) p.held

  pub Placed-others :
      (k : Kind) (id : ℕ) (x : A) (old new : Slots A)
      → Placed k id x old new
      → (j : ℕ) → j ≢ id
      → get_elem? new j ≡ get_elem? old j
  Placed-others k id x old new p j other =
      rw (p.as_set, get_elem?-set_ne old id j p.pointer (λ e. other (sym e)))

  pub peek_at-Holds :
      (k : Kind) (id : ℕ) (x : A) (slots : Slots A)
      → Returns (read_at slots id) (Holds k x)
      → peek_at k slots id ≡ ok (some x)
  unfolding peek_at
  peek_at-Holds k id x slots holds = elim (Option-cases (get_elem? slots id)) [
    | inl e ↦ absurd (rw e at holds)
    | inr (p, e) ↦ rw e (peek_data-Holds k p x (rw e at holds))
  ]
