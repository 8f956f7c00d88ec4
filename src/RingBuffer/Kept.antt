-- ===== src/RingBuffer/Kept.antt =====
-- Calls on one buffer of a vector, with whatever type, leave the buffers of the vector sound: their
-- types, their capacities and that they are well formed.
use robot_remote_control.Base.{
  ℕ, ◌≡◌, sym, ◌∙◌, Bool, Bool-cases, ◌==◌, ==_iff, inl, inr, Option-cases, none, some, read_at,
  get_elem?, set, All, All_at, All-set, Returns, Returns-bind, Returns-map, WhenReturns,
  WhenReturns-bind, get_elem?-set_self, get_elem?-set_ne, get_elem?-lt, read_at_ok, arith, ◌<◌,
  length,
}
use robot_remote_control.Types.{Kind, same_kind}
use robot_remote_control.RingBuffer.{
  push_data as push, pop_data as pop, add_data_received_callback as add_callback,
}
use robot_remote_control.RingBuffer.Push.{Pushed, push_data-refines}
use robot_remote_control.RingBuffer.Pop.{Popped, pop_data-refines}
use robot_remote_control.RingBuffer.Access.{
  BufferPtr, push_data, pop_data, add_data_received_callback,
}
use robot_remote_control.RingBuffer.Slots.{Slots, push_at, pop_at}
use robot_remote_control.RingBuffer.Latest.{Sized}
use robot_remote_control.SimpleBuffer.Store.{Fits, Fits-Single}

module _ {A : Type 0} where
  -- The buffers that were there have their type and their capacity, and are well formed.
  abbrev pub SameSized : Slots A → Slots A → Type 0
  SameSized old new =
      (j : ℕ) (l : Kind) (cap : ℕ)
      → Returns (read_at old j) (Sized l cap)
      → Returns (read_at new j) (Sized l cap)

  push_data-Sized :
      (k l : Kind) (cap : ℕ) (p : BufferPtr A) (x : A) (overwrite : Bool)
      → Sized l cap p
      → Returns (push_data k p x overwrite) (λ out. Sized l cap out.1)
  unfolding push_data
  push_data-Sized k l cap none x overwrite h = absurd h
  push_data-Sized k l cap (some b) x overwrite h = elim (Bool-cases (same_kind b.kind k)) [
    | inr e ↦ rw (e, push_data) h
    | inl e ↦
        rw (e, push_data)
          (Returns-bind (Pushed b.ring x overwrite) _ (push b.ring x overwrite) _
            (push_data-refines b.ring x overwrite h.valid)
            (λ out done. record {
              typed = h.typed;
              valid = done.valid;
              sized = done.same_size ∙ h.sized;
            }))
  ]

  pop_data-Sized :
      (k l : Kind) (cap : ℕ) (p : BufferPtr A)
      → Sized l cap p
      → Returns (pop_data k p) (λ out. Sized l cap out.1)
  unfolding pop_data
  pop_data-Sized k l cap none h = absurd h
  pop_data-Sized k l cap (some b) h = elim (Bool-cases (same_kind b.kind k)) [
    | inr e ↦ rw (e, pop_data) h
    | inl e ↦
        rw (e, pop_data)
          (Returns-bind (Popped b.ring) _ (pop b.ring) _ (pop_data-refines b.ring h.valid)
            (λ out done. record {
              typed = h.typed;
              valid = done.valid;
              sized = done.same_size ∙ h.sized;
            }))
  ]

  push_data-Fits :
      (k l : Kind) (p : BufferPtr A) (x : A) (overwrite : Bool)
      → Fits l p
      → Returns (push_data k p x overwrite) (λ out. Fits l out.1)
  unfolding push_data
  push_data-Fits k l none x overwrite h = tt
  push_data-Fits k l (some b) x overwrite h =
      Returns-map (λ out. Sized l 1 out.1) _ (push_data k (some b) x overwrite)
        (push_data-Sized k l 1 (some b) x overwrite h) (λ out done. Fits-Single l out.1 done)

  pop_data-Fits :
      (k l : Kind) (p : BufferPtr A) → Fits l p → Returns (pop_data k p) (λ out. Fits l out.1)
  unfolding pop_data
  pop_data-Fits k l none h = tt
  pop_data-Fits k l (some b) h =
      Returns-map (λ out. Sized l 1 out.1) _ (pop_data k (some b)) (pop_data-Sized k l 1 (some b) h)
        (λ out done. Fits-Single l out.1 done)

  add_callback-Sized :
      (k l : Kind) (cap cb : ℕ) (p : BufferPtr A)
      → Sized l cap p
      → Sized l cap (add_data_received_callback k p cb).1
  unfolding add_data_received_callback add_callback
  add_callback-Sized k l cap cb none h = absurd h
  add_callback-Sized k l cap cb (some b) h = elim (Bool-cases (same_kind b.kind k)) [
    | inr e ↦ rw (e, add_data_received_callback) h
    | inl e ↦
        rw (e, add_data_received_callback)
          (record {
            typed = h.typed;
            valid = record {
              storage = h.valid.storage;
              small = h.valid.small;
              fits = h.valid.fits;
              out_inside = h.valid.out_inside;
              linked = h.valid.linked;
            };
            sized = h.sized;
          })
  ]

  set-SameSized :
      (slots : Slots A) (id : ℕ) (p q : BufferPtr A)
      → get_elem? slots id ≡ some p
      → ((l : Kind) (cap : ℕ) → Sized l cap p → Sized l cap q)
      → SameSized slots (set slots id q)
  set-SameSized slots id p q there keeps j l cap was = elim (Bool-cases (id == j)) [
    | inl e ↦
        let same : id ≡ j = (==_iff id j).0 e in
        rw (sym same, get_elem?-set_self slots id q (get_elem?-lt slots id there))
          (keeps l cap (rw (sym same, there) at was))
    | inr e ↦ rw (get_elem?-set_ne slots id j q (λ same. grind (arith, e, same))) was
  ]

  pub push_at-SameSized :
      (k : Kind) (slots : Slots A) (id : ℕ) (x : A) (overwrite : Bool)
      → WhenReturns (push_at k slots id x overwrite) (λ out. SameSized slots out.1)
  unfolding push_at
  push_at-SameSized k slots id x overwrite = elim (Option-cases (get_elem? slots id)) [
    | inl e ↦ rw (e, WhenReturns) tt
    | inr (p, e) ↦
        rw (e, WhenReturns)
          (WhenReturns-bind _ (push_data k p x overwrite) _ λ out pushed.
            set-SameSized slots id p out.1 e
              (λ l cap h. rw pushed at (push_data-Sized k l cap p x overwrite h)))
  ]

  pub pop_at-SameSized :
      (k : Kind) (slots : Slots A) (id : ℕ)
      → WhenReturns (pop_at k slots id) (λ out. SameSized slots out.1)
  unfolding pop_at
  pop_at-SameSized k slots id = elim (Option-cases (get_elem? slots id)) [
    | inl e ↦ rw (e, WhenReturns) tt
    | inr (p, e) ↦
        rw (e, WhenReturns)
          (WhenReturns-bind _ (pop_data k p) _ λ out popped.
            set-SameSized slots id p out.1 e (λ l cap h. rw popped at (pop_data-Sized k l cap p h)))
  ]

  pub add_callback-SameSized :
      (k : Kind) (slots : Slots A) (id cb : ℕ) (p : BufferPtr A)
      → get_elem? slots id ≡ some p
      → SameSized slots (set slots id (add_data_received_callback k p cb).1)
  add_callback-SameSized k slots id cb p there =
      set-SameSized slots id p _ there (λ l cap h. add_callback-Sized k l cap cb p h)

  pub push_at-Fits :
      (k l : Kind) (slots : Slots A) (id : ℕ) (x : A) (overwrite : Bool)
      → All (Fits l) slots
      → WhenReturns (push_at k slots id x overwrite) (λ out. All (Fits l) out.1)
  unfolding push_at
  push_at-Fits k l slots id x overwrite fits = elim (Option-cases (get_elem? slots id)) [
    | inl e ↦ rw (e, WhenReturns) tt
    | inr (p, e) ↦
        rw (e, WhenReturns)
          (WhenReturns-bind _ (push_data k p x overwrite) _ λ out pushed.
            All-set (Fits l) slots id out.1 fits
              (rw pushed at (push_data-Fits k l p x overwrite (All_at (Fits l) slots id fits e))))
  ]

  pub pop_at-Fits :
      (k l : Kind) (slots : Slots A) (id : ℕ)
      → id < length slots
      → All (Fits l) slots
      → Returns (pop_at k slots id) (λ out. All (Fits l) out.1)
  unfolding pop_at
  pop_at-Fits k l slots id inside fits =
      let (p, there, read) = read_at_ok slots id inside in
      rw read (
        Returns-bind (λ out. Fits l out.1) _ (pop_data k p) _
          (pop_data-Fits k l p (All_at (Fits l) slots id fits there))
          (λ out done. All-set (Fits l) slots id out.1 fits done))
