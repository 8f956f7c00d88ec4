-- ===== src/SimpleBuffer/Store.antt =====
-- A buffer number that is initialised and then written holds the value, and no other number changes.
use robot_remote_control.Base.{
  Returns-map, ℕ, ◌+◌, ◌≡◌, ◌≢◌, ◌<◌, ◌≤◌, refl, sym, ◌∙◌, leb, true, Bool-cases, none, some,
  read_at, length, Returns, arith, inl, inr, get_elem?, All, All_at, All-set, All-resize,
  get_elem?-set_self, get_elem?-set_ne, get_elem?-resize, length-resize, length-set, read_at_ok,
  leb→le,
}
use robot_remote_control.Types.{Kind}
use robot_remote_control.RingBuffer.{new_ring}
use robot_remote_control.RingBuffer.Access.{BufferPtr}
use robot_remote_control.RingBuffer.Slots.{Slots, push_at}
use robot_remote_control.RingBuffer.Latest.{IsSized, Single, Holds, new_ring-Sized}
use robot_remote_control.RingBuffer.Placed.{Placed, push_at-Placed, Placed-Holds, Placed-others}
use robot_remote_control.SimpleBuffer.{init_buffer_id, grown, filled}

module _ {A : Type 0} where
  -- A slot is null, or a buffer of the type `k` and capacity 1.
  abbrev pub Fits : Kind → BufferPtr A → Type 0
  Fits k none = Unit
  Fits k (some b) = IsSized k 1 b

  pub Fits-Single : (k : Kind) (p : BufferPtr A) → Single k p → Fits k p
  Fits-Single k none h = absurd h
  Fits-Single k (some b) h = h

  -- The slots at other numbers are as before.
  abbrev pub SameOthers : ℕ → Slots A → Slots A → Type 0
  SameOthers id old new = (j : ℕ) → j ≢ id → j < length old → get_elem? new j ≡ get_elem? old j

  pub record Ready (k : Kind) (id : ℕ) (old new : Slots A) : Type 0 where
    pub fits : All (Fits k) new
    pub ready : Returns (read_at new id) (Single k)
    pub others : SameOthers id old new
    pub longer : length old ≤ length new
    pub bounded : (n : ℕ) → length old ≤ n → id < n → length new ≤ n

  grown_lem :
      (id : ℕ) (slots : Slots A) (k : Kind)
      → All (Fits k) slots
      → All (Fits k) (grown id slots)
        × SameOthers id slots (grown id slots)
        × (length slots ≤ length (grown id slots))
        × (id < length (grown id slots))
        × ((n : ℕ) → length slots ≤ n → id < n → length (grown id slots) ≤ n)
  unfolding grown
  grown_lem id slots k fits = elim (Bool-cases (leb (length slots) id)) [
    | inr enough ↦
        rw enough
          (fits, (λ j other below. refl), omega arith, ground arith, (λ n long inside. long))
    | inl short ↦
        let long = length-resize {A = BufferPtr A} (id + 1) none slots in
        let small = leb→le (length slots) id short in
        rw short (
          All-resize (Fits k) (id + 1) none slots fits tt,
          (λ j other below. get_elem?-resize (id + 1) none slots j (omega arith) below),
          omega arith,
          omega arith,
          (λ n below inside. omega arith),
        )
  ]

  filled_lem :
      (k : Kind) (default : A) (id : ℕ) (slots : Slots A) (p : BufferPtr A)
      → All (Fits k) slots
      → get_elem? slots id ≡ some p
      → id < length slots
      → Ready k id slots (filled k default id slots p)
  unfolding filled
  filled_lem k default id slots none fits at_id inside =
      let new : BufferPtr A = some (record { kind = k; ring = new_ring default 1 }) in
      let single : Single k new = new_ring-Sized k default 1 (omega arith) (omega arith) in
      record {
        fits = All-set (Fits k) slots id new fits single;
        ready = rw (get_elem?-set_self slots id new inside) single;
        others = λ j other below. get_elem?-set_ne slots id j new (λ e. other (sym e));
        longer = omega (arith, length-set slots id new);
        bounded = λ n below in_range. omega (arith, length-set slots id new);
      }
  filled_lem k default id slots (some b) fits at_id inside = record {
    fits = fits;
    ready = rw at_id (All_at (Fits k) slots id fits at_id);
    others = λ j other below. refl;
    longer = omega arith;
    bounded = λ n below in_range. below;
  }

  -- `initBufferID` returns, the buffer of the number is there, and the others are as before.
  pub init_buffer_id-Ready :
      (k : Kind) (default : A) (id : ℕ) (slots : Slots A)
      → All (Fits k) slots
      → Returns (init_buffer_id k default id slots) (Ready k id slots)
  unfolding init_buffer_id
  init_buffer_id-Ready k default id slots fits =
      let (fits', others', longer', inside, bounded') = grown_lem id slots k fits in
      let (p, at_id, read) = read_at_ok (grown id slots) id inside in
      rw read (
        let done = filled_lem k default id (grown id slots) p fits' at_id inside in
        record {
          fits = done.fits;
          ready = done.ready;
          others = λ j other below. done.others j other (omega arith) ∙ others' j other below;
          longer = omega arith;
          bounded = λ n below in_range. done.bounded n (bounded' n below in_range) in_range;
        })

  -- What a write to a number has done: it holds the value, the others are as before.
  pub record Stored (k : Kind) (id : ℕ) (x : A) (old : Slots A) (new : Slots A) : Type 0 where
    pub fits : All (Fits k) new
    pub holds : Returns (read_at new id) (Holds k x)
    pub others : SameOthers id old new
    pub longer : length old ≤ length new

  Fits-Holds : (k : Kind) (x : A) (p : BufferPtr A) → Holds k x p → Fits k p
  Fits-Holds k x none h = absurd h
  Fits-Holds k x (some b) h = h.0

  pub push_at-Stored :
      (k : Kind) (id : ℕ) (x : A) (slots : Slots A)
      → All (Fits k) slots
      → Returns (read_at slots id) (Single k)
      → Returns (push_at k slots id x true) (λ out. Stored k id x slots out.1)
  push_at-Stored k id x slots fits ready =
      Returns-map (λ out. Placed k id x slots out.1) _ (push_at k slots id x true)
        (push_at-Placed k id x slots ready)
        λ out placed. record {
          fits = rw placed.as_set (
              All-set (Fits k) slots id placed.pointer fits
                (Fits-Holds k x placed.pointer placed.held));
          holds = Placed-Holds k id x slots out.1 placed;
          others = λ j other below. Placed-others k id x slots out.1 placed j other;
          longer = rw placed.as_set (omega (arith, length-set slots id placed.pointer));
        }
