-- ===== src/Conversions/Mls/Filling.antt =====
-- The values that a map of patches is converted to.
use robot_remote_control.Base.{
  ℕ, zero, suc, ◌+◌, ◌-◌, ◌<◌, ◌≤◌, ◌≡◌, refl, ◌⊎◌, inl, inr, Option, none, some, [], Result, ok,
  fault, Fault, Option-cases, arith,
}
use native.Mathlib.Decide.{dec_lt}
use robot_remote_control.Bytes.{Bytes}
use robot_remote_control.Doubles.{Doubles}
use robot_remote_control.Conversions.Messages.{SimpleSensor}
use robot_remote_control.Conversions.Mls.{rows_of_pred, fill_row, fill_rows, to_simple_sensor}

module _ (F : Type 0) where
  -- A row, and rows, that are written to no values at all.
  no_row_filled :
      (width : ℕ) (cells : ℕ → ℕ → Result (Option F)) (k x y : ℕ)
      → ((j : ℕ) → x ≤ j → j < x + k → (c : Option F) × (cells j y ≡ ok c))
      → (fill_row F width cells k x y [] ≡ fault Fault.out_of_bounds)
        ⊎ ((fill_row F width cells k x y [] ≡ ok [])
            × ((j : ℕ) → x ≤ j → j < x + k → cells j y ≡ ok none))
  unfolding fill_row
  no_row_filled width cells zero x y there = inr (refl, λ j from below. absurd (omega arith))
  no_row_filled width cells (suc k) x y there =
      let (c, at) = there x (omega arith) (omega arith) in
      let rest =
        no_row_filled width cells k (suc x) y
          (λ j from below. there j (omega arith) (omega arith)) in
      elim (Option-cases c) [
        | inr (top, e) ↦ inl (rw (at, e) refl)
        | inl e ↦ elim rest [
          | inl f ↦ inl (rw (at, e, f))
          | inr (f, empty) ↦ inr (
            rw (at, e, f),
            (λ j from below. elim (dec_lt x j) [
              | yes after ↦ empty j (omega arith) (omega arith)
              | no here ↦ let same : j ≡ x = omega arith in rw (same, at, e)
            ]),
          )
        ]
      ]

  no_rows_filled :
      (width : ℕ) (cells : ℕ → ℕ → Result (Option F)) (k y : ℕ)
      → ((i j : ℕ) → i < width → y ≤ j → j < y + k → (c : Option F) × (cells i j ≡ ok c))
      → (fill_rows F width cells k y [] ≡ fault Fault.out_of_bounds)
        ⊎ ((fill_rows F width cells k y [] ≡ ok [])
            × ((i j : ℕ) → i < width → y ≤ j → j < y + k → cells i j ≡ ok none))
  unfolding fill_rows
  no_rows_filled width cells zero y there =
      inr (refl, λ i j in_row from below. absurd (omega arith))
  no_rows_filled width cells (suc k) y there =
      let row =
        no_row_filled width cells width 0 y
          (λ i from below. there i y (omega arith) (omega arith) (omega arith)) in
      let rest =
        no_rows_filled width cells k (suc y)
          (λ i j in_row from below. there i j in_row (omega arith) (omega arith)) in
      elim row [
        | inl f ↦ inl (rw f)
        | inr (f, empty) ↦ elim rest [
          | inl g ↦ inl (rw (f, g))
          | inr (g, empties) ↦ inr (
            rw (f, g),
            (λ i j in_row from below. elim (dec_lt y j) [
              | yes after ↦ empties i j in_row (omega arith) (omega arith)
              | no here ↦
                  let same : j ≡ y = omega arith in rw same (empty i (omega arith) (omega arith))
            ]),
          )
        ]
      ]

module _ (d : Doubles) where
  open d use {Float, Double, narrow, of_ℕ, truncated}

  -- A map with a patch in a cell of the rows ahead of the last cannot be converted into a message
  -- without values, such as a new one: the first value is written out of bounds.
  pub to_simple_sensor_new :
      (width height : ℕ) (resolution : Double × Double) (cells : ℕ → ℕ → Result (Option Float))
      (name : Bytes) (target : SimpleSensor Float) (x y : ℕ) (top : Float)
      → target.value ≡ []
      → height < 4_294_967_296
      → ((i j : ℕ) → i < width → j < height → (c : Option Float) × (cells i j ≡ ok c))
      → x < width
      → suc y < height
      → cells x y ≡ ok (some top)
      → to_simple_sensor d (width, height) resolution cells name target ≡ fault Fault.out_of_bounds
  unfolding to_simple_sensor
  to_simple_sensor_new width height resolution cells name target x y top new fits there in_row
        not_last patch =
      rw (new, rows_of_pred height (omega arith) fits)
        (elim (no_rows_filled Float width cells (height - 1) 0
          (λ i j row from below. there i j row (omega arith))) [
            | inl f ↦ rw f
            | inr (f, empty) ↦
                absurd (grind (arith, patch, empty x y in_row (omega arith) (omega arith)))
          ])
