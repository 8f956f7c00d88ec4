-- ===== src/Conversions/Mls/Patches.antt =====
-- The patches that a height map is converted to.
use robot_remote_control.Base.{
  ℕ, zero, suc, ◌+◌, ◌-◌, ◌*◌, ◌%◌, ◌<◌, ◌≤◌, ◌≡◌, refl, ◌∙◌, some, List, [], ◌∷◌, ◌++◌, length,
  get_elem?, get_elem?-some, length-append, Returns-bind, ap, All, Returns, arith,
}
use robot_remote_control.Doubles.{Doubles}
use robot_remote_control.Conversions.Messages.{SimpleSensor}
use robot_remote_control.Conversions.Mls.{
  place, rows_of_pred, row_patches, all_patches, of_cells, of_simple_sensor,
}

mod_small : (n : ℕ) → n < 4_294_967_296 → n % 4_294_967_296 ≡ n
mod_small n h = omega arith

module _ (F : Type 0) where
  -- A patch for a cell of the rows ahead of the last, with the value at the place of the cell.
  pub record Placed (width height : ℕ) (values : List F) (patch : ℕ × ℕ × F) : Type 0 where
    pub in_row : patch.0 < width
    pub not_last : suc patch.1 < height
    pub of_value : get_elem? values (patch.0 + patch.1 * width) ≡ some patch.2

  All-append :
      {A : Type 0} (P : A → Type 0) (xs ys : List A) → All P xs → All P ys → All P (xs ++ ys)
  All-append P [] ys h k = k
  All-append P (x ∷ xs) ys h k = (h.0, All-append P xs ys h.1 k)

  place_below :
      (width height bound x y : ℕ)
      → x < width
      → suc y < height
      → width * (height - 1) ≤ bound
      → x + y * width < bound
  place_below width height bound x y in_row not_last room = grind arith

  row_patches-Placed :
      (width height : ℕ) (values : List F) (k x y : ℕ)
      → x + k ≡ width
      → suc y < height
      → width * (height - 1) ≤ length values
      → length values < 2_147_483_648
      → Returns
          (row_patches F width values k x y)
          (λ ps. All (Placed width height values) ps × (length ps ≡ k))
  unfolding row_patches
  row_patches-Placed width height values zero x y whole not_last room small = (tt, refl)
  row_patches-Placed width height values (suc k) x y whole not_last room small =
      let below = place_below width height (length values) x y (omega arith) not_last room in
      let (value, at) = get_elem?-some values (x + y * width) below in
      let uncut : place width x y ≡ x + y * width = mod_small (x + y * width) (omega arith) in
      rw (uncut, at)
        (Returns-bind (λ ps. All (Placed width height values) ps × (length ps ≡ k)) _ _ _
          (row_patches-Placed width height values k (suc x) y (omega arith) not_last room small)
          λ ps (placed, count). (
            (record { in_row = omega arith; not_last = not_last; of_value = at }, placed),
            ap suc count,
          ))

  all_patches-Placed :
      (width height : ℕ) (values : List F) (k y : ℕ)
      → suc y + k ≡ height
      → width * (height - 1) ≤ length values
      → length values < 2_147_483_648
      → Returns
          (all_patches F width values k y)
          (λ ps. All (Placed width height values) ps × (length ps ≡ k * width))
  unfolding all_patches
  all_patches-Placed width height values zero y whole room small = (tt, omega arith)
  all_patches-Placed width height values (suc k) y whole room small =
      Returns-bind (λ ps. All (Placed width height values) ps × (length ps ≡ width)) _ _ _
        (row_patches-Placed width height values width 0 y (omega arith) (omega arith) room small)
        λ row (placed, count).
          Returns-bind (λ ps. All (Placed width height values) ps × (length ps ≡ k * width)) _ _ _
            (all_patches-Placed width height values k (suc y) (omega arith) room small)
            λ rest (placed', count'). (
              All-append (Placed width height values) row rest placed placed',
              length-append row rest ∙ grind (arith, count, count'),
            )

module _ (d : Doubles) where
  open d use {Float, Double, narrow, of_ℕ, truncated, truncated_small}

  -- A height map whose size fits into unsigned numbers, with at least one row and a value for every
  -- cell of the rows ahead of the last, is read within its bounds: as many patches as these rows have
  -- cells are inserted, each into a cell of them and with the value at its place. The last row gets no
  -- patch.
  pub of_simple_sensor-Placed :
      (s : SimpleSensor Float) (width height : ℕ)
      → truncated s.size.x ≡ some width
      → truncated s.size.y ≡ some height
      → 0 < height
      → width * (height - 1) ≤ length s.value
      → length s.value < 2_147_483_648
      → Returns (of_simple_sensor d s) (λ out.
        (out.0 ≡ (width, height))
        × All (Placed Float width height s.value) out.1
        × (length out.1 ≡ (height - 1) * width))
  unfolding of_simple_sensor of_cells
  of_simple_sensor-Placed s width height wide high some_row room small =
      rw (wide, high, rows_of_pred height some_row (truncated_small s.size.y height high))
        (Returns-bind
          (λ ps. All (Placed Float width height s.value) ps × (length ps ≡ (height - 1) * width)) _
          _ _
          (all_patches-Placed Float width height s.value (height - 1) 0 (omega arith) room small)
          λ ps (placed, count). (refl, placed, count))
