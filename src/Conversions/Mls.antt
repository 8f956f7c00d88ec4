-- ===== src/Conversions/Mls.antt =====
-- src/Types/Conversions/rock/MLS.hpp: a map of surface patches as a height map, and back.
pub mod Patches
pub mod Filling
use robot_remote_control.Base.{
  ℕ, zero, suc, ◌+◌, ◌-◌, ◌*◌, ◌%◌, ◌<◌, ◌≤◌, ◌≡◌, refl, ◌∙◌, ◌⊎◌, inl, inr, Option, none, some,
  List, [], ◌∷◌, ◌++◌, Result, ok, of_option, fault, Fault, ◌>>=◌, read_at, write_at, length,
  get_elem?, get_elem?-some, length-append, Option-cases, Returns-bind, ap, All, Returns, arith,
}
use native.Mathlib.Decide.{dec_lt}
use robot_remote_control.Bytes.{Bytes}
use robot_remote_control.Doubles.{Doubles}
use robot_remote_control.Conversions.Messages.{Vector2, SimpleSensor}

-- The place of a cell in the values: an `int`. From 2^31 on it is negative, and out of bounds like every
-- place that is not below the number of the values, which is an `int` too.
abbrev pub place : ℕ → ℕ → ℕ → ℕ
place width x y = (x + y * width) % 4_294_967_296

-- The bound of the outer loop, `num_cell.y() - 1` of an `unsigned int`.
abbrev pub rows_of : ℕ → ℕ
rows_of height = (height + 4_294_967_295) % 4_294_967_296

pub rows_of_pred : (height : ℕ) → 0 < height → height < 4_294_967_296 → rows_of height ≡ height - 1
rows_of_pred height some_row fits = omega arith

module _ (F : Type 0) where
  -- The loops over the cells of a row, of which `k` are left from the `x`-th on, and over the rows.
  -- `cells` is `rock_type.at`, by `getMax` of the first patch of the cell, if it has one.
  unfoldable pub fill_row : ℕ → (ℕ → ℕ → Result (Option F)) → ℕ → ℕ → ℕ → List F → Result (List F)
  fill_row width cells zero x y values = ok values
  fill_row width cells (suc k) x y values = do
    cell ← cells x y
    filled ← elim cell [ none ↦ ok values | some top ↦ write_at values (place width x y) top ]
    fill_row width cells k (suc x) y filled

  unfoldable pub fill_rows : ℕ → (ℕ → ℕ → Result (Option F)) → ℕ → ℕ → List F → Result (List F)
  unfolding fill_row
  fill_rows width cells zero y values = ok values
  fill_rows width cells (suc k) y values = do
    filled ← fill_row width cells width 0 y values
    fill_rows width cells k (suc y) filled

  -- The patches that are inserted, each with its cell, in their order.
  unfoldable pub row_patches : ℕ → List F → ℕ → ℕ → ℕ → Result (List (ℕ × ℕ × F))
  row_patches width values zero x y = ok []
  row_patches width values (suc k) x y = do
    value ← read_at values (place width x y)
    patches ← row_patches width values k (suc x) y
    ok ((x, y, value) ∷ patches)

  unfoldable pub all_patches : ℕ → List F → ℕ → ℕ → Result (List (ℕ × ℕ × F))
  unfolding row_patches
  all_patches width values zero y = ok []
  all_patches width values (suc k) y = do
    row ← row_patches width values width 0 y
    rest ← all_patches width values k (suc y)
    ok (row ++ rest)

module _ (d : Doubles) where
  open d use {Float, Double, narrow, of_ℕ, truncated}

  -- maps::grid::Vector2ui
  unfoldable pub to_cells : ℕ × ℕ → Vector2 Float → Vector2 Float
  to_cells (x, y) target = record { x = narrow (of_ℕ x); y = narrow (of_ℕ y) }

  unfoldable pub of_cells : Vector2 Float → Result (ℕ × ℕ)
  of_cells v = do
    x ← of_option Fault.bad_conversion (truncated v.x)
    y ← of_option Fault.bad_conversion (truncated v.y)
    ok (x, y)

  -- The second argument is what `getResolution` returns. `Reserve` makes no values.
  unfoldable pub to_simple_sensor :
      ℕ × ℕ
      → Double × Double
      → (ℕ → ℕ → Result (Option Float))
      → Bytes
      → SimpleSensor Float
      → Result (SimpleSensor Float)
  unfolding fill_rows to_cells
  to_simple_sensor (width, height) (x, y) cells name target = do
    values ← fill_rows Float width cells (rows_of height) 0 target.value
    ok (record {
      name = name;
      size = to_cells (width, height) target.size;
      value = values;
      scale = record { x = narrow x; y = narrow y };
    })

  -- The size to which the map is resized, and the patches that are inserted into it.
  unfoldable pub of_simple_sensor : SimpleSensor Float → Result ((ℕ × ℕ) × List (ℕ × ℕ × Float))
  unfolding all_patches of_cells
  of_simple_sensor s = do
    (width, height) ← of_cells s.size
    patches ← all_patches Float width s.value (rows_of height) 0
    ok ((width, height), patches)
