-- ===== src/Types/Table.antt =====
-- Tables of types with their classes, as the constructors register them.
use robot_remote_control.Base.{
  ℕ, ◌≡◌, ◌≢◌, some_inj, Bool, true, false, Bool-cases, ◌==◌, if◌then◌else◌, ltb, ◌<◌, Option, some,
  inl, inr, List, [], ◌∷◌, lookup, arith, refl,
}
use robot_remote_control.Types.{Kind}

-- Whether no type stands twice in a list of registrations.
abbrev pub mentions : ℕ → List (ℕ × Kind) → Bool
mentions type [] = false
mentions type ((j, k) ∷ rest) = if j == type then true else mentions type rest

abbrev pub distinct : List (ℕ × Kind) → Bool
distinct [] = true
distinct ((j, k) ∷ rest) = if mentions j rest then false else distinct rest

lookup-mentions :
    (type : ℕ) (k : Kind) (types : List (ℕ × Kind))
    → lookup type types ≡ some k
    → mentions type types ≡ true
lookup-mentions type k [] e = absurd (grind arith)
lookup-mentions type k ((j, l) ∷ rest) e = elim (Bool-cases (j == type)) [
  | inl same ↦ rw same refl
  | inr other ↦ rw other (lookup-mentions type k rest (rw other at e))
]

pub not_mentioned :
    (j type : ℕ) (k : Kind) (rest : List (ℕ × Kind))
    → mentions j ((type, k) ∷ rest) ≡ false
    → (j ≢ type) × (mentions j rest ≡ false)
not_mentioned j type k rest e = elim (Bool-cases (type == j)) [
  | inl same ↦ absurd (grind (arith, rw same at e))
  | inr other ↦ ((λ eq. grind (arith, other, eq)), rw other at e)
]

pub distinct_rest :
    (type : ℕ) (k : Kind) (rest : List (ℕ × Kind))
    → distinct ((type, k) ∷ rest) ≡ true
    → (mentions type rest ≡ false) × (distinct rest ≡ true)
distinct_rest type k rest e = elim (Bool-cases (mentions type rest)) [
  | inl there ↦ absurd (grind (arith, rw there at e))
  | inr absent ↦ (absent, rw absent at e)
]

pub same_class : (k l : Kind) → Path (Option Kind) (some k) (some l) → k ≡ l
same_class k l e = some_inj e

-- Whether all types are below a bound.
abbrev pub all_below : ℕ → List (ℕ × Kind) → Bool
all_below bound [] = true
all_below bound ((j, k) ∷ rest) = if ltb j bound then all_below bound rest else false

pub lookup_below :
    (bound type : ℕ) (k : Kind) (types : List (ℕ × Kind))
    → all_below bound types ≡ true
    → lookup type types ≡ some k
    → type < bound
lookup_below bound type k [] small there = absurd (grind arith)
lookup_below bound type k ((j, l) ∷ rest) small there =
    ground (arith, lookup_below bound type k rest)
