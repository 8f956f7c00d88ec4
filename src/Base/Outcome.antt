-- ===== src/Base/Outcome.antt =====
-- Results of C++ code: a value, or the reason why execution does not go on. Undefined behaviour
-- is a fault too, so a theorem that a call returns shows that none occurs.
use Prim.Native.Nat.{ℕ, ◌<◌, ◌%◌, ◌+◌}
use mathlib.Core.Path.{◌≡◌, refl}
use mathlib.Core.List.{List}
use mathlib.Core.Option.{Option, none, some}
use mathlib.Core.Logic.{◌⊎◌, inl, inr}
use native.Mathlib.Omega.{arith}
use robot_remote_control.Base.Tests.{◌==◌, if◌then◌else◌}
use robot_remote_control.Base.Lists.{get_elem?, set, length, get_elem?-some}

pub data Fault : Type 0 where
  out_of_bounds null_pointer division_by_zero no_return : Fault
  length_error range_error future_error send_error bad_conversion : Fault

pub data Result {ℓ} (A : Type ℓ) : Type ℓ where
  ok : A → Result A
  fault : Fault → Result A

infixl 5 ◌>>=◌
abbrev pub ◌>>=◌ {ℓ κ} : {A : Type ℓ} {B : Type κ} → Result A → (A → Result B) → Result B
ok a >>= f = f a
fault e >>= f = fault e

-- The call returns, and what it returns satisfies `P`.
abbrev pub Returns {ℓ} : {A : Type ℓ} → Result A → (A → Type 0) → Type 0
Returns (ok a) P = P a
Returns (fault e) P = ⊥

-- If the call returns, what it returns satisfies `P`.
abbrev pub WhenReturns {ℓ} : {A : Type ℓ} → Result A → (A → Type 0) → Type 0
WhenReturns (ok a) P = P a
WhenReturns (fault e) P = Unit

pub WhenReturns-bind {ℓ κ} :
    {A : Type ℓ} {B : Type κ} (P : B → Type 0) (m : Result A) (f : A → Result B)
    → ((a : A) → m ≡ ok a → WhenReturns (f a) P)
    → WhenReturns (m >>= f) P
WhenReturns-bind P (ok a) f h = h a refl
WhenReturns-bind P (fault e) f h = tt

pub WhenReturns-map {ℓ} :
    {A : Type ℓ} (P Q : A → Type 0) (m : Result A)
    → WhenReturns m P
    → ((a : A) → P a → Q a)
    → WhenReturns m Q
WhenReturns-map P Q (ok a) h k = k a h
WhenReturns-map P Q (fault e) h k = tt

pub Returns-bind {ℓ κ} :
    {A : Type ℓ} {B : Type κ} (P : A → Type 0) (Q : B → Type 0) (m : Result A) (f : A → Result B)
    → Returns m P
    → ((a : A) → P a → Returns (f a) Q)
    → Returns (m >>= f) Q
Returns-bind P Q (ok a) f h k = k a h
Returns-bind P Q (fault e) f h k = absurd h

pub Returns-map {ℓ} :
    {A : Type ℓ} (P Q : A → Type 0) (m : Result A)
    → Returns m P
    → ((a : A) → P a → Q a)
    → Returns m Q
Returns-map P Q (ok a) h k = k a h
Returns-map P Q (fault e) h k = absurd h

pub Returns_value {ℓ} :
    {A : Type ℓ} (P : A → Type 0) (m : Result A) → Returns m P → (a : A) × (m ≡ ok a) × P a
Returns_value P (ok a) h = (a, refl, h)
Returns_value P (fault e) h = absurd h

pub Returns-eq {ℓ} :
    {A : Type ℓ} (P : A → Type 0) {m : Result A} {a : A} → m ≡ ok a → P a → Returns m P
Returns-eq P e h = rw e h

-- `size_t` addition, and `%` on `size_t`, which is undefined for a divisor of 0.
abbrev pub size_mod : ℕ
size_mod = 18_446_744_073_709_551_616

abbrev pub add_size : ℕ → ℕ → ℕ
add_size a b = (a + b) % size_mod

module _ {ℓ} {A : Type ℓ} where
  abbrev pub of_option : Fault → Option A → Result A
  of_option e none = fault e
  of_option e (some a) = ok a

  -- `v[i]`, which is undefined out of range
  abbrev pub read_at : List A → ℕ → Result A
  read_at xs i = of_option Fault.out_of_bounds (get_elem? xs i)

  abbrev pub write_at : List A → ℕ → A → Result (List A)
  write_at xs i v = elim (get_elem? xs i) [
    | none ↦ fault Fault.out_of_bounds
    | some _ ↦ ok (set xs i v)
  ]

abbrev pub modulo : ℕ → ℕ → Result ℕ
modulo a b = if b == 0 then fault Fault.division_by_zero else ok (a % b)

module _ {ℓ} {A : Type ℓ} where
  pub write_at_ok :
      (xs : List A) (i : ℕ) (v : A) → i < length xs → write_at xs i v ≡ ok (set xs i v)
  write_at_ok xs i v h = let (a, e) = get_elem?-some xs i h in rw (e, write_at)

  pub read_at_ok :
      (xs : List A) (i : ℕ)
      → i < length xs
      → (a : A) × (get_elem? xs i ≡ some a) × (read_at xs i ≡ ok a)
  read_at_ok xs i h = let (a, e) = get_elem?-some xs i h in (a, e, rw e)

pub modulo_ok : (a b : ℕ) → 0 < b → modulo a b ≡ ok (a % b)
modulo_ok a b h = ground arith

pub WhenReturns_of_Returns {ℓ} :
    {A : Type ℓ} (P : A → Type 0) (m : Result A) → Returns m P → WhenReturns m P
WhenReturns_of_Returns P (ok a) h = h
WhenReturns_of_Returns P (fault e) h = tt

pub Result-cases {ℓ} :
    {A : Type ℓ} (m : Result A) → ((e : Fault) × (m ≡ fault e)) ⊎ ((a : A) × (m ≡ ok a))
Result-cases (ok a) = inr (a, refl)
Result-cases (fault e) = inl (e, refl)
