-- ===== src/Base/Int.antt =====
-- Signed integers over the native numbers, and the 32-bit `int` that an unsigned value turns into.
use Prim.Native.Nat.{ℕ, suc, ◌+◌, ◌-◌, ◌≤◌, ◌<◌, ◌%◌}
use mathlib.Core.Path.{◌≡◌}
use native.Mathlib.Omega.{arith}
use robot_remote_control.Base.Tests.{leb, ltb, if◌then◌else◌}

-- `negsuc n` is -(n + 1).
pub data ℤ : Type 0 where
  pos : ℕ → ℤ
  negsuc : ℕ → ℤ

abbrev pub pos_part : ℤ → ℕ
pos_part (pos n) = n
pos_part (negsuc n) = 0

abbrev pub neg_part : ℤ → ℕ
neg_part (pos n) = 0
neg_part (negsuc n) = suc n

-- a - b, as an integer.
abbrev pub sub_ℕ : ℕ → ℕ → ℤ
sub_ℕ a b = if leb b a then pos (a - b) else negsuc (b - a - 1)

infixl 65 ◌+ℤ◌
infix 50 ◌≤ℤ◌
unfoldable pub ◌+ℤ◌ : ℤ → ℤ → ℤ
a +ℤ b = sub_ℕ (pos_part a + pos_part b) (neg_part a + neg_part b)

abbrev pub ◌≤ℤ◌ : ℤ → ℤ → Type 0
a ≤ℤ b = pos_part a + neg_part b ≤ pos_part b + neg_part a

-- The conversion of an unsigned value to `int`: its low 32 bits in two's complement.
abbrev pub to_int : ℕ → ℤ
to_int n =
    let w = n % 4_294_967_296 in if ltb w 2_147_483_648 then pos w else negsuc (4_294_967_295 - w)

pub sub_ℕ-mono : (a a' b : ℕ) → a ≤ a' → sub_ℕ a b ≤ℤ sub_ℕ a' b
sub_ℕ-mono a a' b h = ground arith

pub ≤ℤ_trans : (a b c : ℤ) → a ≤ℤ b → b ≤ℤ c → a ≤ℤ c
≤ℤ_trans a b c h k = omega arith

pub to_int_small : (n : ℕ) → n < 2_147_483_648 → to_int n ≡ pos n
to_int_small n h = ground arith
