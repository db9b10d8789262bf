-- ===== src/Prelude/Int.antt =====
-- Signed integers over the native numbers, and `i128` arithmetic.
use Prim.Native.Nat.{ℕ, suc, ◌+◌, ◌-◌, ◌%◌, ◌^◌, ◌≤◌, ◌<◌}
use mathlib.Core.Path.{◌≡◌}
use mathlib.Core.Logic.{◌↔◌}
use mathlib.Core.Bool.{Bool, true, false}
use native.Mathlib.Omega.{arith}
use digital_euro_wallet.Prelude.Tests.{ltb, leb, nat_same, if◌then◌else◌}
use digital_euro_wallet.Prelude.Classes.{PartialEq}

-- `negsuc n` is -(n + 1).
pub data ℤ : Type 0 where
  pos : ℕ → ℤ
  negsuc : ℕ → ℤ

abbrev pub pos_part : ℤ → ℕ
pos_part (pos n) = n
pos_part (negsuc n) = 0

abbrev pub neg_part : ℤ → ℕ
neg_part (pos n) = 0
neg_part (negsuc n) = suc n

-- a - b, as an integer.
abbrev pub sub_ℕ : ℕ → ℕ → ℤ
sub_ℕ a b = if leb b a then pos (a - b) else negsuc (b - a - 1)

infixl 65 ◌+ℤ◌ ◌-ℤ◌
infix 50 ◌≤ℤ◌
unfoldable pub ◌+ℤ◌ : ℤ → ℤ → ℤ
a +ℤ b = sub_ℕ (pos_part a + pos_part b) (neg_part a + neg_part b)

unfoldable pub ◌-ℤ◌ : ℤ → ℤ → ℤ
a -ℤ b = sub_ℕ (pos_part a + neg_part b) (neg_part a + pos_part b)

abbrev pub ◌≤ℤ◌ : ℤ → ℤ → Type 0
a ≤ℤ b = pos_part a + neg_part b ≤ pos_part b + neg_part a

pub +ℤ_parts :
    (a b : ℤ)
    → pos_part (a +ℤ b) + neg_part a + neg_part b ≡ neg_part (a +ℤ b) + pos_part a + pos_part b
unfolding ◌+ℤ◌
+ℤ_parts a b = ground arith

pub -ℤ_parts :
    (a b : ℤ)
    → pos_part (a -ℤ b) + neg_part a + pos_part b ≡ neg_part (a -ℤ b) + pos_part a + neg_part b
unfolding ◌-ℤ◌
-ℤ_parts a b = ground arith

pub eq_of_parts : (a b : ℤ) → pos_part a + neg_part b ≡ pos_part b + neg_part a → a ≡ b
eq_of_parts a b h = ground arith

pub ruleset int_laws = (arith, +ℤ_parts, -ℤ_parts, eq_of_parts)

-- The two's-complement value of an integer at 128 bits.
unfoldable pub wrap_i128 : ℤ → ℤ
wrap_i128 (pos n) =
    let r = n % 2 ^ 128 in if ltb r (2 ^ 127) then pos r else negsuc (2 ^ 128 - r - 1)
wrap_i128 (negsuc n) =
    let r = n % 2 ^ 128 in if ltb r (2 ^ 127) then negsuc r else pos (2 ^ 128 - r - 1)

-- `a + b` and `a - b` on `i128`
unfoldable pub add_i128 : ℤ → ℤ → ℤ
add_i128 a b = wrap_i128 (a +ℤ b)

unfoldable pub sub_i128 : ℤ → ℤ → ℤ
sub_i128 a b = wrap_i128 (a -ℤ b)

-- The integers that 128 bits hold.
abbrev pub IsI128 : ℤ → Type 0
IsI128 a = (pos_part a < 2 ^ 127) × (neg_part a ≤ 2 ^ 127)

pub wrap_i128_exact : (a : ℤ) → IsI128 a → wrap_i128 a ≡ a
unfolding wrap_i128
wrap_i128_exact (pos n) h = ground arith
wrap_i128_exact (negsuc n) h = ground arith

abbrev int_same : ℤ → ℤ → Bool
int_same (pos m) (pos n) = nat_same m n
int_same (negsuc m) (negsuc n) = nat_same m n
int_same _ _ = false

pub int_same_iff : (a b : ℤ) → (int_same a b ≡ true) ↔ (a ≡ b)
int_same_iff (pos m) (pos n) = ground arith
int_same_iff (pos m) (negsuc n) = ground arith
int_same_iff (negsuc m) (pos n) = ground arith
int_same_iff (negsuc m) (negsuc n) = ground arith

instance abbrev pub int_eq : PartialEq ℤ
int_eq = record { same = int_same; same_iff = int_same_iff }
