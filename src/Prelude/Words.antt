-- ===== src/Prelude/Words.antt =====
-- Fixed-width integers. A value is a plain number; what an operation does at the width is written
-- out. The crate's release profile leaves overflow checks off, so `+` wraps.
use Prim.Native.Nat.{ℕ, zero, suc, ◌+◌, ◌/◌, ◌%◌, ◌^◌, ◌<◌}
use mathlib.Core.Path.{◌≡◌, refl}
use mathlib.Core.List.{List, [], ◌∷◌}
use native.Mathlib.Omega.{arith}

abbrev pub Bytes : Type 0
Bytes = List ℕ

abbrev pub u64_modulus : ℕ
u64_modulus = 2 ^ 64

-- `a + b` on `u64`
unfoldable pub add_u64 : ℕ → ℕ → ℕ
add_u64 a b = (a + b) % u64_modulus

-- `iter().sum::<u64>()`
unfoldable pub sum_u64 : List ℕ → ℕ
sum_u64 [] = 0
sum_u64 (v ∷ vs) = add_u64 v (sum_u64 vs)

-- `map(|v| v as u128).sum::<u128>()`
unfoldable pub sum_u128 : List ℕ → ℕ
sum_u128 [] = 0
sum_u128 (v ∷ vs) = (v + sum_u128 vs) % 2 ^ 128

-- `v.to_be_bytes()` of an integer of `k` bytes
unfoldable pub to_be_bytes : ℕ → ℕ → Bytes
to_be_bytes zero v = []
to_be_bytes (suc k) v = (v / 256 ^ k % 256) ∷ to_be_bytes k v

-- The sum of a list as a mathematical number.
abbrev pub sum : List ℕ → ℕ
sum [] = 0
sum (v ∷ vs) = v + sum vs

pub add_u64_exact : (a b : ℕ) → a + b < u64_modulus → add_u64 a b ≡ a + b
unfolding add_u64
add_u64_exact a b h = omega arith

-- A sum that fits 64 bits does not wrap on the way.
pub sum_u64-eq-sum : (vs : List ℕ) → sum vs < u64_modulus → sum_u64 vs ≡ sum vs
unfolding sum_u64
sum_u64-eq-sum [] h = refl
sum_u64-eq-sum (v ∷ vs) h =
    omega (arith, sum_u64-eq-sum vs (omega arith), add_u64_exact v (sum_u64 vs))

pub sum_u128-eq-sum : (vs : List ℕ) → sum vs < 2 ^ 128 → sum_u128 vs ≡ sum vs
unfolding sum_u128
sum_u128-eq-sum [] h = refl
sum_u128-eq-sum (v ∷ vs) h = omega (arith, sum_u128-eq-sum vs (omega arith))
