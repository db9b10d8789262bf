-- ===== src/Crates.antt =====
-- What the program takes from the crates sha2, num-bigint, num-integer and rand, as parameters.
-- A `BigUint` is the number that it denotes; the operations whose code is not the repository's
-- are fields, and what their documentation promises is the record `AreDocumented`.
use digital_euro_wallet.Prelude.{
  if◌then◌else◌, ◌==◌, nat_eq, ℕ, ◌+◌, ◌*◌, ◌/◌, ◌%◌, ◌^◌, ◌<◌, ◌≤◌, ◌≡◌, Bytes, length, Option,
  some,
}
use digital_euro_wallet.Prelude.Int.{ℤ, pos, pos_part, neg_part}

abbrev pub BigUint : Type 0
BigUint = ℕ

pub record Crates : Type 0 where
  -- `Sha256::new()`, `update` with the pieces in turn, `finalize()`: the hash of their concatenation
  pub sha256 : Bytes → Bytes
  -- `base.modpow(&exponent, &modulus)`
  pub modpow : BigUint → BigUint → BigUint → BigUint
  -- `a.mod_floor(&b)`
  pub mod_floor : BigUint → BigUint → BigUint
  pub bits : BigUint → ℕ
  pub to_bytes_be : BigUint → Bytes
  pub from_bytes_be : Bytes → BigUint

pub record AreDocumented (x : Crates) : Type 0 where
  pub length-sha256 : (m : Bytes) → length (x.sha256 m) ≡ 32
  pub modpow_lem : (b e n : BigUint) → 0 < n → x.modpow b e n ≡ b ^ e % n
  pub mod_floor_lem : (a n : BigUint) → 0 < n → x.mod_floor a n ≡ a % n
  pub from_bytes_be-to_bytes_be : (n : BigUint) → x.from_bytes_be (x.to_bytes_be n) ≡ n

-- A generator `R: Rng`: each draw returns the generator's next state too.
pub record Rng (R : Type 0) : Type 0 where
  -- `gen::<[u8; 16]>()`
  pub gen_bytes16 : R → Bytes × R

-- A generator that `gen_range(low..high)` is called on; `none` is its panic on an empty range.
pub record RangeRng (G : Type 0) : Type 0 where
  pub gen_range : ℕ → ℕ → G → Option (ℕ × G)

pub record IsRangeRng {G : Type 0} (g : RangeRng G) : Type 0 where
  pub gen_range-within :
      (low high : ℕ) (rng : G)
      → low < high
      → (v : ℕ) × (rng' : G) × (g.gen_range low high rng ≡ some (v, rng')) × (low ≤ v) × (v < high)

-- What key generation takes from num-bigint and num-integer besides. `BigInt` is the integer that it
-- denotes.
pub record KeyCrates : Type 0 where
  -- `a.gcd(&b)`
  pub gcd : BigUint → BigUint → BigUint
  -- `a.extended_gcd(&b)`: its fields `gcd` and `x`
  pub extended_gcd : ℤ → ℤ → ℤ × ℤ
  -- `mod_floor` of `BigInt`
  pub mod_floor_int : ℤ → ℤ → ℤ
  pub trailing_zeros : BigUint → Option ℕ
  -- `n.set_bit(k, true)`
  pub set_bit : BigUint → ℕ → BigUint

pub record AreKeyCratesDocumented (y : KeyCrates) : Type 0 where
  -- both report the one greatest common divisor
  pub extended_gcd_lem : (a b : BigUint) → (y.extended_gcd (pos a) (pos b)).0 ≡ pos (y.gcd b a)
  -- `x` is a coefficient of Bézout's identity for the two: `a * x` and the greatest common divisor
  -- differ by a multiple of `b`
  pub extended_gcd-bezout :
      (a b : BigUint)
      → let c = (y.extended_gcd (pos a) (pos b)).1 in
        (j l : ℕ) × (a * pos_part c + b * j ≡ a * neg_part c + b * l + y.gcd b a)
  -- by a positive number, the floored remainder is not negative, below it, and differs from the
  -- dividend by a multiple of it
  pub mod_floor_int_lem :
      (c : ℤ) (m : BigUint)
      → 0 < m
      → (r : BigUint) × (y.mod_floor_int c (pos m) ≡ pos r)
        × (r < m)
        × (j : ℕ) × (l : ℕ) × (pos_part c + m * j ≡ neg_part c + r + m * l)
  -- the exponent of 2 in a positive number
  pub trailing_zeros_lem :
      (n : BigUint)
      → 0 < n
      → (k : ℕ) × (odd : ℕ) × (y.trailing_zeros n ≡ some k) × (n ≡ 2 ^ k * odd) × (odd % 2 ≡ 1)

-- `set_bit(k, true)` adds the power of two of a bit that is not set, and keeps a number where it is.
pub record AreBitsDocumented (y : KeyCrates) : Type 0 where
  pub set_bit_lem :
      (n : BigUint) (k : ℕ) → y.set_bit n k ≡ (if n / 2 ^ k % 2 == 1 then n else n + 2 ^ k)

-- A generator that `gen_biguint(bits)` and `gen_biguint_range(&low, &high)` are called on.
pub record BigRng (G : Type 0) : Type 0 where
  pub gen_biguint : ℕ → G → BigUint × G
  pub gen_biguint_range : BigUint → BigUint → G → BigUint × G

pub record IsBigRng {G : Type 0} (g : BigRng G) : Type 0 where
  pub gen_biguint_range-within :
      (low high : BigUint) (rng : G)
      → low < high
      → let drawn = (g.gen_biguint_range low high rng).0 in (low ≤ drawn) × (drawn < high)

-- `gen_biguint(bits)` draws a number of at most so many bits.
pub record IsSizedRng {G : Type 0} (g : BigRng G) : Type 0 where
  pub gen_biguint-below : (bits : ℕ) (rng : G) → (g.gen_biguint bits rng).0 < 2 ^ bits

-- `StdRng::seed_from_u64(seed)`
pub record SeedableRng (S : Type 0) : Type 0 where
  pub seed_from_u64 : ℕ → S
