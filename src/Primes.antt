-- ===== src/Primes.antt =====
-- Prime numbers, for the key generation of src/signature.rs.
pub mod Powers
pub mod Euclid
pub mod Binomial
pub mod Fermat
use digital_euro_wallet.Prelude.{ℕ, ◌<◌, ◌≡◌, ◌⊎◌}
use Prim.Native.Nat.{◌∣◌}

-- Nothing but 1 and the number divides it.
pub record IsPrime (p : ℕ) : Type 0 where
  pub large : 1 < p
  pub divisor : (d : ℕ) → d ∣ p → (d ≡ 1) ⊎ (d ≡ p)
