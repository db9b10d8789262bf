-- ===== src/Tests/Primes.antt =====
-- Small primes.
use digital_euro_wallet.Prelude.{
  ℕ, suc, ◌%◌, ◌<◌, ◌≡◌, refl, true, ◌||◌, not, ◌==◌, nat_eq, arith, Bool,
}
use native.Mathlib.Nat
use digital_euro_wallet.Primes.{IsPrime}
use digital_euro_wallet.Tests.Toy.{residues_pass, residue_passes}

-- 1, the number itself, or no divisor of it
abbrev divides_as_prime : ℕ → ℕ → Bool
divides_as_prime n d = (d == 1 || d == n) || not (n % d == 0)

by_residues : (n : ℕ) → 1 < n → residues_pass (divides_as_prime n) (suc n) ≡ true → IsPrime n
by_residues n large table = record {
  large = large;
  divisor = λ d dvd.
      let below : d < suc n = omega (arith, Nat.le_of_dvd (omega (arith, large)) dvd) in
      ground (
        arith,
        residue_passes (divides_as_prime n) (suc n) d below table,
        Nat.mod-eq-zero_of_dvd d dvd,
      );
}

pub three-IsPrime : IsPrime 3
unfolding residues_pass
three-IsPrime = by_residues 3 (omega arith) refl

pub five-IsPrime : IsPrime 5
unfolding residues_pass
five-IsPrime = by_residues 5 (omega arith) refl

pub eleven-IsPrime : IsPrime 11
unfolding residues_pass
eleven-IsPrime = by_residues 11 (omega arith) refl

pub ninety_seven-IsPrime : IsPrime 97
unfolding residues_pass
ninety_seven-IsPrime = by_residues 97 (omega arith) refl
