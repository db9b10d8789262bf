-- ===== src/Primes/Binomial.antt =====
-- Binomial coefficients, and the powers of a successor.
use digital_euro_wallet.Prelude.{ℕ, zero, suc, ◌+◌, ◌*◌, ◌^◌, ◌<◌, ◌≡◌, refl, ap, arith}
use native.Mathlib.Nat

unfoldable pub choose : ℕ → ℕ → ℕ
choose n zero = 1
choose zero (suc k) = 0
choose (suc n) (suc k) = choose n k + choose n (suc k)

pub choose-above : (n k : ℕ) → n < k → choose n k ≡ 0
unfolding choose
choose-above n zero h = absurd (omega (arith, h))
choose-above zero (suc k) h = refl
choose-above (suc n) (suc k) h =
    rw (choose-above n k (omega (arith, h)), choose-above n (suc k) (omega (arith, h))) refl

pub choose_self : (n : ℕ) → choose n n ≡ 1
unfolding choose
choose_self zero = refl
choose_self (suc n) = rw (choose_self n, choose-above n (suc n) (omega arith)) refl

pub choose_absorb : (n k : ℕ) → suc k * choose (suc n) (suc k) ≡ suc n * choose n k
unfolding choose
choose_absorb zero zero = refl
choose_absorb zero (suc k) = omega arith
choose_absorb (suc n) zero = omega (arith, choose_absorb n zero)
choose_absorb (suc n) (suc k) = omega (arith, choose_absorb n k, choose_absorb n (suc k))

-- the sum of `choose n j * a ^ j` over the `j` below `k`
unfoldable pub terms : ℕ → ℕ → ℕ → ℕ
terms a n zero = 0
terms a n (suc k) = terms a n k + choose n k * a ^ k

terms-suc : (a n k : ℕ) → terms a (suc n) (suc k) ≡ terms a n (suc k) + a * terms a n k
unfolding terms choose
terms-suc a n zero = omega arith
terms-suc a n (suc k) =
    omega (arith, terms-suc a n k, ap (λ (t : ℕ). choose n k * t) (Nat.pow-suc a k))

pub binomial : (a n : ℕ) → suc a ^ n ≡ terms a n (suc n)
unfolding terms choose
binomial a zero = rw (Nat.pow-zero (suc a), Nat.pow-zero a) refl
binomial a (suc n) = omega (
  arith,
  Nat.pow-suc (suc a) n,
  ap (λ (t : ℕ). t * suc a) (binomial a n),
  terms-suc a n (suc n),
  ap (λ (t : ℕ). t * a ^ suc n) (choose-above n (suc n) (omega arith)),
)
