-- ===== src/Signature/Rsa.antt =====
-- The exponents of an RSA key undo one another when its modulus is the product of two primes.
use digital_euro_wallet.Prelude.{ℕ, ◌+◌, ◌-◌, ◌*◌, ◌%◌, ◌^◌, ◌≤◌, ◌<◌, ◌≡◌, ◌≢◌, ◌∙◌, refl, sym, ap}
use Prim.Native.Nat.{◌∣◌}
use native.Mathlib.Nat
use native.Mathlib.Decide.{dec_dvd}
use digital_euro_wallet.Primes.{IsPrime}
use digital_euro_wallet.Primes.Powers.{
  pow-one, one-pow, pow-add, pow-mul, mul-mod, pow-mod, dvd_of_mod-eq, mod-eq_of_dvd, le-pow,
}
use digital_euro_wallet.Primes.Euclid.{mul-dvd}
use digital_euro_wallet.Primes.Fermat.{fermat-coprime}

module _ (p : ℕ) (h : IsPrime p) (m k : ℕ) where
  whole_power : m ^ (1 + (p - 1) * k) ≡ m * (m ^ (p - 1)) ^ k
  whole_power = rw (pow-add m 1 ((p - 1) * k), pow-one m, pow-mul m (p - 1) k) refl

  coprime_power : ¬ (p ∣ m) → (m ^ (p - 1)) ^ k % p ≡ 1
  coprime_power ne =
      sym (pow-mod (m ^ (p - 1)) k p)
      ∙ ap (λ (t : ℕ). t ^ k % p) (fermat-coprime p h m ne)
      ∙ ap (λ (t : ℕ). t % p) (one-pow k)
      ∙ Nat.mod-eq_of_lt h.large

  -- An exponent that leaves 1 by the number below the prime keeps every remainder.
  pub exponent-mod : m ^ (1 + (p - 1) * k) % p ≡ m % p
  exponent-mod =
      let rest = (m ^ (p - 1)) ^ k in
      ap (λ (t : ℕ). t % p) whole_power ∙ elim (dec_dvd p m) [
        | yes divides ↦
            Nat.mod-eq-zero_of_dvd p (Nat.dvd-mul_right_of_dvd p divides rest)
            ∙ sym (Nat.mod-eq-zero_of_dvd p divides)
        | no ne ↦
            mul-mod m rest p
            ∙ ap (λ (t : ℕ). (m % p) * t % p) (coprime_power ne)
            ∙ ap (λ (t : ℕ). t % p) (Nat.mul-one (m % p))
            ∙ Nat.mod-mod m p
      ]

module _ (p q : ℕ) (hp : IsPrime p) (hq : IsPrime q) (ne : p ≢ q) where
  -- An exponent that leaves 1 by `(p - 1) * (q - 1)` keeps every number below `p * q`.
  pub exponent-keeps : (m k : ℕ) → m < p * q → m ^ (1 + (p - 1) * (q - 1) * k) % (p * q) ≡ m
  exponent-keeps m k below =
      let power = m ^ (1 + (p - 1) * (q - 1) * k) in
      let grown : m ≤ power = le-pow m ((p - 1) * (q - 1) * k) in
      let whole : power - m + m ≡ power = Nat.sub-add_cancel grown in
      let by_p : power % p ≡ m % p =
        ap (λ (t : ℕ). m ^ (1 + t) % p) (Nat.mul_assoc (p - 1) (q - 1) k)
        ∙ exponent-mod p hp m ((q - 1) * k) in
      let by_q : power % q ≡ m % q =
        ap (λ (t : ℕ). m ^ (1 + t) % q)
          (ap (λ (t : ℕ). t * k) (Nat.mul_comm (p - 1) (q - 1)) ∙ Nat.mul_assoc (q - 1) (p - 1) k)
        ∙ exponent-mod q hq m ((p - 1) * k) in
      let dvd : p * q ∣ power - m =
        mul-dvd p q (power - m) hp hq ne
          (dvd_of_mod-eq (power - m) m p (ap (λ (t : ℕ). t % p) whole ∙ by_p))
          (dvd_of_mod-eq (power - m) m q (ap (λ (t : ℕ). t % q) whole ∙ by_q)) in
      ap (λ (t : ℕ). t % (p * q)) (sym whole)
      ∙ mod-eq_of_dvd (power - m) m (p * q) dvd
      ∙ Nat.mod-eq_of_lt below
