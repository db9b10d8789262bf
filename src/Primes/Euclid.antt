-- ===== src/Primes/Euclid.antt =====
-- Euclid's lemma, and products of two primes.
use digital_euro_wallet.Prelude.{
  ℕ, zero, suc, ◌+◌, ◌*◌, ◌/◌, ◌%◌, ◌<◌, ◌≡◌, ◌≢◌, ◌⊎◌, inl, inr, sym, ap, arith,
}
use Prim.Native.Nat.{◌∣◌}
use mathlib.Core.Path.{subst}
use native.Mathlib.Nat
use native.Mathlib.Decide.{dec_dvd}
use digital_euro_wallet.Primes.{IsPrime}

module _ (p : ℕ) (h : IsPrime p) where
  -- the remainder by a smaller number keeps the divisibility
  remainder-dvd : (a b : ℕ) → p ∣ a * b → p ∣ p % a * b
  remainder-dvd a b d =
      let split : p / a * (a * b) + p % a * b ≡ p * b =
        omega (arith, ap (λ (t : ℕ). t * b) (Nat.div-add-mod p a)) in
      (Nat.dvd-add_iff_right p (Nat.dvd-mul_left_of_dvd p d (p / a))).1
        (subst (◌∣◌ p) (sym split) (Nat.dvd-mul_right p b))

  remainder-pos : (a : ℕ) → 1 < a → a < p → 0 < p % a
  remainder-pos a large less = elim (Nat.eq-zero-or-pos (p % a)) [
    | inr positive ↦ positive
    | inl none_left ↦ elim (h.divisor a (Nat.dvd_of_mod-eq-zero a none_left)) [
      | inl one ↦ absurd (omega (arith, one, large))
      | inr same ↦ absurd (omega (arith, same, less))
    ]
  ]

  dvd-below : (k a b : ℕ) → a < k → 0 < a → a < p → p ∣ a * b → p ∣ b
  dvd-below zero a b small pos less d = absurd (omega (arith, small))
  dvd-below (suc k) a b small pos less d = elim (Nat.eq-or-lt_of_le pos) [
    | inl one ↦ subst (◌∣◌ p) (rw (← one) (Nat.one-mul b)) d
    | inr large ↦
        let shrinks : p % a < a = Nat.mod-lt p pos in
        dvd-below k (p % a) b (omega (arith, shrinks, small)) (remainder-pos a large less)
          (omega (arith, shrinks, less)) (remainder-dvd a b d)
  ]

  -- A prime that divides a product divides one of the factors.
  pub dvd-mul : (a b : ℕ) → p ∣ a * b → (p ∣ a) ⊎ (p ∣ b)
  dvd-mul a b d = elim (dec_dvd p a) [
    | yes first ↦ inl first
    | no other ↦
        let d' : p ∣ a % p * b =
          (Nat.dvd-add_iff_right p (Nat.dvd-mul_right p (a / p * b))).1
            (subst (◌∣◌ p) (omega (arith, ap (λ (t : ℕ). t * b) (Nat.div-add-mod a p))) d) in
        inr (
          dvd-below p (a % p) b (Nat.mod-lt a (omega (arith, h.large)))
            (Nat.emod_pos_of_not-dvd p other) (Nat.mod-lt a (omega (arith, h.large))) d')
  ]

-- Two different primes that divide a number divide it together.
pub mul-dvd : (p q n : ℕ) → IsPrime p → IsPrime q → p ≢ q → p ∣ n → q ∣ n → p * q ∣ n
mul-dvd p q n hp hq ne dp dq =
    let whole : p * (n / p) ≡ n = Nat.mul-div_cancel' p dp in
    elim (dvd-mul q hq p (n / p) (subst (◌∣◌ q) (sym whole) dq)) [
      | inl q_dvd ↦ elim (hp.divisor q q_dvd) [
        | inl one ↦ absurd (omega (arith, one, hq.large))
        | inr same ↦ absurd (ne (sym same))
      ]
      | inr rest ↦ subst (◌∣◌ (p * q)) whole (Nat.mul-dvd-mul_left q p rest)
    ]
