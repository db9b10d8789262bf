-- ===== src/Primes/Fermat.antt =====
-- Fermat's little theorem.
use digital_euro_wallet.Prelude.{
  ℕ, zero, suc, ◌+◌, ◌-◌, ◌*◌, ◌/◌, ◌%◌, ◌^◌, ◌≤◌, ◌<◌, ◌≡◌, ◌∙◌, inl, inr, sym, ap, arith,
}
use Prim.Native.Nat.{◌∣◌}
use mathlib.Core.Path.{subst}
use native.Mathlib.Nat
use digital_euro_wallet.Primes.{IsPrime}
use digital_euro_wallet.Primes.Powers.{dvd_of_mod-eq}
use digital_euro_wallet.Primes.Euclid.{dvd-mul}
use digital_euro_wallet.Primes.Binomial.{choose, choose_self, choose_absorb, terms, binomial}

zero-pow : (n : ℕ) → 1 < n → 0 ^ n ≡ 0
zero-pow zero h = absurd (omega (arith, h))
zero-pow (suc n) h = rw (Nat.pow-suc 0 n) (Nat.mul-zero (0 ^ n))

module _ (p : ℕ) (h : IsPrime p) where
  dvd-choose : (k : ℕ) → suc k < p → p ∣ choose p (suc k)
  dvd-choose k less =
      let n = p - 1 in
      let whole : suc k * choose p (suc k) ≡ p * choose n k =
        subst (λ (t : ℕ). suc k * choose t (suc k) ≡ t * choose n k) (omega (arith, h.large))
          (choose_absorb n k) in
      elim (dvd-mul p h (suc k) (choose p (suc k))
        (subst (◌∣◌ p) (sym whole) (Nat.dvd-mul_right p (choose n k)))) [
          | inr dvd ↦ dvd
          | inl dvd ↦ absurd (omega (arith, Nat.le_of_dvd (omega arith) dvd, less))
        ]

  terms-mod : (a k : ℕ) → k < p → terms a p (suc k) % p ≡ 1
  unfolding terms choose
  terms-mod a zero less = rw (Nat.pow-zero a) (Nat.mod-eq_of_lt h.large)
  terms-mod a (suc k) less =
      let c = choose p (suc k) in
      let t = terms a p (suc k) in
      let whole : t + c * a ^ suc k ≡ t + p * (c / p * a ^ suc k) =
        omega (arith, ap (λ (u : ℕ). u * a ^ suc k) (Nat.mul-div_cancel' p (dvd-choose k less))) in
      ap (λ (u : ℕ). u % p) whole
      ∙ Nat.add-mul-mod_self_left t p (c / p * a ^ suc k)
      ∙ terms-mod a k (omega (arith, less))

  suc-pow-mod : (a : ℕ) → suc a ^ p % p ≡ (1 + a ^ p) % p
  unfolding terms
  suc-pow-mod a =
      let top : terms a p p % p ≡ 1 =
        subst (λ (t : ℕ). terms a p t % p ≡ 1) {x = suc (p - 1)} (omega (arith, h.large))
          (terms-mod a (p - 1) (omega (arith, h.large))) in
      let last : suc a ^ p ≡ terms a p p + a ^ p =
        binomial a p
        ∙ ap (λ (t : ℕ). terms a p p + t * a ^ p) (choose_self p)
        ∙ ap (λ (t : ℕ). terms a p p + t) (Nat.one-mul (a ^ p)) in
      ap (λ (t : ℕ). t % p) last
      ∙ sym (Nat.mod-add-mod (terms a p p) p (a ^ p))
      ∙ ap (λ (t : ℕ). (t + a ^ p) % p) top

  -- Fermat's little theorem.
  pub fermat : (a : ℕ) → a ^ p % p ≡ a % p
  fermat zero = ap (λ (t : ℕ). t % p) (zero-pow p h.large)
  fermat (suc a) =
      suc-pow-mod a
      ∙ sym (Nat.add-mod-mod 1 (a ^ p) p)
      ∙ ap (λ (t : ℕ). (1 + t) % p) (fermat a)
      ∙ Nat.add-mod-mod 1 a p
      ∙ ap (λ (t : ℕ). t % p) (omega arith)

  -- For a base that the prime does not divide, the power below the prime leaves 1.
  pub fermat-coprime : (a : ℕ) → ¬ (p ∣ a) → a ^ (p - 1) % p ≡ 1
  fermat-coprime a ne =
      let m = a ^ (p - 1) in
      let positive : 0 < a =
        Nat.pos_of_ne-zero (λ z. ne (subst (◌∣◌ p) (sym z) (Nat.dvd-zero p))) in
      let least : 1 ≤ m = Nat.one-le-pow (p - 1) a positive in
      let whole : a * (m - 1) + a ≡ a ^ p =
        subst (λ (t : ℕ). a * (m - 1) + a ≡ a ^ t) {x = suc (p - 1)} (omega (arith, h.large))
          (rw (Nat.pow-suc a (p - 1))
            (omega (arith, ap (λ (t : ℕ). a * t) (Nat.sub-add_cancel least)))) in
      let dvd : p ∣ a * (m - 1) =
        dvd_of_mod-eq (a * (m - 1)) a p (ap (λ (t : ℕ). t % p) whole ∙ fermat a) in
      elim (dvd-mul p h a (m - 1) dvd) [
        | inl first ↦ absurd (ne first)
        | inr second ↦
            subst (λ (t : ℕ). t % p ≡ 1) {x = 1 + p * ((m - 1) / p)}
              (omega (arith, least, Nat.mul-div_cancel' p second))
              (Nat.add-mul-mod_self_left 1 p ((m - 1) / p) ∙ Nat.mod-eq_of_lt h.large)
      ]
