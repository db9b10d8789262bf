-- ===== src/Primes/Powers.antt =====
-- Powers, and remainders of products and powers.
use digital_euro_wallet.Prelude.{
  ℕ, zero, suc, ◌+◌, ◌*◌, ◌/◌, ◌%◌, ◌^◌, ◌-◌, ◌≤◌, ◌≡◌, ◌∙◌, refl, sym, ap, arith,
}
use Prim.Native.Nat.{◌∣◌}
use mathlib.Core.Path.{subst}
use native.Mathlib.Nat

pub pow-one : (a : ℕ) → a ^ 1 ≡ a
pow-one a = rw (Nat.pow-suc a 0, Nat.pow-zero a, Nat.one-mul) refl

pub pow-two : (a : ℕ) → a ^ 2 ≡ a * a
pow-two a = rw (Nat.pow-suc a 1, pow-one a) refl

pub one-pow : (n : ℕ) → 1 ^ n ≡ 1
one-pow zero = refl
one-pow (suc n) = rw (Nat.pow-suc 1 n, one-pow n) refl

pub pow-add : (a m n : ℕ) → a ^ (m + n) ≡ a ^ m * a ^ n
pow-add a m zero = rw (Nat.add-zero, Nat.pow-zero, Nat.mul-one) refl
pow-add a m (suc n) = rw (Nat.add-suc, Nat.pow-suc, Nat.pow-suc, pow-add a m n) (omega arith)

pub pow-mul : (a m n : ℕ) → a ^ (m * n) ≡ (a ^ m) ^ n
pow-mul a m zero = rw (Nat.mul-zero, Nat.pow-zero, Nat.pow-zero) refl
pow-mul a m (suc n) = rw (Nat.mul-suc, pow-add, Nat.pow-suc, pow-mul a m n) refl

pub mul-mod : (a b m : ℕ) → a * b % m ≡ (a % m) * (b % m) % m
mul-mod a b m =
    let split : a * b ≡ (a % m) * (b % m) + m * ((a / m) * b + (a % m) * (b / m)) = omega (
      arith,
      ap (λ (t : ℕ). t * b) (Nat.div-add-mod a m),
      ap (λ (t : ℕ). (a % m) * t) (Nat.div-add-mod b m),
    ) in
    ap (λ (t : ℕ). t % m) split ∙ Nat.add-mul-mod_self_left _ m _

pub pow-mod : (a n m : ℕ) → (a % m) ^ n % m ≡ a ^ n % m
pow-mod a zero m = rw (Nat.pow-zero (a % m), Nat.pow-zero a) refl
pow-mod a (suc n) m =
    rw
      (
        Nat.pow-suc,
        Nat.pow-suc,
        mul-mod (a ^ n) a m,
        mul-mod ((a % m) ^ n) (a % m) m,
        pow-mod a n m,
        Nat.mod-mod,
      )
      refl

-- What leaves the remainder as it is, is a multiple.
pub dvd_of_mod-eq : (x a m : ℕ) → (x + a) % m ≡ a % m → m ∣ x
dvd_of_mod-eq x a m e =
    let split : m * ((x + a) / m) - m * (a / m) ≡ x =
      omega (arith, e, Nat.div-add-mod (x + a) m, Nat.div-add-mod a m) in
    subst (◌∣◌ m) split
      (Nat.dvd-sub m (Nat.dvd-mul_right m ((x + a) / m)) (Nat.dvd-mul_right m (a / m)))

pub mod-eq_of_dvd : (x a m : ℕ) → m ∣ x → (x + a) % m ≡ a % m
mod-eq_of_dvd x a m d =
    ap (λ (t : ℕ). (t + a) % m) (sym (Nat.mul-div_cancel' m d))
    ∙ Nat.mul-add-mod_self_left m (x / m) a

pub le-pow : (a n : ℕ) → a ≤ a ^ (1 + n)
le-pow zero n = omega arith
le-pow (suc a) n =
    let rest : 1 ≤ suc a ^ n = Nat.one-le-pow n (suc a) (omega arith) in
    rw (pow-add (suc a) 1 n, pow-one (suc a)) (omega (arith, Nat.mul-le-mul_left (suc a) rest))
