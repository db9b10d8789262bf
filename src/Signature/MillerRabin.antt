-- ===== src/Signature/MillerRabin.antt =====
-- The primality test of src/signature.rs on primes.
use digital_euro_wallet.Prelude.{
  ℕ, zero, suc, ◌+◌, ◌-◌, ◌*◌, ◌/◌, ◌%◌, ◌^◌, ◌<◌, ◌≡◌, ◌≢◌, ◌∙◌, ◌⊎◌, inl, inr, refl, sym, ap,
  true, none, some, List, [], ◌∷◌, arith, Every, nat_eq,
}
use Prim.Native.Nat.{◌∣◌}
use mathlib.Core.Path.{subst}
use native.Mathlib.Nat
use digital_euro_wallet.Primes.{IsPrime}
use digital_euro_wallet.Primes.Powers.{pow-two, pow-mul, pow-mod, dvd_of_mod-eq}
use digital_euro_wallet.Primes.Euclid.{dvd-mul}
use digital_euro_wallet.Primes.Fermat.{fermat-coprime}
use digital_euro_wallet.Crates.{
  Crates, KeyCrates, BigRng, AreDocumented, AreKeyCratesDocumented, IsBigRng,
}
use digital_euro_wallet.Signature.Primality.{
  small_primes, trial_division, squares_hit, round_passes, run_rounds, is_probable_prime,
}

module _ (n : ℕ) (h : IsPrime n) where
  -- Modulo a prime only 1 and its negative square to 1.
  root_of_one : (z : ℕ) → z < n → z ^ 2 % n ≡ 1 → (z ≡ 1) ⊎ (z ≡ n - 1)
  root_of_one zero less e =
      let none_left : 0 ^ 2 % n ≡ 0 = ap (λ (t : ℕ). t % n) (pow-two 0) ∙ Nat.zero-mod n in
      absurd (omega (arith, none_left, e))
  root_of_one (suc z) less e =
      let square : z * (z + 2) + 1 ≡ suc z ^ 2 = rw (pow-two (suc z)) (omega arith) in
      let dvd : n ∣ z * (z + 2) =
        dvd_of_mod-eq (z * (z + 2)) 1 n
          (ap (λ (t : ℕ). t % n) square ∙ e ∙ sym (Nat.mod-eq_of_lt h.large)) in
      elim (dvd-mul n h z (z + 2) dvd) [
        | inl low ↦ elim (Nat.eq-zero-or-pos z) [
          | inl nothing ↦ inl (omega (arith, nothing))
          | inr some_left ↦ absurd (omega (arith, Nat.le_of_dvd some_left low, less))
        ]
        | inr high ↦ inr (omega (arith, Nat.le_of_dvd (omega arith) high, less))
      ]

  module _ ⦃x : Crates⦄ (doc : AreDocumented x) where
    positive : 0 < n
    positive = omega (arith, h.large)

    -- With so many squarings to 1, the base is 1, or one of them is `n - 1`.
    squares-hit :
        (k y : ℕ)
        → y < n
        → y ^ (2 ^ suc k) % n ≡ 1
        → (y ≡ 1) ⊎ ((y ≡ n - 1) ⊎ (squares_hit k n y ≡ true))
    unfolding squares_hit
    squares-hit zero y less e = elim (root_of_one y less e) [
      | inl one ↦ inl one
      | inr last ↦ inr (inl last)
    ]
    squares-hit (suc k) y less e =
        let z = x.modpow y 2 n in
        let is : z ≡ y ^ 2 % n = doc.modpow_lem y 2 n positive in
        let less' : z < n = rw is (Nat.mod-lt (y ^ 2) positive) in
        let e' : z ^ (2 ^ suc k) % n ≡ 1 =
          ap (λ (t : ℕ). t ^ (2 ^ suc k) % n) is
          ∙ pow-mod (y ^ 2) (2 ^ suc k) n
          ∙ ap (λ (t : ℕ). t % n) (sym (pow-mul y 2 (2 ^ suc k)))
          ∙ ap (λ (t : ℕ). y ^ t % n) (sym (Nat.pow-succ' 2 (suc k)))
          ∙ e in
        elim (squares-hit k z less' e') [
          | inl one ↦ elim (root_of_one y less (sym is ∙ one)) [
            | inl first ↦ inl first
            | inr last ↦ inr (inl last)
          ]
          | inr (inl last) ↦ inr (inr (ground (arith, last)))
          | inr (inr later) ↦ inr (inr (ground (arith, later)))
        ]

    -- What one round does with a base that the prime does not divide.
    round_passes-prime :
        (odd k base : ℕ)
        → n - 1 ≡ 2 ^ suc k * odd
        → ¬ (n ∣ base)
        → round_passes n odd (suc k) base ≡ true
    unfolding round_passes
    round_passes-prime odd k base split ne =
        let y = x.modpow base odd n in
        let is : y ≡ base ^ odd % n = doc.modpow_lem base odd n positive in
        let less : y < n = rw is (Nat.mod-lt (base ^ odd) positive) in
        let e : y ^ (2 ^ suc k) % n ≡ 1 =
          ap (λ (t : ℕ). t ^ (2 ^ suc k) % n) is
          ∙ pow-mod (base ^ odd) (2 ^ suc k) n
          ∙ ap (λ (t : ℕ). t % n) (sym (pow-mul base odd (2 ^ suc k)))
          ∙ ap (λ (t : ℕ). base ^ t % n) (Nat.mul_comm odd (2 ^ suc k) ∙ sym split)
          ∙ fermat-coprime n h base ne in
        ground (arith, squares-hit k y less e)

    run_rounds-prime :
        {G : Type 0} ⦃g : BigRng G⦄ (range : IsBigRng g) (odd k : ℕ)
        → 3 < n
        → n - 1 ≡ 2 ^ suc k * odd
        → (rounds : ℕ) (rng : G) → (run_rounds rounds n odd (suc k) rng).0 ≡ true
    unfolding run_rounds
    run_rounds-prime range odd k large split zero rng = refl
    run_rounds-prime ⦃g⦄ range odd k large split (suc rounds) rng =
        let (base, rng') = g.gen_biguint_range 2 (n - 1) rng in
        let (low, high) = range.gen_biguint_range-within 2 (n - 1) rng (omega (arith, large)) in
        let ne : ¬ (n ∣ base) = λ d. omega (arith, Nat.le_of_dvd (omega (arith, low)) d, high) in
        ground (
          arith,
          round_passes-prime odd k base split ne,
          run_rounds-prime range odd k large split rounds rng',
        )

    divided : (s : ℕ) → 1 < s → n % s ≡ 0 → n ≡ s
    divided s above e = elim (h.divisor s (Nat.dvd_of_mod-eq-zero s e)) [
      | inl one ↦ absurd (omega (arith, one, above))
      | inr same ↦ sym same
    ]

    -- A prime is not divided by a smaller number above 1.
    trial_division-prime :
        (smalls : List ℕ)
        → Every smalls (λ s. 1 < s)
        → (trial_division smalls n ≡ some true)
          ⊎ ((trial_division smalls n ≡ none) × Every smalls (λ s. n ≢ s))
    unfolding trial_division
    trial_division-prime [] tt = inr (refl, tt)
    trial_division-prime (s ∷ smalls) (above, rest) = ground (
      arith,
      doc.mod_floor_lem n s (omega (arith, above)),
      divided (s) above,
      trial_division-prime smalls rest,
    )

    small_primes-above : Every small_primes (λ s. 1 < s)
    small_primes-above = ground arith

    odd_prime : 2 < n → n % 2 ≡ 1
    odd_prime large = grind (arith, divided 2 (omega arith), large)

    -- One less than an odd number is twice at least once.
    halved : (k odd : ℕ) → 2 < n → n - 1 ≡ 2 ^ k * odd → odd % 2 ≡ 1 → (j : ℕ) × (k ≡ suc j)
    halved zero odd large split odd_left =
        absurd (omega (arith, split, odd_left, odd_prime large, large))
    halved (suc j) odd large split odd_left = (j, refl)

    -- Every prime passes the primality test, whatever bases are drawn and however many rounds are asked
    -- for.
    pub is_probable_prime_complete :
        {G : Type 0} ⦃y : KeyCrates⦄ ⦃g : BigRng G⦄ (keys : AreKeyCratesDocumented y)
        (range : IsBigRng g) (rounds : ℕ) (rng : G)
        → (is_probable_prime n rounds rng).0 ≡ true
    unfolding is_probable_prime
    is_probable_prime_complete ⦃y⦄ keys range rounds rng = elim (Nat.eq-or-lt_of_le h.large) [
      | inl two ↦ ground (arith, two)
      | inr above ↦ elim (trial_division-prime small_primes small_primes-above) [
        | inl found ↦ ground (arith, found, above, odd_prime above)
        | inr (undecided, (no_three, _)) ↦
            let (k, odd, zeros, split, odd_left) =
              keys.trailing_zeros_lem (n - 1) (omega (arith, above)) in
            let (j, at_least) = halved k odd above split odd_left in
            let rest : (n - 1) / 2 ^ k ≡ odd =
              ap (λ (t : ℕ). t / 2 ^ k) split
              ∙ Nat.mul-div_cancel_left odd (Nat.one-le-pow k 2 (omega arith)) in
            let rounds_pass =
              run_rounds-prime range odd j (omega (arith, above, no_three))
                (subst (λ (t : ℕ). n - 1 ≡ 2 ^ t * odd) at_least split) rounds rng in
            rw (is_probable_prime, undecided, zeros, rest, at_least)
              (ground (arith, above, odd_prime above, rounds_pass))
      ]
    ]
