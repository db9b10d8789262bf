-- ===== src/Signature/Bases.antt =====
-- What the Miller-Rabin rounds of src/signature.rs show of the number that they accept.
use mathlib.Core.Path.{subst}
use native.Mathlib.Nat
use digital_euro_wallet.Prelude.{
  ℕ, zero, suc, ◌+◌, ◌-◌, ◌*◌, ◌/◌, ◌%◌, ◌^◌, ◌<◌, ◌≡◌, ◌≢◌, ◌∙◌, refl, sym, ap, Bool, true, arith,
  ◌==◌, nat_eq, Bool-cases, inl, inr,
}
use digital_euro_wallet.Primes.Powers.{pow-two, pow-mul, pow-mod, one-pow}
use digital_euro_wallet.Crates.{Crates, KeyCrates, BigRng, AreDocumented, AreKeyCratesDocumented}
use digital_euro_wallet.Signature.Primality.{
  squares_hit, round_passes, run_rounds, is_probable_prime,
}
use digital_euro_wallet.Signature.Trial.{accepted_odd, trial_division_undecided}

-- The bases that so many rounds draw are units modulo the number, as Fermat's little theorem has it
-- for a prime.
abbrev pub PassFermat : {G : Type 0} ⦃g : BigRng G⦄ → ℕ → ℕ → G → Type 0
PassFermat n zero rng = Unit
PassFermat ⦃g⦄ n (suc rounds) rng =
    let (base, rng') = g.gen_biguint_range 2 (n - 1) rng in
    (base ^ (n - 1) % n ≡ 1) × PassFermat n rounds rng'

square_below : (n : ℕ) → 2 < n → (n - 1) * (n - 1) ≡ 1 + n * (n - 2)
square_below zero large = absurd (omega (arith, large))
square_below (suc zero) large = absurd (omega (arith, large))
square_below (suc (suc m)) large =
    let one : suc (suc m) - 1 ≡ suc m = omega arith in
    let two : suc (suc m) - 2 ≡ m = omega arith in rw (one, two) (omega arith)

-- One less than an odd number is twice at least once.
halved_once :
    (n k odd : ℕ) → 2 < n → n % 2 ≢ 0 → n - 1 ≡ 2 ^ k * odd → odd % 2 ≡ 1 → (j : ℕ) × (k ≡ suc j)
halved_once n zero odd large n_odd split odd_left =
    absurd (n_odd (omega (arith, split, odd_left, large)))
halved_once n (suc j) odd large n_odd split odd_left = (j, refl)

module _ ⦃x : Crates⦄ (doc : AreDocumented x) (n : ℕ) (large : 2 < n) where
  positive : 0 < n
  positive = omega (arith, large)

  one_stays : (j : ℕ) → 1 ^ j % n ≡ 1
  one_stays j = ap (λ (t : ℕ). t % n) (one-pow j) ∙ Nat.mod-eq_of_lt (omega (arith, large))

  -- The square of `n - 1` is 1, and so is what comes after it.
  last_squared : (n - 1) ^ 2 % n ≡ 1
  last_squared =
      let square : (n - 1) * (n - 1) ≡ 1 + n * (n - 2) = square_below n large in
      ap (λ (t : ℕ). t % n) (pow-two (n - 1) ∙ square)
      ∙ Nat.add-mul-mod_self_left 1 n (n - 2)
      ∙ Nat.mod-eq_of_lt (omega (arith, large))

  power_doubled : (y k : ℕ) → y ^ (2 ^ suc k) % n ≡ (y ^ 2 % n) ^ (2 ^ k) % n
  power_doubled y k =
      ap (λ (t : ℕ). y ^ t % n) (Nat.pow-succ' 2 k)
      ∙ ap (λ (t : ℕ). t % n) (pow-mul y 2 (2 ^ k))
      ∙ sym (pow-mod (y ^ 2) (2 ^ k) n)

  last_stays : (k : ℕ) → (n - 1) ^ (2 ^ suc k) % n ≡ 1
  last_stays k =
      power_doubled (n - 1) k ∙ ap (λ (t : ℕ). t ^ (2 ^ k) % n) last_squared ∙ one_stays (2 ^ k)

  squares_hit-unit : (k y : ℕ) → squares_hit k n y ≡ true → y ^ (2 ^ suc k) % n ≡ 1
  unfolding squares_hit
  squares_hit-unit zero y h = absurd (ground (arith, h))
  squares_hit-unit (suc k) y h =
      let z = x.modpow y 2 n in
      let is : z ≡ y ^ 2 % n = doc.modpow_lem y 2 n positive in
      let shifted : y ^ (2 ^ suc (suc k)) % n ≡ z ^ (2 ^ suc k) % n =
        power_doubled y (suc k) ∙ ap (λ (t : ℕ). t ^ (2 ^ suc k) % n) (sym is) in
      elim (Bool-cases (z == n - 1)) [
        | inl last ↦
            let e : z ≡ n - 1 = ground (arith, last) in
            shifted ∙ ap (λ (t : ℕ). t ^ (2 ^ suc k) % n) e ∙ last_stays k
        | inr other ↦ shifted ∙ squares_hit-unit k z (ground (arith, h, other))
      ]

  -- A base with which a round goes on is a unit of that order.
  round_passes-unit :
      (odd k base : ℕ)
      → n - 1 ≡ 2 ^ suc k * odd
      → round_passes n odd (suc k) base ≡ true
      → base ^ (n - 1) % n ≡ 1
  unfolding round_passes
  round_passes-unit odd k base split h =
      let y = x.modpow base odd n in
      let is : y ≡ base ^ odd % n = doc.modpow_lem base odd n positive in
      let shifted : base ^ (n - 1) % n ≡ y ^ (2 ^ suc k) % n =
        ap (λ (t : ℕ). base ^ t % n) (split ∙ Nat.mul_comm (2 ^ suc k) odd)
        ∙ ap (λ (t : ℕ). t % n) (pow-mul base odd (2 ^ suc k))
        ∙ sym (pow-mod (base ^ odd) (2 ^ suc k) n)
        ∙ ap (λ (t : ℕ). t ^ (2 ^ suc k) % n) (sym is) in
      elim (Bool-cases (y == 1)) [
        | inl first ↦
            let e : y ≡ 1 = ground (arith, first) in
            shifted ∙ ap (λ (t : ℕ). t ^ (2 ^ suc k) % n) e ∙ one_stays (2 ^ suc k)
        | inr not_one ↦ elim (Bool-cases (y == n - 1)) [
          | inl last ↦
              let e : y ≡ n - 1 = ground (arith, last) in
              shifted ∙ ap (λ (t : ℕ). t ^ (2 ^ suc k) % n) e ∙ last_stays k
          | inr other ↦
              shifted
              ∙ (let hit : squares_hit (suc k - 1) n y ≡ true = ground (arith, h, not_one, other) in
                  let before : suc k - 1 ≡ k = omega arith in
                  squares_hit-unit k y (rw before at hit))
        ]
      ]

  run_rounds-PassFermat :
      {G : Type 0} ⦃g : BigRng G⦄ (odd k : ℕ)
      → n - 1 ≡ 2 ^ suc k * odd
      → (rounds : ℕ) (rng : G) → (run_rounds rounds n odd (suc k) rng).0 ≡ true
      → PassFermat n rounds rng
  unfolding run_rounds
  run_rounds-PassFermat odd k split zero rng h = tt
  run_rounds-PassFermat ⦃g⦄ odd k split (suc rounds) rng h =
      let (base, rng') = g.gen_biguint_range 2 (n - 1) rng in
      elim (Bool-cases (round_passes n odd (suc k) base)) [
        | inl passes ↦ (
          round_passes-unit odd k base split passes,
          run_rounds-PassFermat odd k split rounds rng' (ground (arith, h, passes)),
        )
        | inr fails ↦ absurd (ground (arith, h, fails))
      ]

module _ {G : Type 0} ⦃x : Crates⦄ ⦃y : KeyCrates⦄ ⦃g : BigRng G⦄ (doc : AreDocumented x)
    (keys : AreKeyCratesDocumented y) where
  -- A number above 73 that the primality test accepts satisfies Fermat's little theorem for every
  -- base that its rounds draw, as many as are asked for; when the crates are as documented.
  pub is_probable_prime-PassFermat :
      (n rounds : ℕ) (rng : G)
      → 73 < n
      → (is_probable_prime n rounds rng).0 ≡ true
      → PassFermat n rounds rng
  unfolding is_probable_prime
  is_probable_prime-PassFermat n rounds rng large accepted =
      let (k, odd, zeros, split, odd_left) =
        keys.trailing_zeros_lem (n - 1) (omega (arith, large)) in
      let n_odd = accepted_odd doc n rounds rng large accepted in
      let undecided = trial_division_undecided doc n rounds rng large accepted in
      let (j, at_least) = halved_once n k odd (omega (arith, large)) n_odd split odd_left in
      let rest : (n - 1) / 2 ^ k ≡ odd =
        ap (λ (t : ℕ). t / 2 ^ k) split
        ∙ Nat.mul-div_cancel_left odd (Nat.one-le-pow k 2 (omega arith)) in
      let same : is_probable_prime n rounds rng ≡ run_rounds rounds n odd (suc j) rng =
        rw (is_probable_prime, undecided, zeros, rest, at_least) (ground (arith, large, n_odd)) in
      run_rounds-PassFermat doc n (omega (arith, large)) odd j
        (subst (λ (t : ℕ). n - 1 ≡ 2 ^ t * odd) at_least split) rounds rng
        (ap (λ (t : Bool × G). t.0) (sym same) ∙ accepted)
