-- ===== src/Signature/Primality.antt =====
-- The primality test of src/signature.rs: trial division by small primes, then Miller-Rabin.
use digital_euro_wallet.Prelude.{
  ℕ, zero, suc, ◌-◌, ◌/◌, ◌%◌, ◌^◌, Bool, true, false, ◌||◌, Option, none, some, List, [], ◌∷◌,
  ◌==◌, nat_eq, ltb, if◌then◌else◌,
}
use digital_euro_wallet.Crates.{Crates, KeyCrates, BigRng, BigUint}

abbrev pub small_primes : List ℕ
small_primes =
    3 ∷ 5 ∷ 7 ∷ 11 ∷ 13 ∷ 17 ∷ 19 ∷ 23 ∷ 29 ∷ 31 ∷ 37 ∷ 41 ∷ 43 ∷ 47 ∷ 53 ∷ 59 ∷ 61 ∷ 67 ∷ 71 ∷ 73
    ∷ []

-- `is_even`
abbrev is_even : BigUint → Bool
is_even n = n % 2 == 0

abbrev unwrap_or_zero : Option ℕ → ℕ
unwrap_or_zero none = 0
unwrap_or_zero (some k) = k

module _ ⦃x : Crates⦄ where
  -- the loop over the small primes: its verdict, or `none` when it runs to the end
  unfoldable pub trial_division : List ℕ → BigUint → Option Bool
  trial_division [] n = none
  trial_division (small ∷ smalls) n =
      if n == small
      then some true
      else if x.mod_floor n small == 0
      then some false
      else trial_division smalls n

  -- the inner loop: whether one of the next squares of `x` is `n - 1`
  unfoldable pub squares_hit : ℕ → BigUint → BigUint → Bool
  squares_hit zero n y = false
  squares_hit (suc times) n y =
      let square = x.modpow y 2 n in
      let rest = squares_hit times n square in if square == n - 1 then true else rest

  -- one round of the outer loop for a base: whether it goes on with the next
  unfoldable pub round_passes : BigUint → BigUint → ℕ → BigUint → Bool
  round_passes n odd_part shift base =
      let y = x.modpow base odd_part n in
      if y == 1 || y == n - 1 then true else squares_hit (shift - 1) n y

module _ {G : Type 0} ⦃x : Crates⦄ ⦃g : BigRng G⦄ where
  unfoldable pub run_rounds : ℕ → BigUint → BigUint → ℕ → G → Bool × G
  run_rounds zero n odd_part shift rng = (true, rng)
  run_rounds (suc rounds) n odd_part shift rng =
      let (base, rng') = g.gen_biguint_range 2 (n - 1) rng in
      let rest = run_rounds rounds n odd_part shift rng' in
      if round_passes n odd_part shift base then rest else (false, rng')

  unfoldable pub is_probable_prime : ⦃y : KeyCrates⦄ → BigUint → ℕ → G → Bool × G
  is_probable_prime ⦃y⦄ n rounds rng =
      if ltb n 2
      then (false, rng)
      else if n == 2
      then (true, rng)
      else if is_even n
      then (false, rng)
      else elim (trial_division small_primes n) [
        | some verdict ↦ (verdict, rng)
        | none ↦
            let shift = unwrap_or_zero (y.trailing_zeros (n - 1)) in
            run_rounds rounds n ((n - 1) / 2 ^ shift) shift rng
      ]
