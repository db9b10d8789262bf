-- ===== src/Signature/Candidates.antt =====
-- The size of what the search for a prime of src/signature.rs returns.
use digital_euro_wallet.Prelude.{
  ℕ, zero, suc, ◌+◌, ◌-◌, ◌*◌, ◌/◌, ◌%◌, ◌^◌, ◌≤◌, ◌<◌, ◌≡◌, ◌≢◌, ◌∙◌, refl, ap, some, arith, ◌==◌,
  ltb, nat_eq, true, if◌then◌else◌, Bool-cases, inl, inr,
}
use native.Mathlib.Nat
use digital_euro_wallet.Primes.Powers.{pow-add}
use digital_euro_wallet.Crates.{
  Crates, KeyCrates, BigRng, BigUint, AreDocumented, AreKeyCratesDocumented, AreBitsDocumented,
  IsSizedRng,
}
use digital_euro_wallet.Signature.Primality.{is_probable_prime}
use digital_euro_wallet.Signature.Trial.{is_probable_prime-trial}
use digital_euro_wallet.Signature.Bases.{PassFermat, is_probable_prime-PassFermat}
use digital_euro_wallet.Signature.Generation.{draw_candidate, generate_prime}

-- A quotient from its bounds.
quotient : (unit n c : ℕ) → 0 < unit → c * unit ≤ n → n < suc c * unit → n / unit ≡ c
quotient unit n c positive low high =
    let at_least : c ≤ n / unit = (Nat.le-div_iff_mul-le positive).1 low in
    let less : n / unit < suc c = (Nat.div-lt_iff_lt-mul positive).1 high in
    omega (arith, at_least, less)

-- the number with the bit of that power set
abbrev with_bit : ℕ → ℕ → ℕ
with_bit n power = if n / power % 2 == 1 then n else n + power

-- The top two bits, of powers `2 * unit` and `unit`, of a number below `4 * unit`.
top_bit :
    (unit n : ℕ) → 0 < unit → n < 2 * unit → (unit ≤ with_bit n unit) × (with_bit n unit < 2 * unit)
top_bit unit n positive less = elim (Bool-cases (ltb n unit)) [
  | inl under ↦
      let small : n < unit = ground (arith, under) in
      let clear : n / unit ≡ 0 = quotient unit n 0 positive (omega arith) (omega (arith, small)) in
      rw clear (omega (arith, small), omega (arith, small))
  | inr over ↦
      let large : unit ≤ n = ground (arith, over) in
      let set : n / unit ≡ 1 =
        quotient unit n 1 positive (omega (arith, large)) (omega (arith, less)) in
      rw set (omega (arith, large), less)
]

next_bit :
    (unit n : ℕ)
    → 0 < unit
    → 2 * unit ≤ n
    → n < 4 * unit
    → (3 * unit ≤ with_bit n unit) × (with_bit n unit < 4 * unit)
next_bit unit n positive low high = elim (Bool-cases (ltb n (3 * unit))) [
  | inl under ↦
      let small : n < 3 * unit = ground (arith, under) in
      let clear : n / unit ≡ 2 = quotient unit n 2 positive low (omega (arith, small)) in
      rw clear (omega (arith, low), omega (arith, small))
  | inr over ↦
      let large : 3 * unit ≤ n = ground (arith, over) in
      let set : n / unit ≡ 3 =
        quotient unit n 3 positive (omega (arith, large)) (omega (arith, high)) in
      rw set (omega (arith, large), high)
]

last_bit :
    (half n low : ℕ) → low ≤ n → n < 2 * half → (low ≤ with_bit n 1) × (with_bit n 1 < 2 * half)
last_bit half n low least less = elim (Bool-cases (n / 1 % 2 == 1)) [
  | inl set ↦ rw set (least, less)
  | inr clear ↦ rw clear (omega (arith, least), ground (arith, clear, less))
]

-- The powers of two of a size, by that of two bits less.
four_units : (bits m : ℕ) → bits ≡ suc (suc m) → 2 ^ bits ≡ 2 * (2 * 2 ^ m)
four_units bits m e =
    ap (λ (t : ℕ). 2 ^ t) e ∙ Nat.pow-succ' 2 (suc m) ∙ ap (λ (t : ℕ). 2 * t) (Nat.pow-succ' 2 m)

-- With both top bits set, a product has the top bit of the sum of the sizes.
product_bounds :
    (unit p q whole : ℕ)
    → 3 * unit ≤ p
    → 3 * unit ≤ q
    → p < 2 * (2 * unit)
    → q < 2 * (2 * unit)
    → whole ≡ 2 * (2 * unit) * (2 * (2 * unit))
    → (whole ≤ 2 * (p * q)) × (p * q < whole)
product_bounds unit p q whole p_low q_low p_high q_high e =
    let least : 3 * unit * (3 * unit) ≤ p * q = Nat.mul-le-mul p_low q_low in
    let most : p * q ≤ 2 * (2 * unit) * q = Nat.mul-le-mul_right q (omega (arith, p_high)) in
    let strictly : 2 * (2 * unit) * q < 2 * (2 * unit) * (2 * (2 * unit)) =
      Nat.mul-lt-mul_of_pos_left q_high (omega (arith, p_high)) in
    (omega (arith, least, e), omega (arith, most, strictly, e))

module _ {G : Type 0} ⦃x : Crates⦄ ⦃y : KeyCrates⦄ ⦃g : BigRng G⦄
    (bits_documented : AreBitsDocumented y) (sized : IsSizedRng g) where
  -- A candidate of `m + 2` bits has its top two bits set.
  draw_candidate-bounds :
      (bits m : ℕ) (rng : G)
      → bits ≡ suc (suc m)
      → let n = (draw_candidate bits rng).0 in (3 * 2 ^ m ≤ n) × (n < 2 * (2 * 2 ^ m))
  unfolding draw_candidate
  draw_candidate-bounds bits m rng e =
      let drawn = (g.gen_biguint bits rng).0 in
      let positive : 0 < 2 ^ m = Nat.one-le-pow m 2 (omega arith) in
      let double : 2 ^ suc m ≡ 2 * 2 ^ m = Nat.pow-succ' 2 m in
      let whole : 2 ^ bits ≡ 2 * 2 ^ suc m = ap (λ (t : ℕ). 2 ^ t) e ∙ Nat.pow-succ' 2 (suc m) in
      let within : drawn < 2 * 2 ^ suc m = rw whole at (sized.gen_biguint-below bits rng) in
      let (top, below) = top_bit (2 ^ suc m) drawn (omega (arith, positive, double)) within in
      let second = with_bit drawn (2 ^ suc m) in
      let (next, below') =
        next_bit (2 ^ m) second positive (omega (arith, top, double))
          (omega (arith, below, double)) in
      let third = with_bit second (2 ^ m) in
      let (last, under) = last_bit (2 * 2 ^ m) third (3 * 2 ^ m) next (omega (arith, below')) in
      let one : bits - 1 ≡ suc m = omega (arith, e) in
      let two : bits - 2 ≡ m = omega (arith, e) in
      let is : (draw_candidate bits rng).0 ≡ with_bit third 1 =
        rw
          (
            draw_candidate,
            one,
            two,
            bits_documented.set_bit_lem drawn (suc m),
            bits_documented.set_bit_lem second m,
            bits_documented.set_bit_lem third 0,
          )
          refl in
      rw is (last, under)

  module _ (doc : AreDocumented x) (keys : AreKeyCratesDocumented y) where
    generate_prime-bounds :
        (fuel bits m : ℕ) (rng rng' : G) (n : BigUint)
        → bits ≡ suc (suc m)
        → generate_prime fuel bits rng ≡ some (n, rng')
        → (3 * 2 ^ m ≤ n)
          × (n < 2 * (2 * 2 ^ m))
          × (start : G) × ((is_probable_prime n 40 start).0 ≡ true)
    unfolding generate_prime
    generate_prime-bounds zero bits m rng rng' n e h = absurd (ground (arith, h))
    generate_prime-bounds (suc fuel) bits m rng rng' n e h =
        let (drawn, rng_d) = draw_candidate bits rng in
        let (accepted, rng'') = is_probable_prime drawn 40 rng_d in
        elim (Bool-cases accepted) [
          | inl taken ↦
              let same : drawn ≡ n = ground (arith, h, taken) in
              let (low, high) = draw_candidate-bounds bits m rng e in
              (rw (← same) low, rw (← same) high, rng_d, rw (← same) taken)
          | inr refused ↦
              generate_prime-bounds fuel bits m rng'' rng' n e (ground (arith, h, refused))
        ]

    -- What the search for a prime returns, when it is asked for eight bits or more, has exactly so many
    -- bits, the top two of them set, no number from 2 to 78 divides it, and it satisfies Fermat's
    -- little theorem for forty bases drawn in a row; when the crates and the generator are as
    -- documented.
    pub generate_prime-sized :
        (fuel bits : ℕ) (rng rng' : G) (n : BigUint)
        → 8 ≤ bits
        → generate_prime fuel bits rng ≡ some (n, rng')
        → (3 * 2 ^ (bits - 2) ≤ n)
          × (n < 2 ^ bits)
          × ((d : ℕ) → 2 ≤ d → d < 79 → n % d ≢ 0)
          × (start : G) × PassFermat n 40 start
    generate_prime-sized fuel bits rng rng' n least h =
        let m = bits - 2 in
        let e : bits ≡ suc (suc m) = omega (arith, least) in
        let (low, high, start, accepted) = generate_prime-bounds fuel bits m rng rng' n e h in
        let six : 2 ^ 6 ≤ 2 ^ m =
          Nat.pow-le-pow_right {n = 2} (omega arith) {i = 6} {j = m} (omega (arith, least)) in
        let large : 73 < n = omega (arith, six, low) in
        (
          low,
          rw (four_units bits m e) high,
          is_probable_prime-trial doc n 40 start large accepted,
          start,
          is_probable_prime-PassFermat doc keys n 40 start large accepted,
        )

    -- Two numbers that the search returns in turn, when it is asked for half the size of a key, have a
    -- product of exactly that size; when the crates and the generator are as documented.
    pub generate_prime-product :
        (fuel bits : ℕ) (rng rng_p rng_q : G) (p q : BigUint)
        → 2 ≤ bits
        → generate_prime fuel bits rng ≡ some (p, rng_p)
        → generate_prime fuel bits rng_p ≡ some (q, rng_q)
        → (2 ^ (bits + bits) ≤ 2 * (p * q)) × (p * q < 2 ^ (bits + bits))
    generate_prime-product fuel bits rng rng_p rng_q p q least hp hq =
        let m = bits - 2 in
        let e : bits ≡ suc (suc m) = omega (arith, least) in
        let (p_low, p_high, _, _) = generate_prime-bounds fuel bits m rng rng_p p e hp in
        let (q_low, q_high, _, _) = generate_prime-bounds fuel bits m rng_p rng_q q e hq in
        product_bounds (2 ^ m) p q (2 ^ (bits + bits)) p_low q_low p_high q_high
          (pow-add 2 bits bits ∙ rw (four_units bits m e) refl)
