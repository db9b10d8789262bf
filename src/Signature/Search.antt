-- ===== src/Signature/Search.antt =====
-- The search for a prime of src/signature.rs, on the candidates that it draws.
use digital_euro_wallet.Prelude.{ℕ, suc, ◌≡◌, refl, true, some, Bool-cases, inl, inr}
use digital_euro_wallet.Primes.{IsPrime}
use digital_euro_wallet.Crates.{
  Crates, KeyCrates, BigRng, BigUint, AreDocumented, AreKeyCratesDocumented, IsBigRng,
}
use digital_euro_wallet.Signature.Primality.{is_probable_prime}
use digital_euro_wallet.Signature.Generation.{draw_candidate, generate_prime}
use digital_euro_wallet.Signature.MillerRabin.{is_probable_prime_complete}

module _ {G : Type 0} ⦃x : Crates⦄ ⦃y : KeyCrates⦄ ⦃g : BigRng G⦄ (bits : ℕ) where
  abbrev candidate : G → BigUint
  candidate rng = (draw_candidate bits rng).0

  -- the generator behind the first draw and its test
  abbrev after_turn : G → G
  after_turn rng =
      let (drawn, rng') = draw_candidate bits rng in (is_probable_prime drawn 40 rng').1

  -- The number is among so many candidates that would be drawn were none accepted.
  pub data IsDrawn : ℕ → G → BigUint → Type 0 where
    first : (fuel : ℕ) (rng : G) → IsDrawn (suc fuel) rng (candidate rng)
    later :
        (fuel : ℕ) (rng : G) (n : BigUint)
        → IsDrawn fuel (after_turn rng) n
        → IsDrawn (suc fuel) rng n

  module _ (doc : AreDocumented x) (keys : AreKeyCratesDocumented y) (range : IsBigRng g) where
    -- When a prime is among the candidates, the search ends at it or before it.
    pub generate_prime-finds :
        (fuel : ℕ) (rng : G) (n : BigUint)
        → IsDrawn fuel rng n
        → IsPrime n
        → (m : BigUint) × (rng' : G) × (generate_prime fuel bits rng ≡ some (m, rng'))
    unfolding generate_prime
    generate_prime-finds _ _ _ (first fuel rng) h =
        let (drawn, rng') = draw_candidate bits rng in
        let (accepted, rng'') = is_probable_prime drawn 40 rng' in
        let passes : accepted ≡ true = is_probable_prime_complete drawn h doc keys range 40 rng' in
        (drawn, rng'', rw (generate_prime, passes) refl)
    generate_prime-finds _ _ _ (later fuel rng n rest) h =
        let (drawn, rng') = draw_candidate bits rng in
        let (accepted, rng'') = is_probable_prime drawn 40 rng' in
        let (m, end, found) = generate_prime-finds fuel rng'' n rest h in
        elim (Bool-cases accepted) [
          | inl taken ↦ (drawn, rng'', rw (generate_prime, taken) refl)
          | inr refused ↦ (m, end, rw (generate_prime, refused) found)
        ]
