-- ===== src/Tests/Openable.antt =====
-- The opening of a world with a generator of primes that has two states.
use digital_euro_wallet.Prelude.{ℕ, zero, suc, ◌≡◌, refl, some, [], ◌∷◌, length}
use digital_euro_wallet.Crates.{BigRng}
use digital_euro_wallet.Signature.{Keypair}
use digital_euro_wallet.Signature.Generation
use digital_euro_wallet.Harness.{World}
use digital_euro_wallet.Harness.Opening.{world}
use digital_euro_wallet.Harness.Openable.{world-opens}
use digital_euro_wallet.Tests.Toy.{counting, wide-AreDocumented, issuer_key-IsKeypair, drawn_key}
use digital_euro_wallet.Tests.Euclid.{keys}
use digital_euro_wallet.Tests.Openings.{Enrolling, crates, seeds, config}

-- 3 from the first state, and 5 from any other
abbrev turned : ℕ → ℕ → ℕ × ℕ
turned bits zero = (3, 1)
turned bits (suc rng) = (5, 0)

instance abbrev two_states : BigRng ℕ
two_states = record { gen_biguint = turned; gen_biguint_range = λ low high rng. (low, rng) }

always_made :
    (rng : ℕ) → (key : Keypair) × (next : ℕ) × (Generation.generate 1 1 512 rng ≡ some (key, next))
unfolding Enrolling
always_made zero = (drawn_key, 0, refl)
always_made (suc rng) = (drawn_key, 1, refl)

world-opens_example :
    (w : World ℕ) × (world 1 1 config 7 (3000 ∷ 0 ∷ 500 ∷ []) ≡ some w)
    × (length w.devices ≡ 3)
    × (length w.accounts ≡ 3)
world-opens_example =
    world-opens 1 1 config 7 wide-AreDocumented always_made (3000 ∷ 0 ∷ 500 ∷ [])
      issuer_key-IsKeypair
