-- ===== src/Tests/Searches.antt =====
-- The search for a prime, with a generator that counts and bits that are set.
use digital_euro_wallet.Prelude.{
  ℕ, ◌+◌, ◌*◌, ◌-◌, ◌/◌, ◌%◌, ◌^◌, ◌≤◌, ◌<◌, ◌≡◌, ◌≢◌, refl, some, arith, ◌==◌, nat_eq,
  if◌then◌else◌,
}
use native.Mathlib.Nat
use digital_euro_wallet.Crates.{
  Crates, KeyCrates, BigRng, AreKeyCratesDocumented, AreBitsDocumented, IsSizedRng,
}
use digital_euro_wallet.Signature.Primality
use digital_euro_wallet.Signature.Generation
use digital_euro_wallet.Signature.Bases.{PassFermat}
use digital_euro_wallet.Signature.Candidates.{generate_prime-sized, generate_prime-product}
use digital_euro_wallet.Tests.Toy.{wide, wide-AreDocumented}
use digital_euro_wallet.Tests.Euclid.{keys, keys-AreKeyCratesDocumented}

instance abbrev crates : Crates
crates = wide

abbrev setting : KeyCrates
setting = record keys { set_bit = λ n k. if n / 2 ^ k % 2 == 1 then n else n + 2 ^ k }

setting-AreKeyCratesDocumented : AreKeyCratesDocumented setting
setting-AreKeyCratesDocumented = record {
  extended_gcd_lem = keys-AreKeyCratesDocumented.extended_gcd_lem;
  extended_gcd-bezout = keys-AreKeyCratesDocumented.extended_gcd-bezout;
  mod_floor_int_lem = keys-AreKeyCratesDocumented.mod_floor_int_lem;
  trailing_zeros_lem = keys-AreKeyCratesDocumented.trailing_zeros_lem;
}

setting-AreBitsDocumented : AreBitsDocumented setting
setting-AreBitsDocumented = record { set_bit_lem = λ n k. refl }

-- It draws what it has counted, of the size asked for.
instance abbrev counter : BigRng ℕ
counter = record {
  gen_biguint = λ bits rng. (rng % 2 ^ bits, rng + 1);
  gen_biguint_range = λ low high rng. (low, rng + 1);
}

counter-IsSizedRng : IsSizedRng counter
counter-IsSizedRng = record {
  gen_biguint-below = λ bits rng. Nat.mod-lt rng (Nat.one-le-pow bits 2 (omega arith));
}

-- a proof that unfolds this computes with searches
unfoldable Searching : Type 0
unfolding Generation.generate_prime Generation.draw_candidate Primality.is_probable_prime
    Primality.trial_division Primality.run_rounds Primality.round_passes Primality.squares_hit
Searching = Unit

-- The first candidate, 193, is a prime; the search after it refuses 235 and 237 and ends at 239.
found_193 : Generation.generate_prime {G = ℕ} ⦃y = setting⦄ 5 8 1 ≡ some (193, 42)
unfolding Searching
found_193 = refl

found_239 : Generation.generate_prime {G = ℕ} ⦃y = setting⦄ 5 8 42 ≡ some (239, 87)
unfolding Searching
found_239 = refl

generate_prime-sized_example :
    (3 * 2 ^ (8 - 2) ≤ 239)
    × (239 < 2 ^ 8)
    × ((d : ℕ) → 2 ≤ d → d < 79 → 239 % d ≢ 0)
    × (start : ℕ) × PassFermat 239 40 start
generate_prime-sized_example =
    generate_prime-sized ⦃y = setting⦄ setting-AreBitsDocumented counter-IsSizedRng
      wide-AreDocumented setting-AreKeyCratesDocumented 5 8 42 87 239 (omega arith) found_239

generate_prime-product_example : (2 ^ (8 + 8) ≤ 2 * (193 * 239)) × (193 * 239 < 2 ^ (8 + 8))
generate_prime-product_example =
    generate_prime-product ⦃y = setting⦄ setting-AreBitsDocumented counter-IsSizedRng
      wide-AreDocumented setting-AreKeyCratesDocumented 5 8 1 42 87 193 239 (omega arith) found_193
      found_239
