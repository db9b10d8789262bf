-- ===== src/Tests/Narrated.antt =====
-- The narrated run as a whole, with two small primes and a generator that counts.
use digital_euro_wallet.Prelude.{
  some-injective, ℕ, zero, suc, ap, replicate, sum, ◌+◌, ◌%◌, ◌≡◌, refl, some, List, [], ◌∷◌, ◌++◌,
  ◌==◌, nat_eq, arith, get_elem?, if◌then◌else◌,
}
use digital_euro_wallet.Crates.{Crates, BigRng}
use digital_euro_wallet.Signature.Generation
use digital_euro_wallet.Signature.Generated.{IsKeySource}
use digital_euro_wallet.Wallet
use digital_euro_wallet.Wallet.{Wallet}
use digital_euro_wallet.Harness.{World}
use digital_euro_wallet.OfflinePayment
use digital_euro_wallet.OfflinePayment.Counterfeit.{Minted}
use digital_euro_wallet.OfflinePayment.Whole.{
  alice_account, bakery_account, mill_account, introduced, told, offline_payment-Prints,
}
use digital_euro_wallet.Tests.Toy.{sized, sized-AreDocumented, counting, drawn_key}
use digital_euro_wallet.Tests.Drawn.{
  Drawn, drawn, drawn_world, drawn_world-IsWellDrawn, nonce_at_once,
}
use digital_euro_wallet.Harness.Kept.{IsStranger}
use digital_euro_wallet.Id.{DeviceId}
use digital_euro_wallet.Tests.Euclid.{keys, keys-AreKeyCratesDocumented}
use digital_euro_wallet.Tests.Primes.{three-IsPrime, five-IsPrime}
use digital_euro_wallet.Tests.Openings.{Enrolling, seeds}

instance abbrev long : Crates
long = sized 2048

-- 3 and 5 in turn
instance abbrev turns : BigRng ℕ
turns = record {
  gen_biguint = λ bits rng. (if rng % 2 == 0 then 3 else 5, rng + 1);
  gen_biguint_range = λ low high rng. (low, rng + 1);
}

turns-IsKeySource : IsKeySource ℕ 1
unfolding Generation.generate_prime Generation.draw_candidate
turns-IsKeySource = record {
  documented = keys-AreKeyCratesDocumented;
  prime = λ bits rng n rng' h. ground (arith, h, three-IsPrime, five-IsPrime);
}

abbrev draws : List Drawn
draws = drawn 161 5000 2030 12 1 ∷ drawn 178 0 2033 6 2 ∷ drawn 195 0 2036 11 3 ∷ []

abbrev start : World ℕ
start = drawn_world drawn_key 50000 draws

opens :
    OfflinePayment.three_accounts {S = ℕ} 1 1 alice_account bakery_account mill_account ≡ some start
unfolding Enrolling OfflinePayment.three_accounts
opens = refl

made : Generation.generate {G = ℕ} 1 1 2048 666 ≡ some (drawn_key, 668)
unfolding Enrolling
made = refl

abbrev fourth : DeviceId
fourth = record { bytes = replicate 16 668 }

id_of :
    {d e : Wallet ℕ} → some d ≡ some e → sum (Wallet.device d).bytes ≡ sum (Wallet.device e).bytes
id_of e = ap (λ (d : Wallet ℕ). sum (Wallet.device d).bytes) (some-injective e)

fourth-IsStranger : IsStranger fourth start
fourth-IsStranger zero d at e = omega (arith, id_of at, ap (λ (i : DeviceId). sum i.bytes) e)
fourth-IsStranger (suc zero) d at e = omega (arith, id_of at, ap (λ (i : DeviceId). sum i.bytes) e)
fourth-IsStranger (suc (suc zero)) d at e =
    omega (arith, id_of at, ap (λ (i : DeviceId). sum i.bytes) e)
fourth-IsStranger (suc (suc (suc a))) d at e = absurd (ground (arith, at))

offline_payment-Prints_example :
    (d : Wallet ℕ) × (e : Wallet ℕ) × (f : Wallet ℕ) × (w' : World ℕ) × (get_elem? start.devices 0
      ≡ some d)
    × (get_elem? start.devices 1 ≡ some e)
    × (get_elem? start.devices 2 ≡ some f)
    × (OfflinePayment.offline_payment {S = ℕ} 1 1
        ≡ some (introduced (Wallet.device d) (Wallet.device e) (Wallet.device f) ++ told, w'))
    × Minted w'
offline_payment-Prints_example =
    offline_payment-Prints 1 1 (sized-AreDocumented 2048) turns-IsKeySource start drawn_key 668
      opens
      (drawn_world-IsWellDrawn 11 drawn_key 50000 draws
        ((ground arith, (ground arith, tt)), ((ground arith, tt), (tt, tt)))
        ((ground arith, (ground arith, tt)), ((ground arith, tt), (tt, tt))))
      made fourth-IsStranger (λ a c _ _. nonce_at_once a c 4)
