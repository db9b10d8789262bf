-- ===== src/Tests/Openings.antt =====
-- The random run of the harness as a whole, with two devices and one operation.
use digital_euro_wallet.Prelude.{
  ltb, ◌&&◌, List, true, ◌⊎◌, ◌<◌, some-injective, Bool-cases, false, inl, inr, ◌∙◌, sym, ℕ, ◌+◌,
  ◌%◌, ◌≡◌, refl, ◌≢◌, [], ◌∷◌, some, arith, ok, if◌then◌else◌, ◌==◌, nat_eq, add_u64, to_be_bytes,
}
use mathlib.Core.Path.{subst}
use digital_euro_wallet.HashMap
use digital_euro_wallet.Hash
use digital_euro_wallet.Crates.{Crates, BigRng, SeedableRng}
use digital_euro_wallet.Signature
use digital_euro_wallet.Signature.{Keypair}
use digital_euro_wallet.Signature.Primality
use digital_euro_wallet.Signature.Primality.{small_primes}
use digital_euro_wallet.Signature.Trial.{is_probable_prime-trial}
use digital_euro_wallet.Signature.Generation
use digital_euro_wallet.Signature.Keys.{key_of_primes-cases}
use digital_euro_wallet.Certificate
use digital_euro_wallet.Wallet
use digital_euro_wallet.Wallet.{Wallet, sealed}
use digital_euro_wallet.Issuer.{DeviceRecord}
use digital_euro_wallet.Harness.Grown.{IsWellDrawn}
use digital_euro_wallet.Harness.Sound.{IsSound}
use digital_euro_wallet.Harness.Ledger.{unspent}
use digital_euro_wallet.Harness.Stands.{Stands}
use digital_euro_wallet.Harness.Opened.{fuzz-passes, world-Stands}
use digital_euro_wallet.Tests.Drawn.{Drawn, drawn, drawn_world, drawn_world-IsWellDrawn}
use digital_euro_wallet.Tests.Worlds.{ranging, ranging-IsRangeRng}
use digital_euro_wallet.Issuer
use digital_euro_wallet.Protocol
use digital_euro_wallet.Harness.{World}
use digital_euro_wallet.Harness.Opening
use digital_euro_wallet.Harness.Opening.{Config}
use digital_euro_wallet.Tests.Euclid.{keys, keys-AreKeyCratesDocumented}
use digital_euro_wallet.Tests.Primes.{
  three-IsPrime, five-IsPrime, eleven-IsPrime, ninety_seven-IsPrime,
}
use digital_euro_wallet.Crates.{IsBigRng}
use digital_euro_wallet.Signature.Generated.{IsKeySource, generate-IsKeypair}
use digital_euro_wallet.Signature.Search.{first, generate_prime-finds}
use digital_euro_wallet.Signature.MillerRabin.{is_probable_prime_complete}
use digital_euro_wallet.Signature.RoundTrip.{IsKeypair}
use digital_euro_wallet.Tests.Toy.{
  wide, wide-AreDocumented, counting, issuer_key, issuer_key-IsKeypair, drawn_key,
}

instance abbrev pub crates : Crates
crates = wide

-- 3 and 5 in turn, and 3 and 11 where the rogue issuer draws
instance abbrev pub primes : BigRng ℕ
primes = record {
  gen_biguint = λ bits rng.
      (if rng % 2 == 0 then 3 else if ltb 2900 rng && ltb rng 3100 then 11 else 5, rng + 1);
  gen_biguint_range = λ low high rng. (low, rng + 1);
}

instance abbrev pub seeds : SeedableRng ℕ
seeds = record { seed_from_u64 = λ seed. seed }

pub drawn-IsKeySource : IsKeySource ℕ 1
unfolding Generation.generate_prime Generation.draw_candidate
drawn-IsKeySource = record {
  documented = keys-AreKeyCratesDocumented;
  prime = λ bits rng n rng' h. ground (arith, h, three-IsPrime, five-IsPrime, eleven-IsPrime);
}

abbrev pub config : Config
config = record {
  issuer_key = issuer_key;
  key_bits = 512;
  seed = 1;
  limit = 2000;
  devices = 2;
  ops = 1;
}

abbrev draws : List Drawn
draws = drawn 61475 3000 61478 21 4295028771 ∷ drawn 61479 3000 61482 30 8589996067 ∷ []

abbrev pub start : World ℕ
start = drawn_world issuer_key 2000 draws

-- a proof that unfolds this computes with enrolments
unfoldable pub Enrolling : Type 0
unfolding Opening.world Opening.open_devices Protocol.enrol Protocol.install Issuer.open_account
    Issuer.new Issuer.certify_device Wallet.new Generation.generate Generation.generate_loop
    Generation.generate_prime Generation.draw_candidate Generation.key_of_primes
    Generation.mod_inverse Primality.is_probable_prime Primality.trial_division HashMap.get
    HashMap.insert Certificate.verify Certificate.digest Signature.verify Signature.sign
    Signature.full_domain_hash Signature.modulus_bytes Signature.expand Signature.mask_first
    Hash.tagged Hash.encode Hash.encode_parts to_be_bytes add_u64
Enrolling = Unit

start_opened : Opening.world 1 1 config 61475 (3000 ∷ 3000 ∷ []) ≡ some start
unfolding Enrolling
start_opened = refl

pub start-IsWellDrawn : IsWellDrawn 1 start
start-IsWellDrawn =
    drawn_world-IsWellDrawn 1 issuer_key 2000 draws ((ground arith, tt), (tt, tt))
      ((ground arith, tt), (tt, tt))

search_even :
    (bits rng : ℕ) → rng % 2 ≡ 0 → Generation.generate_prime {G = ℕ} 1 bits rng ≡ some (3, rng + 1)
unfolding Enrolling
search_even bits rng even = rw even refl

search_odd :
    (bits rng : ℕ)
    → rng % 2 ≡ 1
    → (ltb 2900 rng && ltb rng 3100) ≡ false
    → Generation.generate_prime {G = ℕ} 1 bits rng ≡ some (5, rng + 1)
unfolding Enrolling
search_odd bits rng odd rest = rw (odd, rest) refl

search_rogue :
    (bits rng : ℕ)
    → rng % 2 ≡ 1
    → (ltb 2900 rng && ltb rng 3100) ≡ true
    → Generation.generate_prime {G = ℕ} 1 bits rng ≡ some (11, rng + 1)
unfolding Enrolling
search_rogue bits rng odd rogue = rw (odd, rogue) refl

abbrev rogue_key : Keypair
rogue_key = record { public = record { n = 33; e = 65537 }; d = 13 }

pair_made :
    (rng p q : ℕ) (key : Keypair)
    → Generation.generate_prime {G = ℕ} 1 256 rng ≡ some (p, rng + 1)
    → Generation.generate_prime {G = ℕ} 1 256 (rng + 1) ≡ some (q, rng + 1 + 1)
    → Generation.key_of_primes 512 p q ≡ Generation.made key
    → Generation.generate {G = ℕ} 1 1 512 rng ≡ some (key, rng + 1 + 1)
unfolding Generation.generate Generation.generate_loop
pair_made rng p q key p_found q_found made =
    rw (Generation.generate, Generation.generate_loop, p_found, q_found, made) refl

pub key_made_always :
    (rng : ℕ)
    → (key : Keypair) × (next : ℕ) × (Generation.generate {G = ℕ} 1 1 512 rng ≡ some (key, next))
unfolding Generation.key_of_primes Generation.mod_inverse
key_made_always rng = elim (Bool-cases (rng % 2 == 0)) [
  | inl even ↦
      let here = search_even 256 rng (ground (arith, even)) in
      let odd : (rng + 1) % 2 ≡ 1 = ground (arith, even) in
      elim (Bool-cases (ltb 2900 (rng + 1) && ltb (rng + 1) 3100)) [
        | inl rogue ↦ (
          rogue_key,
          rng + 1 + 1,
          pair_made rng 3 11 rogue_key here (search_rogue 256 (rng + 1) odd rogue) refl,
        )
        | inr rest ↦ (
          drawn_key,
          rng + 1 + 1,
          pair_made rng 3 5 drawn_key here (search_odd 256 (rng + 1) odd rest) refl,
        )
      ]
  | inr other ↦
      let odd : rng % 2 ≡ 1 = ground (arith, other) in
      let next = search_even 256 (rng + 1) (omega (arith, odd)) in
      elim (Bool-cases (ltb 2900 rng && ltb rng 3100)) [
        | inl rogue ↦ (
          rogue_key,
          rng + 1 + 1,
          pair_made rng 11 3 rogue_key (search_rogue 256 rng odd rogue) next refl,
        )
        | inr rest ↦ (
          drawn_key,
          rng + 1 + 1,
          pair_made rng 5 3 drawn_key (search_odd 256 rng odd rest) next refl,
        )
      ]
]

fuzz-passes_example :
    (w' : World ℕ) × (Opening.fuzz {S = ℕ} 1 1 config ≡ ok w') × IsSound 0 2000 6000 w'
fuzz-passes_example =
    fuzz-passes wide-AreDocumented ranging-IsRangeRng 1 1 drawn-IsKeySource config key_made_always
      issuer_key-IsKeypair (omega arith) (omega arith) (omega arith) (omega arith) (omega arith)
      (λ w opened.
        subst (IsWellDrawn 1) (some-injective (sym start_opened ∙ opened)) start-IsWellDrawn)

world-Stands_example : Stands 1 2000 6000 2 (unspent (3000 ∷ 3000 ∷ [])) start
world-Stands_example =
    world-Stands 1 1 config 61475 wide-AreDocumented drawn-IsKeySource 1 (omega arith) (omega arith)
      (3000 ∷ 3000 ∷ []) start issuer_key-IsKeypair (omega arith) start_opened start-IsWellDrawn

accepts_97 : (Primality.is_probable_prime {G = ℕ} 97 1 7).0 ≡ true
unfolding Primality.is_probable_prime Primality.trial_division Primality.run_rounds
    Primality.round_passes Primality.squares_hit
accepts_97 = refl

is_probable_prime-trial_example : 97 % 77 ≢ 0
is_probable_prime-trial_example =
    is_probable_prime-trial wide-AreDocumented 97 1 7 (omega arith) accepts_97 77 (omega arith)
      (omega arith)

abbrev three : ℕ
three = 3

abbrev five : ℕ
five = 5

key_of_primes-cases_example :
    (Generation.key_of_primes 512 three five ≡ Generation.retry)
    ⊎ ((d : ℕ) × (Generation.key_of_primes 512 three five
          ≡ Generation.made (record { public = record { n = 15; e = 65537 }; d = d }))
        × (d < 8)
        × (crates.bits 15 ≡ 512)
        × (three ≢ five))
key_of_primes-cases_example =
    key_of_primes-cases keys-AreKeyCratesDocumented 512 three five (omega arith) (omega arith)

primes-IsBigRng : IsBigRng primes
primes-IsBigRng = record { gen_biguint_range-within = λ low high rng h. (omega arith, h) }

is_probable_prime_complete_example : (Primality.is_probable_prime {G = ℕ} 97 40 7).0 ≡ true
is_probable_prime_complete_example =
    is_probable_prime_complete 97 ninety_seven-IsPrime wide-AreDocumented
      keys-AreKeyCratesDocumented primes-IsBigRng 40 7

key_made : Generation.generate {G = ℕ} 1 1 512 1 ≡ some (drawn_key, 3)
unfolding Enrolling
key_made = refl

generate-IsKeypair_example :
    IsKeypair drawn_key × (crates.bits 15 ≡ 512) × (drawn_key.public.e ≡ 65537)
generate-IsKeypair_example = generate-IsKeypair 1 drawn-IsKeySource 1 512 1 drawn_key 3 key_made

generate_prime-finds_example :
    (m : ℕ) × (rng' : ℕ) × (Generation.generate_prime 2 512 2900 ≡ some (m, rng'))
unfolding Generation.draw_candidate
generate_prime-finds_example =
    generate_prime-finds 512 wide-AreDocumented keys-AreKeyCratesDocumented primes-IsBigRng 2 2900 3
      (first 1 2900) three-IsPrime
