-- ===== src/Signature/Generated.antt =====
-- The keys that `Keypair::generate` of src/signature.rs returns.
use digital_euro_wallet.Prelude.{
  ℕ, zero, suc, ◌+◌, ◌-◌, ◌*◌, ◌/◌, ◌%◌, ◌^◌, ◌≤◌, ◌<◌, ◌≡◌, ◌≢◌, ◌∙◌, ◌⊎◌, inl, inr, refl, sym, ap,
  some, arith, nat_eq, Option-cases,
}
use digital_euro_wallet.Prelude.Int.{pos}
use native.Mathlib.Nat
use native.Mathlib.Decide.{dec_le}
use digital_euro_wallet.Primes.{IsPrime}
use digital_euro_wallet.Primes.Powers.{pow-mul, pow-mod}
use digital_euro_wallet.Crates.{Crates, KeyCrates, AreKeyCratesDocumented, BigUint, BigRng}
use digital_euro_wallet.Signature.{Keypair}
use digital_euro_wallet.Signature.RoundTrip.{IsKeypair}
use digital_euro_wallet.Signature.Rsa.{exponent-keeps}
use digital_euro_wallet.Signature.Generation.{
  Attempt, retry, panic, made, mod_inverse, key_of_primes, generate_prime, generate_loop, generate,
}

-- Two numbers congruent to 1 up to multiples of a modulus above 1 differ by a multiple on one side.
one-mod : (x m u v : ℕ) → 1 < m → x + m * u ≡ 1 + m * v → (k : ℕ) × (x ≡ 1 + m * k)
one-mod x m u v large e = elim (dec_le u v) [
  | yes less ↦ (v - u, omega (arith, e, Nat.mul-sub m v u, Nat.mul-le-mul_left m less))
  | no more ↦
      let step : m * suc v ≤ m * u = Nat.mul-le-mul_left m (Nat.lt_of_not-le more) in
      absurd (omega (arith, e, step, large))
]

module _ ⦃y : KeyCrates⦄ (doc : AreKeyCratesDocumented y) where
  -- The inverse inverts.
  mod_inverse-inverts :
      (a m d : BigUint)
      → 1 < m
      → y.gcd m a ≡ 1
      → mod_inverse a m ≡ some d
      → (k : ℕ) × (a * d ≡ 1 + m * k)
  unfolding mod_inverse
  mod_inverse-inverts a m d large coprime found =
      let c = (y.extended_gcd (pos a) (pos m)).1 in
      let (j, l, bezout) = doc.extended_gcd-bezout a m in
      let (r, floored, below, j', l', differ) = doc.mod_floor_int_lem c m (omega (arith, large)) in
      let same : r ≡ d = ground (arith, doc.extended_gcd_lem a m, coprime, floored, found) in
      one-mod (a * d) m (a * l' + j) (a * j' + l) large
        (omega (arith, bezout, coprime, ap (λ (t : ℕ). a * t) differ, ap (λ (t : ℕ). a * t) same))

module _ ⦃x : Crates⦄ ⦃y : KeyCrates⦄ (bits p q : BigUint) (key : Keypair) where
  key_of_primes-parts :
      key_of_primes bits p q ≡ made key
      → (p ≢ q)
        × (y.gcd ((p - 1) * (q - 1)) 65537 ≡ 1)
        × (mod_inverse 65537 ((p - 1) * (q - 1)) ≡ some key.d)
        × (key.public.n ≡ p * q)
        × (key.public.e ≡ 65537)
        × (x.bits (p * q) ≡ bits)
  unfolding key_of_primes
  key_of_primes-parts h = ground (arith, h)

-- Below two different primes, not both are 2.
phi_large : (p q : ℕ) → 1 < p → 1 < q → p ≢ q → 1 < (p - 1) * (q - 1)
phi_large p q hp hq ne = elim (dec_le p 2) [
  | yes two ↦
      let small : 1 ≤ p - 1 = omega (arith, hp) in
      let large : 2 ≤ q - 1 = omega (arith, hp, hq, two, ne) in
      omega (arith, Nat.mul-le-mul small large)
  | no more ↦
      let large : 2 ≤ p - 1 = omega (arith, Nat.lt_of_not-le more) in
      let small : 1 ≤ q - 1 = omega (arith, hq) in omega (arith, Nat.mul-le-mul large small)
]

module _ ⦃x : Crates⦄ ⦃y : KeyCrates⦄ (doc : AreKeyCratesDocumented y) where
  -- What the loop of `generate` makes of two primes is an RSA key: the exponents undo one another.
  pub key_of_primes-IsKeypair :
      (bits p q : BigUint) (key : Keypair)
      → IsPrime p
      → IsPrime q
      → key_of_primes bits p q ≡ made key
      → IsKeypair key
  key_of_primes-IsKeypair bits p q key hp hq h =
      let (ne, coprime, found, modulus, exponent, _) = key_of_primes-parts bits p q key h in
      let phi = (p - 1) * (q - 1) in
      let (k, inverts) =
        mod_inverse-inverts doc 65537 phi key.d (phi_large p q hp.large hq.large ne) coprime
          found in
      let whole : key.d * key.public.e ≡ 1 + phi * k =
        rw exponent (Nat.mul_comm key.d 65537 ∙ inverts) in
      record {
        modulus_pos = rw modulus (Nat.mul-pos (omega (arith, hp.large)) (omega (arith, hq.large)));
        inverse = λ m below.
            pow-mod (m ^ key.d) key.public.e key.public.n
            ∙ ap (λ (t : ℕ). t % key.public.n) (sym (pow-mul m key.d key.public.e))
            ∙ ap (λ (t : ℕ). m ^ t % key.public.n) whole
            ∙ ap (λ (t : ℕ). m ^ (1 + phi * k) % t) modulus
            ∙ exponent-keeps p q hp hq ne m k (rw (← modulus) below);
      }

Attempt-cases : (a : Attempt) → (a ≡ retry) ⊎ ((a ≡ panic) ⊎ ((key : Keypair) × (a ≡ made key)))
Attempt-cases retry = inl refl
Attempt-cases panic = inr (inl refl)
Attempt-cases (made key) = inr (inr (key, refl))

-- The crates are as documented, and what the search for a prime returns is a prime: the test is a
-- probabilistic one.
pub record IsKeySource (G : Type 0) ⦃x : Crates⦄ ⦃y : KeyCrates⦄ ⦃g : BigRng G⦄ (tries : ℕ)
    : Type 0 where
  pub documented : AreKeyCratesDocumented y
  pub prime :
      (bits : ℕ) (rng : G) (n : BigUint) (rng' : G)
      → generate_prime tries bits rng ≡ some (n, rng')
      → IsPrime n

module _ {G : Type 0} ⦃x : Crates⦄ ⦃y : KeyCrates⦄ ⦃g : BigRng G⦄ (tries : ℕ)
    (source : IsKeySource G tries) where
  abbrev IsOfSize : ℕ → Keypair → Type 0
  IsOfSize bits key = IsKeypair key × (x.bits key.public.n ≡ bits) × (key.public.e ≡ 65537)

  made-IsOfSize :
      (bits p q : BigUint) (key : Keypair)
      → IsPrime p
      → IsPrime q
      → key_of_primes bits p q ≡ made key
      → IsOfSize bits key
  made-IsOfSize bits p q key hp hq h =
      let (_, _, _, modulus, exponent, size) = key_of_primes-parts bits p q key h in
      (key_of_primes-IsKeypair source.documented bits p q key hp hq h, rw modulus size, exponent)

  generate_loop-IsOfSize :
      (fuel bits : ℕ) (rng : G) (key : Keypair) (rng' : G)
      → generate_loop fuel tries bits rng ≡ some (key, rng')
      → IsOfSize bits key
  unfolding generate_loop
  generate_loop-IsOfSize zero bits rng key rng' h = ground (arith, h)
  generate_loop-IsOfSize (suc fuel) bits rng key rng' h =
      elim (Option-cases (generate_prime tries (bits / 2) rng)) [
        | inl nothing ↦ ground (arith, h, nothing)
        | inr ((p, rng_p), p_drawn) ↦ elim (Option-cases (generate_prime tries (bits / 2) rng_p)) [
          | inl nothing ↦ ground (arith, h, p_drawn, nothing)
          | inr ((q, rng_q), q_drawn) ↦ elim (Attempt-cases (key_of_primes bits p q)) [
            | inl again ↦
                generate_loop-IsOfSize fuel bits rng_q key rng'
                  (rw (generate_loop, p_drawn, q_drawn, again) at h)
            | inr (inl panics) ↦ ground (arith, h, p_drawn, q_drawn, panics)
            | inr (inr (k, done)) ↦
                let same : k ≡ key = ground (arith, h, p_drawn, q_drawn, done) in
                rw (← same) (
                  made-IsOfSize bits p q k (source.prime _ _ p rng_p p_drawn)
                    (source.prime _ _ q rng_q q_drawn) done)
          ]
        ]
      ]

  -- A key that `generate` returns is an RSA key of the size asked for, with exponent 65537, when the
  -- search for primes returns primes.
  pub generate-IsKeypair :
      (fuel bits : ℕ) (rng : G) (key : Keypair) (rng' : G)
      → generate fuel tries bits rng ≡ some (key, rng')
      → IsKeypair key × (x.bits key.public.n ≡ bits) × (key.public.e ≡ 65537)
  unfolding generate
  generate-IsKeypair fuel bits rng key rng' h =
      generate_loop-IsOfSize fuel bits rng key rng' (ground (arith, h))
