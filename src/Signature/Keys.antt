-- ===== src/Signature/Keys.antt =====
-- What two primes give in `Keypair::generate` of src/signature.rs.
use digital_euro_wallet.Prelude.{
  ℕ, ◌-◌, ◌*◌, ◌<◌, ◌≡◌, ◌≢◌, ◌⊎◌, some, arith, nat_same_iff, nat_eq, ◌==◌, Bool-cases, inl, inr,
  refl,
}
use native.Mathlib.Nat.{mul-pos}
use digital_euro_wallet.Prelude.Int.{pos}
use digital_euro_wallet.Crates.{Crates, KeyCrates, AreKeyCratesDocumented, BigUint}
use digital_euro_wallet.Signature.Generation.{mod_inverse, key_of_primes, retry, made}

module _ ⦃y : KeyCrates⦄ (doc : AreKeyCratesDocumented y) where
  -- A coprime number has an inverse, below the modulus.
  mod_inverse-some :
      (a m : BigUint) → 0 < m → y.gcd m a ≡ 1 → (d : BigUint) × (mod_inverse a m ≡ some d) × (d < m)
  unfolding mod_inverse
  mod_inverse-some a m positive coprime =
      let found = doc.extended_gcd_lem a m in
      let (r, floored, below, _, _, _) =
        doc.mod_floor_int_lem (y.extended_gcd (pos a) (pos m)).1 m positive in
      (r, ground (arith, found, coprime, floored), below)

  module _ ⦃x : Crates⦄ (bits p q : BigUint) (p_large : 1 < p) (q_large : 1 < q) where
    phi_positive : 0 < (p - 1) * (q - 1)
    phi_positive = mul-pos (omega arith) (omega arith)

    -- For numbers above 1, a turn of the loop in `generate` never panics: either it draws again, or it
    -- has the key of modulus `p * q`, of exactly the size asked for and with `p` and `q` distinct,
    -- exponent 65537 and a private exponent below `(p - 1) * (q - 1)`.
    pub key_of_primes-cases :
        (key_of_primes bits p q ≡ retry)
        ⊎ ((d : ℕ) × (key_of_primes bits p q
              ≡ made (record { public = record { n = p * q; e = 65537 }; d = d }))
            × (d < (p - 1) * (q - 1))
            × (x.bits (p * q) ≡ bits)
            × (p ≢ q))
    unfolding key_of_primes
    key_of_primes-cases = elim (Bool-cases (p == q)) [
      | inl equal ↦ inl (rw (key_of_primes, equal) refl)
      | inr different ↦ elim (Bool-cases (x.bits (p * q) == bits)) [
        | inr wrong_size ↦ inl (rw (key_of_primes, different, wrong_size) refl)
        | inl size ↦ elim (Bool-cases (y.gcd ((p - 1) * (q - 1)) 65537 == 1)) [
          | inr shared ↦ inl (rw (key_of_primes, different, size, shared) refl)
          | inl coprime ↦
              let (d, inverse, below) =
                mod_inverse-some 65537 ((p - 1) * (q - 1)) phi_positive
                  ((nat_same_iff _ 1).0 coprime) in
              inr (
                d,
                rw (key_of_primes, different, size, coprime, inverse) refl,
                below,
                (nat_same_iff _ bits).0 size,
                λ e. ground (arith, e, different),
              )
        ]
      ]
    ]
