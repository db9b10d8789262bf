-- ===== src/Signature/Generation.antt =====
-- Key generation of src/signature.rs. The loops that draw until a candidate is accepted take fuel:
-- `none` is a panic, or that no candidate was accepted in so many draws.
use digital_euro_wallet.Prelude.{
  ℕ, zero, suc, ◌-◌, ◌*◌, ◌/◌, ◌%◌, not, ◌||◌, Option, none, some, ◌==◌, nat_eq, ltb, if◌then◌else◌,
}
use digital_euro_wallet.Prelude.Int.{ℤ, pos, negsuc, int_eq}
use digital_euro_wallet.Crates.{Crates, KeyCrates, BigRng, BigUint}
use digital_euro_wallet.Signature.{Keypair}
use digital_euro_wallet.Signature.Primality.{is_probable_prime}

-- `to_biguint`
abbrev to_biguint : ℤ → Option BigUint
to_biguint (pos n) = some n
to_biguint (negsuc n) = none

unfoldable pub mod_inverse : ⦃y : KeyCrates⦄ → BigUint → BigUint → Option BigUint
mod_inverse ⦃y⦄ a modulus =
    let (gcd, coefficient) = y.extended_gcd (pos a) (pos modulus) in
    if not (gcd == pos 1) then none else to_biguint (y.mod_floor_int coefficient (pos modulus))

module _ {G : Type 0} ⦃x : Crates⦄ ⦃y : KeyCrates⦄ ⦃g : BigRng G⦄ where
  -- the candidate drawn: full size, the next bit set too, and odd
  unfoldable pub draw_candidate : ℕ → G → BigUint × G
  draw_candidate bits rng =
      let (drawn, rng') = g.gen_biguint bits rng in
      (y.set_bit (y.set_bit (y.set_bit drawn (bits - 1)) (bits - 2)) 0, rng')

  unfoldable pub generate_prime : ℕ → ℕ → G → Option (BigUint × G)
  generate_prime zero bits rng = none
  generate_prime (suc fuel) bits rng =
      let (candidate, rng') = draw_candidate bits rng in
      let (accepted, rng'') = is_probable_prime candidate 40 rng' in
      let rest = generate_prime fuel bits rng'' in
      if accepted then some (candidate, rng'') else rest

-- What one turn of the loop of `generate` comes to: it draws again, it panics, or it has a key.
pub data Attempt : Type 0 where
  retry panic : Attempt
  made : Keypair → Attempt

unfoldable pub key_of_primes : ⦃x : Crates⦄ → ⦃y : KeyCrates⦄ → ℕ → BigUint → BigUint → Attempt
key_of_primes ⦃x⦄ ⦃y⦄ bits p q =
    let n = p * q in
    let phi = (p - 1) * (q - 1) in
    if p == q
    then retry
    else if not (x.bits n == bits)
    then retry
    else if not (y.gcd phi 65537 == 1)
    then retry
    else elim (mod_inverse 65537 phi) [
      | none ↦ panic
      | some d ↦ made (record { public = record { n = n; e = 65537 }; d = d })
    ]

module _ {G : Type 0} ⦃x : Crates⦄ ⦃y : KeyCrates⦄ ⦃g : BigRng G⦄ where
  -- `tries` is the fuel of each search for a prime
  unfoldable pub generate_loop : ℕ → ℕ → ℕ → G → Option (Keypair × G)
  generate_loop zero tries bits rng = none
  generate_loop (suc fuel) tries bits rng = elim (generate_prime tries (bits / 2) rng) [
    | none ↦ none
    | some (p, rng_p) ↦ elim (generate_prime tries (bits / 2) rng_p) [
      | none ↦ none
      | some (q, rng_q) ↦ elim (key_of_primes bits p q) [
        | retry ↦ generate_loop fuel tries bits rng_q
        | panic ↦ none
        | made key ↦ some (key, rng_q)
      ]
    ]
  ]

  unfoldable pub generate : ℕ → ℕ → ℕ → G → Option (Keypair × G)
  generate fuel tries bits rng =
      if ltb bits 512 || not (bits % 2 == 0) then none else generate_loop fuel tries bits rng
