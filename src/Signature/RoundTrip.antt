-- ===== src/Signature/RoundTrip.antt =====
-- What a key signs, its public half verifies.
use digital_euro_wallet.Prelude.{◌%◌, ◌^◌, ◌<◌, ◌≡◌, true, Bytes, arith}
use native.Mathlib.Nat.{mod-lt}
use digital_euro_wallet.Crates.{Crates, AreDocumented, BigUint}
use digital_euro_wallet.Signature.{PublicKey, Keypair, full_domain_hash, verify, sign}

-- The exponents undo one another modulo `n`, which is what makes an RSA key.
pub record IsKeypair (k : Keypair) : Type 0 where
  pub modulus_pos : 0 < k.public.n
  pub inverse :
      (m : BigUint) → m < k.public.n → (m ^ k.d % k.public.n) ^ k.public.e % k.public.n ≡ m

module _ ⦃x : Crates⦄ (doc : AreDocumented x) where
  pub full_domain_hash-lt :
      (key : PublicKey) (digest : Bytes) → 0 < key.n → full_domain_hash key digest < key.n
  unfolding full_domain_hash
  full_domain_hash-lt key digest h = rw (doc.mod_floor_lem _ key.n h) (mod-lt _ h)

  -- A signature made with an RSA key verifies under its public key, for every digest.
  pub verify-sign :
      (k : Keypair) (digest : Bytes) → IsKeypair k → verify k.public digest (sign k digest) ≡ true
  unfolding verify sign
  verify-sign k digest h =
      let n = k.public.n in
      let m = full_domain_hash k.public digest in
      ground (
        arith,
        doc.modpow_lem m k.d n h.modulus_pos,
        doc.modpow_lem (m ^ k.d % n) k.public.e n h.modulus_pos,
        mod-lt (m ^ k.d) h.modulus_pos,
        h.inverse m (full_domain_hash-lt k.public digest h.modulus_pos),
      )
