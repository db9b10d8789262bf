-- ===== src/Signature/Forged.antt =====
-- A signature of one digest against another digest.
use digital_euro_wallet.Prelude.{
  ◌%◌, ◌^◌, ◌≡◌, ◌≢◌, ◌↔◌, true, false, Bytes, arith, Bool-cases, inl, inr, nat_eq,
}
use native.Mathlib.Nat.{mod-lt}
use digital_euro_wallet.Crates.{Crates, AreDocumented}
use digital_euro_wallet.Signature.{Keypair, full_domain_hash, verify, sign}
use digital_euro_wallet.Signature.RoundTrip.{IsKeypair, full_domain_hash-lt}

module _ ⦃x : Crates⦄ (doc : AreDocumented x) (k : Keypair) (digest other : Bytes)
    (h : IsKeypair k) where
  -- The signature of an RSA key on one digest verifies for another exactly when the full-domain
  -- hashes of the two are the same.
  pub verify-sign_iff :
      (verify k.public other (sign k digest) ≡ true)
      ↔ (full_domain_hash k.public digest ≡ full_domain_hash k.public other)
  unfolding verify sign
  verify-sign_iff =
      let n = k.public.n in
      let m = full_domain_hash k.public digest in
      ground (
        arith,
        doc.modpow_lem m k.d n h.modulus_pos,
        doc.modpow_lem (m ^ k.d % n) k.public.e n h.modulus_pos,
        mod-lt (m ^ k.d) h.modulus_pos,
        h.inverse m (full_domain_hash-lt doc k.public digest h.modulus_pos),
      )

  pub verify-sign_other :
      full_domain_hash k.public digest ≢ full_domain_hash k.public other
      → verify k.public other (sign k digest) ≡ false
  verify-sign_other ne = elim (Bool-cases (verify k.public other (sign k digest))) [
    | inl accepted ↦ absurd (ne (verify-sign_iff.0 accepted))
    | inr refused ↦ refused
  ]
