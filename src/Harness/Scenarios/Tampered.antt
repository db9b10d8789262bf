-- ===== src/Harness/Scenarios/Tampered.antt =====
-- The scenario of replay and tampering of src/main.rs.
use digital_euro_wallet.Prelude.{list_eq, ◌≡◌, ◌≢◌, refl, true, false, arith, err, nat_eq}
use digital_euro_wallet.HashMap.Laws.{get-insert_self}
use digital_euro_wallet.Crates.{Crates, Rng, AreDocumented}
use digital_euro_wallet.Error.{invalid_signature, already_credited}
use digital_euro_wallet.Id.{device_eq, device_same_iff}
use digital_euro_wallet.Certificate
use digital_euro_wallet.Message.Transfer
use digital_euro_wallet.Message.Transfer.{Transfer}
use digital_euro_wallet.Signature
use digital_euro_wallet.Signature.{full_domain_hash}
use digital_euro_wallet.Signature.Forged.{verify-sign_other}
use digital_euro_wallet.Wallet
use digital_euro_wallet.Wallet.{Wallet}
use digital_euro_wallet.Wallet.Genuine.{
  unsigned_transfer, signed_transfer, signed_transfer-verifies,
}
use digital_euro_wallet.Wallet.Request.{opened, paid, request_of, next_nonce}
use digital_euro_wallet.Wallet.Credit.{receive_repeated}
use digital_euro_wallet.Protocol.Payment.{AreReady}

module _ {R : Type 0} ⦃x : Crates⦄ where
  -- A transfer that the signature does not cover.
  receive_forged :
      (t : Transfer) (w : Wallet R)
      → t.payee ≡ Wallet.device w
      → Certificate.verify t.payer w.issuer ≡ true
      → Signature.verify t.payer.public_key (Transfer.digest t) t.signature ≡ false
      → Wallet.receive t w ≡ (err invalid_signature, w)
  unfolding Wallet.receive
  receive_forged t w here certified forged =
      ground (arith, certified, forged, here, device_same_iff t.payee (Wallet.device w))

module _ {R : Type 0} ⦃x : Crates⦄ ⦃g : Rng R⦄ where
  -- The payer's hashes of its transfer, and of the transfer with another amount or payee, differ.
  pub record AreApart (payer payee third : Wallet R) : Type 0 where
    pub amounts :
        full_domain_hash payer.keypair.public
          (Transfer.digest (unsigned_transfer (request_of 600 payee) payer))
        ≢ full_domain_hash payer.keypair.public (
            Transfer.digest
              (record (unsigned_transfer (request_of 600 payee) payer) { amount_cents = 6000 }))
    pub payees :
        full_domain_hash payer.keypair.public
          (Transfer.digest (unsigned_transfer (request_of 600 payee) payer))
        ≢ full_domain_hash payer.keypair.public (
            Transfer.digest (record (unsigned_transfer (request_of 600 payee) payer) {
              payee = Wallet.device third;
            }))

  module _ (doc : AreDocumented x) (payer payee third : Wallet R) (ready : AreReady payer payee)
      (apart : AreApart payer payee third) where
    abbrev transfer : Transfer
    transfer = signed_transfer (request_of 600 payee) payer

    pub inflated-refused :
        Wallet.receive (record transfer { amount_cents = 6000 }) (opened 600 payee)
        ≡ (err invalid_signature, opened 600 payee)
    unfolding Transfer.digest
    inflated-refused =
        receive_forged (record transfer { amount_cents = 6000 }) (opened 600 payee) refl
          (rw (← ready.same_issuer) ready.payer_genuine.certified)
          (rw ready.payer_genuine.own_key
            (verify-sign_other doc payer.keypair _ _ ready.payer_genuine.keypair apart.amounts))

    pub redirected-refused :
        third.issuer ≡ payer.issuer
        → Wallet.receive (record transfer { payee = Wallet.device third }) third
          ≡ (err invalid_signature, third)
    unfolding Transfer.digest
    redirected-refused same =
        receive_forged (record transfer { payee = Wallet.device third }) third refl
          (rw same ready.payer_genuine.certified)
          (rw ready.payer_genuine.own_key
            (verify-sign_other doc payer.keypair _ _ ready.payer_genuine.keypair apart.payees))

    pub replayed-refused :
        Wallet.receive transfer (paid 600 payee) ≡ (err already_credited, paid 600 payee)
    replayed-refused =
        receive_repeated transfer (paid 600 payee)
          (record {
            for_this_device = refl;
            certified = rw (← ready.same_issuer) ready.payer_genuine.certified;
            signed = signed_transfer-verifies (request_of 600 payee) payer doc ready.payer_genuine;
          })
          (get-insert_self {V = Unit {0}} (next_nonce payee) tt payee.credited)
