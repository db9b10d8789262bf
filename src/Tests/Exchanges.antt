-- ===== src/Tests/Exchanges.antt =====
-- The properties of the exchanges, of the hash and of the signatures, at concrete inputs.
use digital_euro_wallet.Prelude.{
  ℕ, ◌+◌, ◌≤◌, ◌≡◌, ◌≢◌, ◌↔◌, ◌⊎◌, refl, true, Bytes, List, [], ◌∷◌, arith, ok, err, length,
  replicate,
}
use digital_euro_wallet.Id.{AccountId, account_eq}
use digital_euro_wallet.Error.{amount_mismatch, already_credited, replay}
use digital_euro_wallet.Signature
use digital_euro_wallet.Signature.RoundTrip.{verify-sign}
use digital_euro_wallet.Signature.Forged.{verify-sign_iff}
use digital_euro_wallet.Signature.Expansion.{expand-full}
use digital_euro_wallet.Hash.Encoding.{Collision}
use digital_euro_wallet.Message.{PaymentRequest}
use digital_euro_wallet.Message.Transfer.{Transfer}
use digital_euro_wallet.Message.Transfer
use digital_euro_wallet.Message.Binding.{Signed, SameSigned, IsTyped, digest_of, digest-binds}
use digital_euro_wallet.Wallet
use digital_euro_wallet.Wallet.{Wallet}
use digital_euro_wallet.Wallet.History.{Call, run}
use digital_euro_wallet.Wallet.Request.{opened, request_of, paid}
use digital_euro_wallet.Wallet.Genuine.{debited, signed_transfer, signed_defunding}
use digital_euro_wallet.Issuer
use digital_euro_wallet.Issuer.{Issuer, DeviceRecord}
use digital_euro_wallet.Issuer.Redemptions.{cashed}
use digital_euro_wallet.Protocol
use digital_euro_wallet.Protocol.Enrolment.{
  enrolment, install-eq-enrolment, new_wallet, registered, new_entry,
}
use digital_euro_wallet.Protocol.Payment.{payment, pay-eq-payment}
use digital_euro_wallet.Protocol.Funding.{topup, fund-eq-topup}
use digital_euro_wallet.Protocol.Defunding.{redemption, defund-eq-redemption}
use digital_euro_wallet.Protocol.Stranded.{pay_altered_request, pay-request_twice, defund_overtaken}
use digital_euro_wallet.Tests.Toy.{
  toy, toy-AreDocumented, counting, issuer_key, issuer_key-IsKeypair, device_key,
}
use digital_euro_wallet.Tests.Parties.{
  Signing, alice, bakery, bank, entry_of, parties-AreReady, alice-IsEnrolled, alice-IsFreshFunding,
}

pay-eq-payment_example : Protocol.pay alice bakery 600 ≡ payment alice bakery 600
pay-eq-payment_example = pay-eq-payment toy-AreDocumented alice bakery 600 parties-AreReady

fund-eq-topup_example : Protocol.fund alice bank 700 ≡ topup alice bank (entry_of 11) 5000 700
fund-eq-topup_example =
    fund-eq-topup toy-AreDocumented alice bank (entry_of 11) 5000 700 alice-IsEnrolled
      alice-IsFreshFunding

defund-eq-redemption_example :
    Protocol.defund alice bank 400 ≡ redemption alice bank (entry_of 11) 5000 400
defund-eq-redemption_example =
    defund-eq-redemption toy-AreDocumented alice bank (entry_of 11) 5000 400 alice-IsEnrolled
      (omega arith)

abbrev account : AccountId
account = record { bytes = replicate 16 11 }

install-eq-enrolment_example :
    Protocol.install {R = ℕ} {G = ℕ} device_key bank account 50000 7 9
    ≡ enrolment device_key bank account 50000 7 9
install-eq-enrolment_example =
    install-eq-enrolment device_key bank account 50000 7 9 toy-AreDocumented issuer_key-IsKeypair

abbrev carol : Wallet ℕ
carol = new_wallet {R = ℕ} {G = ℕ} device_key bank account 50000 7 9

abbrev larger_bank : Issuer
larger_bank = registered {R = ℕ} {G = ℕ} device_key bank account 50000 7 9

abbrev carol_entry : DeviceRecord
carol_entry = new_entry {R = ℕ} {G = ℕ} device_key bank account 50000 7 9

others : Wallet.device bakery ≢ Wallet.device alice
others e = ground arith

abbrev bread : PaymentRequest
bread = request_of 600 bakery

abbrev dear_bread : PaymentRequest
dear_bread = record bread { amount_cents = 900 }

pay_altered_request_example :
    (Wallet.pay dear_bread alice ≡ (ok (signed_transfer dear_bread alice), debited 900 alice))
    × (Wallet.receive (signed_transfer dear_bread alice) (opened 600 bakery)
        ≡ (err (amount_mismatch 600 900), opened 600 bakery))
pay_altered_request_example =
    pay_altered_request toy-AreDocumented alice bakery 600 parties-AreReady others 900 (omega arith)
      (omega arith) (omega arith)

abbrev small_bread : PaymentRequest
small_bread = request_of 300 bakery

abbrev later : List Call
later = Call.request_payment 50 ∷ Call.defund 10 ∷ []

pay-request_twice_example :
    (Wallet.pay small_bread (debited 300 alice)
      ≡ (ok (signed_transfer small_bread (debited 300 alice)), debited 300 (debited 300 alice)))
    × (Wallet.receive
          (signed_transfer small_bread (debited 300 alice))
          (run later (paid 300 bakery))
        ≡ (err already_credited, run later (paid 300 bakery)))
pay-request_twice_example =
    pay-request_twice toy-AreDocumented alice bakery 300 parties-AreReady others later (omega arith)
      (omega arith)

defund_overtaken_example :
    let alice' = debited 300 alice in
    let bank' = cashed (signed_defunding 400 alice') (entry_of 11) 5000 bank in
    (Wallet.defund 300 alice ≡ (ok (signed_defunding 300 alice), alice'))
    × (Wallet.defund 400 alice' ≡ (ok (signed_defunding 400 alice'), debited 400 alice'))
    × (Issuer.defund (signed_defunding 400 alice') bank ≡ (ok 400, bank'))
    × (Issuer.defund (signed_defunding 300 alice) bank' ≡ (err replay, bank'))
defund_overtaken_example =
    defund_overtaken alice bank (entry_of 11) 5000 300 400 toy-AreDocumented alice-IsEnrolled
      (omega arith) (omega arith) (omega arith) (omega arith)

abbrev digest : Bytes
digest = 200 ∷ 17 ∷ []

verify-sign_example :
    Signature.verify issuer_key.public digest (Signature.sign issuer_key digest) ≡ true
verify-sign_example = verify-sign toy-AreDocumented issuer_key digest issuer_key-IsKeypair

abbrev other_digest : Bytes
other_digest = 9 ∷ digest

verify-sign_iff_example :
    (Signature.verify issuer_key.public other_digest (Signature.sign issuer_key digest) ≡ true) ↔ (
      Signature.full_domain_hash issuer_key.public digest
      ≡ Signature.full_domain_hash issuer_key.public other_digest)
verify-sign_iff_example =
    verify-sign_iff toy-AreDocumented issuer_key digest other_digest issuer_key-IsKeypair

expand-full_example :
    let width = Signature.modulus_bytes issuer_key.public in
    (width ≤ length (Signature.expand width width digest [] 0))
    × (Signature.expand (width + 9) width digest [] 0 ≡ Signature.expand width width digest [] 0)
expand-full_example = expand-full toy-AreDocumented issuer_key.public digest 9

-- The hash of this `Crates` adds bytes up, so two amounts with one sum collide.
abbrev order : Signed
order = Signed.transfer (record (signed_transfer bread alice) { amount_cents = 258 })

abbrev order' : Signed
order' = Signed.transfer (record (signed_transfer bread alice) { amount_cents = 513 })

order-IsTyped : IsTyped order
unfolding Signing
order-IsTyped = omega arith

order'-IsTyped : IsTyped order'
unfolding Signing
order'-IsTyped = omega arith

same_digests : digest_of order ≡ digest_of order'
unfolding Signing Transfer.digest
same_digests = refl

digest-binds_example : SameSigned order order' ⊎ Collision
digest-binds_example =
    digest-binds toy-AreDocumented order order' order-IsTyped order'-IsTyped same_digests
