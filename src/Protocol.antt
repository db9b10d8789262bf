-- ===== src/Protocol.antt =====
-- src/lib.rs: the exchanges between a wallet and the issuer, and between two wallets. Each returns
-- its result and both parties' states.
pub mod Payment
pub mod Enrolled
pub mod Enrolment
pub mod Defunding
pub mod Funding
pub mod Stranded
use digital_euro_wallet.Prelude.{ℕ, ok, err, Option, none, some}
use digital_euro_wallet.Crates.{Crates, Rng, KeyCrates, BigRng}
use digital_euro_wallet.Id.{AccountId}
use digital_euro_wallet.Signature.{Keypair}
use digital_euro_wallet.Signature.Generation.{generate}
use digital_euro_wallet.Error.{Result}
use digital_euro_wallet.Wallet
use digital_euro_wallet.Wallet.{Wallet}
use digital_euro_wallet.Issuer
use digital_euro_wallet.Issuer.{Issuer}

module _ {R : Type 0} ⦃x : Crates⦄ ⦃g : Rng R⦄ where
  unfoldable pub fund : Wallet R → Issuer → ℕ → Result ℕ × Wallet R × Issuer
  fund wallet issuer amount_cents =
      let (requested, wallet') = Wallet.request_funding amount_cents wallet in
      elim requested [
        | err error ↦ (err error, wallet', issuer)
        | ok request ↦
            let (granted, issuer') = Issuer.fund request issuer in
            elim granted [
              | ok funding ↦
                  let (credited, wallet'') = Wallet.apply_funding funding wallet' in
                  (credited, wallet'', issuer')
              | err error ↦ (err error, (Wallet.cancel_funding request.nonce wallet').1, issuer')
            ]
      ]

module _ {R : Type 0} ⦃x : Crates⦄ where
  unfoldable pub defund : Wallet R → Issuer → ℕ → Result ℕ × Wallet R × Issuer
  defund wallet issuer amount_cents =
      let (ordered, wallet') = Wallet.defund amount_cents wallet in
      elim ordered [
        | err error ↦ (err error, wallet', issuer)
        | ok defunding ↦
            let (credited, issuer') = Issuer.defund defunding issuer in (credited, wallet', issuer')
      ]

module _ {P Q : Type 0} ⦃x : Crates⦄ ⦃q : Rng Q⦄ where
  unfoldable pub pay : Wallet P → Wallet Q → ℕ → Result ℕ × Wallet P × Wallet Q
  pay payer payee amount_cents =
      let (requested, payee') = Wallet.request_payment amount_cents payee in
      elim requested [
        | err error ↦ (err error, payer, payee')
        | ok request ↦
            let (paid, payer') = Wallet.pay request payer in
            elim paid [
              | ok transfer ↦
                  let (credited, payee'') = Wallet.receive transfer payee' in
                  (credited, payer', payee'')
              | err error ↦ (err error, payer', (Wallet.cancel_request request.nonce payee').1)
            ]
      ]

module _ {R G : Type 0} ⦃x : Crates⦄ ⦃q : Rng G⦄ where
  -- `enrol` after the key was generated: certification, and installation in the element
  unfoldable pub install : Keypair → Issuer → AccountId → ℕ → R → G → Result (Wallet R) × Issuer × G
  install keypair issuer account holding_limit_cents device_rng rng =
      let (certified, (issuer', rng')) =
        Issuer.certify_device account keypair.public holding_limit_cents (issuer, rng) in
      elim certified [
        | err error ↦ (err error, issuer', rng')
        | ok certificate ↦
            (Wallet.new certificate keypair (Issuer.public_key issuer') device_rng, issuer', rng')
      ]

  -- `none` is a panic of the key generation, or its fuel run out
  unfoldable pub enrol :
      ⦃y : KeyCrates⦄
      → ⦃b : BigRng G⦄ → ℕ
      → ℕ
      → Issuer
      → AccountId
      → ℕ
      → ℕ
      → R
      → G
      → Option (Result (Wallet R) × Issuer × G)
  enrol fuel tries issuer account holding_limit_cents key_bits device_rng rng =
      elim (generate fuel tries key_bits rng) [
        | none ↦ none
        | some (keypair, rng') ↦
            some (install keypair issuer account holding_limit_cents device_rng rng')
      ]
