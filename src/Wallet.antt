-- ===== src/Wallet.antt =====
-- src/wallet.rs: the applet on a secure element. A method on `&mut self` returns its result and the
-- wallet that it left, after an error too.
pub mod Accounting
pub mod Invariant
pub mod History
pub mod Atomic
pub mod Credit
pub mod Once
pub mod Genuine
pub mod Request
pub mod Topup
use digital_euro_wallet.Prelude.{
  ℕ, ◌-◌, Bool, not, ◌||◌, Bytes, ◌==◌, nat_eq, list_eq, ltb, if◌then◌else◌, ok, err, pure, gets,
  or_raise, raise_if, modify, ◌>>=◌, ◌>>◌, add_u64, sum_u64,
}
use digital_euro_wallet.HashMap
use digital_euro_wallet.HashMap.{HashMap, HashSet}
use digital_euro_wallet.Crates.{Crates, Rng}
use digital_euro_wallet.Id.{DeviceId, device_eq}
use digital_euro_wallet.Error.{
  Result, Action, invalid_certificate, invalid_signature, not_for_this_device, self_payment,
  zero_amount, insufficient_funds, holding_limit_exceeded, unknown_request, already_credited,
  amount_mismatch,
}
use digital_euro_wallet.Signature
use digital_euro_wallet.Signature.{PublicKey, Keypair, key_eq}
use digital_euro_wallet.Certificate
use digital_euro_wallet.Certificate.{DeviceCertificate}
use digital_euro_wallet.Message.{PaymentRequest}
use digital_euro_wallet.Message.Transfer
use digital_euro_wallet.Message.Transfer.{Transfer}
use digital_euro_wallet.Message.FundingRequest
use digital_euro_wallet.Message.FundingRequest.{FundingRequest}
use digital_euro_wallet.Message.Funding
use digital_euro_wallet.Message.Funding.{Funding}
use digital_euro_wallet.Message.Defunding
use digital_euro_wallet.Message.Defunding.{Defunding}

pub data ElementState : Type 0 where
  sealed cracked : ElementState

pub record Wallet (R : Type 0) : Type 0 where
  pub certificate : DeviceCertificate
  pub keypair : Keypair
  pub issuer : PublicKey
  pub balance_cents : ℕ
  pub incoming : HashMap Bytes ℕ
  pub pending_funding : HashMap Bytes ℕ
  pub credited : HashSet Bytes
  pub counter : ℕ
  pub state : ElementState
  pub rng : R

-- the debit that only a sealed element makes
abbrev pub balance_after : ElementState → ℕ → ℕ → ℕ
balance_after sealed available amount_cents = available - amount_cents
balance_after cracked available amount_cents = available

module _ {R : Type 0} where
  abbrev pub device : Wallet R → DeviceId
  device w = w.certificate.device

  abbrev pub balance : Wallet R → ℕ
  balance w = w.balance_cents

  abbrev pub holding_limit : Wallet R → ℕ
  holding_limit w = w.certificate.holding_limit_cents

  unfoldable pub reserved : Wallet R → ℕ
  reserved w =
      add_u64 (sum_u64 (HashMap.values w.incoming)) (sum_u64 (HashMap.values w.pending_funding))

  -- `-` stops at 0, as `saturating_sub` does
  unfoldable pub headroom : Wallet R → ℕ
  headroom w = holding_limit w - w.balance_cents - reserved w

  unfoldable pub crack_secure_element : Wallet R → Wallet R
  crack_secure_element w = record w { state = cracked }

  unfoldable pub debit : ℕ → Action (Wallet R) ℕ
  debit amount_cents = do
    raise_if (amount_cents == 0) zero_amount
    available ← gets (λ w. w.balance_cents)
    raise_if (ltb available amount_cents) (insufficient_funds amount_cents available)
    modify (λ w. record w { balance_cents = balance_after w.state w.balance_cents amount_cents })
    modify (λ w. record w { counter = add_u64 w.counter 1 })
    gets (λ w. w.counter)

  unfoldable pub cancel_request : Bytes → Wallet R → Bool × Wallet R
  cancel_request nonce w =
      (HashMap.contains nonce w.incoming, record w { incoming = HashMap.remove nonce w.incoming })

  unfoldable pub cancel_funding : Bytes → Wallet R → Bool × Wallet R
  cancel_funding nonce w = (
    HashMap.contains nonce w.pending_funding,
    record w { pending_funding = HashMap.remove nonce w.pending_funding },
  )

module _ {R : Type 0} ⦃x : Crates⦄ where
  -- `Wallet::new`
  unfoldable pub new : DeviceCertificate → Keypair → PublicKey → R → Result (Wallet R)
  new certificate keypair issuer rng =
      if not (Certificate.verify certificate issuer)
        || not (certificate.public_key == keypair.public)
      then err invalid_certificate
      else ok (record {
        certificate = certificate;
        keypair = keypair;
        issuer = issuer;
        balance_cents = 0;
        incoming = HashMap.new;
        pending_funding = HashMap.new;
        credited = HashMap.new;
        counter = 0;
        state = sealed;
        rng = rng;
      })

  -- as payee: what a transfer must pass, in the source's order, and the amount expected
  unfoldable pub receive : Transfer → Action (Wallet R) ℕ
  receive transfer = do
    w ← gets (λ w. w)
    raise_if (not (transfer.payee == device w)) not_for_this_device
    raise_if (not (Certificate.verify transfer.payer w.issuer)) invalid_certificate
    raise_if
        (not (
          Signature.verify transfer.payer.public_key (Transfer.digest transfer) transfer.signature))
        invalid_signature
    raise_if (HashMap.contains transfer.nonce w.credited) already_credited
    expected ← or_raise (HashMap.get transfer.nonce w.incoming) unknown_request
    raise_if (not (transfer.amount_cents == expected))
        (amount_mismatch expected transfer.amount_cents)
    modify (λ w. record w { incoming = HashMap.remove transfer.nonce w.incoming })
    modify (λ w. record w { credited = HashMap.insert transfer.nonce tt w.credited })
    modify (λ w. record w { balance_cents = add_u64 w.balance_cents expected })
    pure expected

  -- as payer: every check stands before the debit
  unfoldable pub pay : PaymentRequest → Action (Wallet R) Transfer
  unfolding debit
  pay request = do
    w ← gets (λ w. w)
    raise_if (not (Certificate.verify request.payee w.issuer)) invalid_certificate
    raise_if (request.payee.device == device w) self_payment
    counter ← debit request.amount_cents
    let unsigned : Transfer = record {
      payer = w.certificate;
      payee = request.payee.device;
      amount_cents = request.amount_cents;
      nonce = request.nonce;
      counter = counter;
      signature = 0;
    }
    pure (record unsigned { signature = Signature.sign w.keypair (Transfer.digest unsigned) })

  unfoldable pub apply_funding : Funding → Action (Wallet R) ℕ
  apply_funding funding = do
    w ← gets (λ w. w)
    raise_if (not (funding.device == device w)) not_for_this_device
    raise_if (not (Signature.verify w.issuer (Funding.digest funding) funding.signature))
        invalid_signature
    raise_if (HashMap.contains funding.nonce w.credited) already_credited
    expected ← or_raise (HashMap.get funding.nonce w.pending_funding) unknown_request
    raise_if (not (funding.amount_cents == expected))
        (amount_mismatch expected funding.amount_cents)
    modify (λ w. record w { pending_funding = HashMap.remove funding.nonce w.pending_funding })
    modify (λ w. record w { credited = HashMap.insert funding.nonce tt w.credited })
    modify (λ w. record w { balance_cents = add_u64 w.balance_cents expected })
    pure expected

  unfoldable pub defund : ℕ → Action (Wallet R) Defunding
  unfolding debit
  defund amount_cents = do
    counter ← debit amount_cents
    w ← gets (λ w. w)
    let unsigned : Defunding = record {
      device = device w;
      amount_cents = amount_cents;
      counter = counter;
      signature = 0;
    }
    pure (record unsigned { signature = Signature.sign w.keypair (Defunding.digest unsigned) })

module _ {R : Type 0} ⦃g : Rng R⦄ where
  -- `self.rng.gen()`
  abbrev pub draw_nonce : Action (Wallet R) Bytes
  draw_nonce w = let (nonce, rng) = g.gen_bytes16 w.rng in (ok nonce, record w { rng = rng })

  unfoldable pub reserve : ℕ → Action (Wallet R) Bytes
  unfolding headroom
  reserve amount_cents = do
    raise_if (amount_cents == 0) zero_amount
    room ← gets headroom
    raise_if (ltb room amount_cents) (holding_limit_exceeded amount_cents room)
    draw_nonce

  unfoldable pub request_payment : ℕ → Action (Wallet R) PaymentRequest
  unfolding reserve
  request_payment amount_cents = do
    nonce ← reserve amount_cents
    modify (λ w. record w { incoming = HashMap.insert nonce amount_cents w.incoming })
    w ← gets (λ w. w)
    pure (record { payee = w.certificate; amount_cents = amount_cents; nonce = nonce })

module _ {R : Type 0} ⦃x : Crates⦄ ⦃g : Rng R⦄ where
  unfoldable pub request_funding : ℕ → Action (Wallet R) FundingRequest
  unfolding reserve
  request_funding amount_cents = do
    nonce ← reserve amount_cents
    modify (λ w. record w { pending_funding = HashMap.insert nonce amount_cents w.pending_funding })
    w ← gets (λ w. w)
    let unsigned : FundingRequest = record {
      device = device w;
      amount_cents = amount_cents;
      nonce = nonce;
      signature = 0;
    }
    pure (record unsigned { signature = Signature.sign w.keypair (FundingRequest.digest unsigned) })
