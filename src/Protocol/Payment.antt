-- ===== src/Protocol/Payment.antt =====
-- `pay` of src/lib.rs: an offline payment between two genuine wallets of one issuer.
use digital_euro_wallet.Prelude.{
  ℕ, ◌≤◌, ◌<◌, ◌≡◌, refl, true, arith, ok, err, list_eq, nat_eq, nat_same, ltb, ◌==◌, if◌then◌else◌,
}
use digital_euro_wallet.HashMap.Laws.{get-insert_self, remove-insert}
use digital_euro_wallet.Crates.{Crates, Rng, AreDocumented}
use digital_euro_wallet.Error.{
  Result, zero_amount, holding_limit_exceeded, self_payment, insufficient_funds,
}
use digital_euro_wallet.Id.{device_eq, device_same_iff}
use digital_euro_wallet.Certificate
use digital_euro_wallet.Wallet
use digital_euro_wallet.Wallet.{Wallet, balance_after}
use digital_euro_wallet.Wallet.Accounting.{IsWellFormed}
use digital_euro_wallet.Wallet.Invariant.{request_payment-IsWellFormed}
use digital_euro_wallet.Wallet.Credit.{IsCreditable, receive-creditable}
use digital_euro_wallet.Wallet.Request.{
  next_nonce, IsFresh, opened, request_of, paid, redrawn, cancel_opened, request_payment_zero,
  request_payment_over, request_payment_granted,
}
use digital_euro_wallet.Wallet.Genuine.{
  pay_self, pay_short, IsGenuine, debited, signed_transfer, signed_transfer-verifies, pay_granted,
}
use digital_euro_wallet.Protocol

module _ {P Q : Type 0} ⦃x : Crates⦄ ⦃q : Rng Q⦄ where
  -- Two genuine wallets of one issuer, the payee within its limit and with a fresh nonce next.
  pub record AreReady (payer : Wallet P) (payee : Wallet Q) : Type 0 where
    pub payer_genuine : IsGenuine payer
    pub payee_genuine : IsGenuine payee
    pub same_issuer : payer.issuer ≡ payee.issuer
    pub payee_formed : IsWellFormed payee
    pub payee_fresh : IsFresh payee

  -- What a payment does, in the order in which its refusals come: this is the whole of it.
  abbrev pub payment : Wallet P → Wallet Q → ℕ → Result ℕ × Wallet P × Wallet Q
  payment payer payee amount_cents =
      if nat_same amount_cents 0
      then (err zero_amount, payer, payee)
      else if ltb (Wallet.headroom payee) amount_cents
      then (err (holding_limit_exceeded amount_cents (Wallet.headroom payee)), payer, payee)
      else if Wallet.device payee == Wallet.device payer
      then (err self_payment, payer, redrawn payee)
      else if ltb (Wallet.balance payer) amount_cents
      then (err (insufficient_funds amount_cents (Wallet.balance payer)), payer, redrawn payee)
      else (ok amount_cents, debited amount_cents payer, paid amount_cents payee)

  module _ (doc : AreDocumented x) (payer : Wallet P) (payee : Wallet Q) (amount_cents : ℕ)
      (ready : AreReady payer payee) where
    -- The payer's answer to the payee's request is creditable at the payee.
    transfer-IsCreditable :
        IsCreditable
          (signed_transfer (request_of amount_cents payee) payer)
          (opened amount_cents payee)
    transfer-IsCreditable = record {
      for_this_device = refl;
      certified = rw (← ready.same_issuer) ready.payer_genuine.certified;
      signed =
          signed_transfer-verifies (request_of amount_cents payee) payer doc ready.payer_genuine;
      not_credited = ready.payee_fresh.not_credited;
      requested = get-insert_self (next_nonce payee) amount_cents payee.incoming;
    }

    opened-IsWellFormed :
        0 < amount_cents
        → amount_cents ≤ Wallet.headroom payee
        → IsWellFormed (opened amount_cents payee)
    opened-IsWellFormed pos room =
        rw (request_payment_granted amount_cents payee pos room) at
          (request_payment-IsWellFormed payee ready.payee_formed amount_cents)

    -- By the time the payer has debited, the credit cannot fail.
    pub receive_cannot_fail :
        0 < amount_cents
        → amount_cents ≤ Wallet.headroom payee
        → Wallet.receive
            (signed_transfer (request_of amount_cents payee) payer)
            (opened amount_cents payee)
          ≡ (ok amount_cents, paid amount_cents payee)
    receive_cannot_fail pos room =
        rw
          (receive-creditable _ (opened amount_cents payee) (opened-IsWellFormed pos room)
            transfer-IsCreditable)
          (rw
            (remove-insert (next_nonce payee) amount_cents payee.incoming
              ready.payee_fresh.not_open)
            refl)

    pub payee-certified : Certificate.verify payee.certificate payer.issuer ≡ true
    payee-certified = rw ready.same_issuer ready.payee_genuine.certified

    -- Between two genuine wallets of one issuer, the payee within its holding limit and with a
    -- fresh nonce next, `pay` is exactly `payment`: it is refused for a zero amount, a payee without
    -- room, a payment to oneself or a payer without cover, in that order, and then both wallets are
    -- as they were but for the payee's generator; otherwise the payer is debited (a cracked one
    -- keeps its balance), the payee credited, and no reservation is left.
    pub pay-eq-payment : Protocol.pay payer payee amount_cents ≡ payment payer payee amount_cents
    unfolding Protocol.pay
    pay-eq-payment = ground (
      arith,
      request_payment_zero payee,
      request_payment_over amount_cents payee,
      request_payment_granted amount_cents payee,
      pay_self (request_of amount_cents payee) payer payee-certified,
      pay_short (request_of amount_cents payee) payer payee-certified,
      pay_granted (request_of amount_cents payee) payer payee-certified,
      device_same_iff (Wallet.device payee) (Wallet.device payer),
      cancel_opened amount_cents payee ready.payee_fresh,
      receive_cannot_fail,
    )
