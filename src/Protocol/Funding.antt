-- ===== src/Protocol/Funding.antt =====
-- `fund` of src/lib.rs: value from an account onto its enrolled wallet.
use digital_euro_wallet.Prelude.{
  ℕ, ◌+◌, ◌≤◌, ◌<◌, ◌≡◌, refl, true, arith, ok, err, ltb, nat_same, if◌then◌else◌, list_eq, nat_eq,
}
use digital_euro_wallet.HashMap
use digital_euro_wallet.HashMap.Laws.{get-insert_self, remove-insert}
use digital_euro_wallet.Crates.{Crates, Rng, AreDocumented}
use digital_euro_wallet.Error.{Result, zero_amount, holding_limit_exceeded, insufficient_funds}
use digital_euro_wallet.Signature
use digital_euro_wallet.Signature.RoundTrip.{verify-sign}
use digital_euro_wallet.Message.Funding
use digital_euro_wallet.Message.FundingRequest
use digital_euro_wallet.Wallet
use digital_euro_wallet.Wallet.{Wallet}
use digital_euro_wallet.Wallet.Accounting.{IsWellFormed}
use digital_euro_wallet.Wallet.Invariant.{request_funding-IsWellFormed}
use digital_euro_wallet.Wallet.Request.{next_nonce, next_rng, redrawn}
use digital_euro_wallet.Wallet.Topup.{
  IsApplicable, apply_funding-applicable, opened_funding, signed_request, signed_request-verifies,
  request_funding_granted, request_funding_zero, request_funding_over, cancel_opened_funding,
}
use digital_euro_wallet.Issuer
use digital_euro_wallet.Issuer.{Issuer, DeviceRecord}
use digital_euro_wallet.Issuer.Grants.{IsGrantable, signed_funding, granted, fund-grantable}
use digital_euro_wallet.Protocol
use digital_euro_wallet.Protocol.Enrolled.{IsEnrolled, IsFreshFunding}

module _ {R : Type 0} ⦃x : Crates⦄ ⦃g : Rng R⦄ where
  -- the wallet after a funding: credited, its reservation gone
  abbrev pub funded : ℕ → Wallet R → Wallet R
  funded amount_cents w = record w {
    balance_cents = w.balance_cents + amount_cents;
    credited = HashMap.insert (next_nonce w) tt w.credited;
    rng = next_rng w;
  }

  -- What a funding does, in the order in which its refusals come.
  abbrev pub topup : Wallet R → Issuer → DeviceRecord → ℕ → ℕ → Result ℕ × Wallet R × Issuer
  topup w i entry balance amount_cents =
      if nat_same amount_cents 0
      then (err zero_amount, w, i)
      else if ltb (Wallet.headroom w) amount_cents
      then (err (holding_limit_exceeded amount_cents (Wallet.headroom w)), w, i)
      else if ltb balance amount_cents
      then (err (insufficient_funds amount_cents balance), redrawn w, i)
      else (
        ok amount_cents,
        funded amount_cents w,
        granted (signed_request amount_cents w) entry balance i,
      )

  module _ (doc : AreDocumented x) (w : Wallet R) (i : Issuer) (entry : DeviceRecord)
      (balance amount_cents : ℕ) (enrolled : IsEnrolled w i entry balance)
      (fresh : IsFreshFunding w i) where
    request_signed :
        Signature.verify entry.public_key
          (FundingRequest.digest (signed_request amount_cents w))
          (signed_request amount_cents w).signature
        ≡ true
    request_signed =
        rw enrolled.same_key (signed_request-verifies amount_cents w doc enrolled.genuine)

    issuer_short :
        0 < amount_cents
        → balance < amount_cents
        → Issuer.fund (signed_request amount_cents w) i
          ≡ (err (insufficient_funds amount_cents balance), i)
    unfolding Issuer.fund
    issuer_short pos short =
        ground (arith, enrolled.known, enrolled.account_open, fresh.not_used, request_signed)

    request-IsGrantable :
        0 < amount_cents
        → amount_cents ≤ balance
        → IsGrantable (signed_request amount_cents w) entry balance i
    request-IsGrantable pos covered = record {
      known = enrolled.known;
      signed = request_signed;
      nonzero = pos;
      unused = fresh.not_used;
      account_open = enrolled.account_open;
      covered = covered;
    }

    funding-IsApplicable :
        IsApplicable
          (signed_funding (signed_request amount_cents w) i)
          (opened_funding amount_cents w)
    unfolding Funding.digest
    funding-IsApplicable = record {
      for_this_device = refl;
      signed = rw enrolled.issuer_key (verify-sign doc i.keypair _ enrolled.issuer_keypair);
      not_credited = fresh.not_credited;
      requested = get-insert_self (next_nonce w) amount_cents w.pending_funding;
    }

    opened_funding-IsWellFormed :
        0 < amount_cents
        → amount_cents ≤ Wallet.headroom w
        → IsWellFormed (opened_funding amount_cents w)
    opened_funding-IsWellFormed pos room =
        rw (request_funding_granted amount_cents w pos room) at
          (request_funding-IsWellFormed w enrolled.formed amount_cents)

    apply_cannot_fail :
        0 < amount_cents
        → amount_cents ≤ Wallet.headroom w
        → Wallet.apply_funding
            (signed_funding (signed_request amount_cents w) i)
            (opened_funding amount_cents w)
          ≡ (ok amount_cents, funded amount_cents w)
    apply_cannot_fail pos room =
        rw
          (apply_funding-applicable _ (opened_funding amount_cents w)
            (opened_funding-IsWellFormed pos room) funding-IsApplicable)
          (rw (remove-insert (next_nonce w) amount_cents w.pending_funding fresh.not_pending) refl)

    -- Between an enrolled wallet with a fresh nonce next and its issuer, `fund` is exactly `topup`:
    -- it is refused for a zero amount, a wallet without room or an account without cover, in that
    -- order, and then nothing has changed but the wallet's generator; otherwise the account is
    -- debited, the wallet credited, and no reservation is left.
    pub fund-eq-topup : Protocol.fund w i amount_cents ≡ topup w i entry balance amount_cents
    unfolding Protocol.fund
    fund-eq-topup = ground (
      arith,
      request_funding_zero w,
      request_funding_over amount_cents w,
      request_funding_granted amount_cents w,
      issuer_short,
      (λ (p : 0 < amount_cents) (c : amount_cents ≤ balance).
          fund-grantable (signed_request amount_cents w) entry balance i (request-IsGrantable p c)),
      cancel_opened_funding amount_cents w fresh.not_pending,
      apply_cannot_fail,
    )
