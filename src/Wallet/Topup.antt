-- ===== src/Wallet/Topup.antt =====
-- Funding on the wallet's side: the request, its withdrawal, and the credit of what the issuer grants.
use digital_euro_wallet.Prelude.{
  ℕ, ◌+◌, ◌≤◌, ◌<◌, ◌≡◌, refl, ◌↔◌, true, none, some, arith, ok, err, list_eq, nat_eq, add_u64,
  add_u64_exact,
}
use digital_euro_wallet.HashMap
use digital_euro_wallet.HashMap.Laws.{remove-insert}
use digital_euro_wallet.HashMap.Sums.{get-le-total}
use digital_euro_wallet.Crates.{Crates, Rng, AreDocumented}
use digital_euro_wallet.Error.{zero_amount, holding_limit_exceeded}
use digital_euro_wallet.Id.{device_eq, device_same_iff}
use digital_euro_wallet.Signature
use digital_euro_wallet.Signature.RoundTrip.{verify-sign}
use digital_euro_wallet.Message.FundingRequest
use digital_euro_wallet.Message.FundingRequest.{FundingRequest}
use digital_euro_wallet.Message.Funding
use digital_euro_wallet.Message.Funding.{Funding}
use digital_euro_wallet.Wallet
use digital_euro_wallet.Wallet.{Wallet}
use digital_euro_wallet.Wallet.Accounting.{IsWellFormed}
use digital_euro_wallet.Wallet.Genuine.{IsGenuine}
use digital_euro_wallet.Wallet.Request.{next_nonce, next_rng, redrawn}

module _ {R : Type 0} ⦃x : Crates⦄ where
  -- What a funding needs to be credited, whatever the order of the tests.
  pub record IsApplicable (f : Funding) (w : Wallet R) : Type 0 where
    pub for_this_device : f.device ≡ Wallet.device w
    pub signed : Signature.verify w.issuer (Funding.digest f) f.signature ≡ true
    pub not_credited : HashMap.get f.nonce w.credited ≡ none
    pub requested : HashMap.get f.nonce w.pending_funding ≡ some f.amount_cents

  -- the wallet that has credited it
  abbrev pub topped_up : Funding → Wallet R → Wallet R
  topped_up f w = record w {
    balance_cents = w.balance_cents + f.amount_cents;
    pending_funding = HashMap.remove f.nonce w.pending_funding;
    credited = HashMap.insert f.nonce tt w.credited;
  }

  room_for_funding :
      (f : Funding) (w : Wallet R)
      → IsWellFormed w
      → HashMap.get f.nonce w.pending_funding ≡ some f.amount_cents
      → add_u64 w.balance_cents f.amount_cents ≡ w.balance_cents + f.amount_cents
  room_for_funding f w h e = omega (
    arith,
    get-le-total f.nonce w.pending_funding f.amount_cents e,
    add_u64_exact w.balance_cents f.amount_cents,
    h.within,
    h.limit_fits,
  )

  pub apply_funding-applicable :
      (f : Funding) (w : Wallet R)
      → IsWellFormed w
      → IsApplicable f w
      → Wallet.apply_funding f w ≡ (ok f.amount_cents, topped_up f w)
  unfolding Wallet.apply_funding
  apply_funding-applicable f w h c =
      ground
        (arith, c, room_for_funding f w h c.requested, device_same_iff f.device (Wallet.device w))

  apply_funding-IsApplicable :
      (f : Funding) (w : Wallet R) (amount_cents : ℕ)
      → (Wallet.apply_funding f w).0 ≡ ok amount_cents
      → IsApplicable f w × (amount_cents ≡ f.amount_cents)
  unfolding Wallet.apply_funding
  apply_funding-IsApplicable f w amount_cents e =
      ground (arith, device_same_iff f.device (Wallet.device w))

  -- On a wallet within its limit, `apply_funding` returns an amount exactly when the funding names
  -- this device, is signed by this wallet's issuer, has a nonce that was not credited and is pending
  -- for exactly its amount; and then that amount is returned.
  pub apply_funding_iff :
      (f : Funding) (w : Wallet R) (amount_cents : ℕ)
      → IsWellFormed w
      → ((Wallet.apply_funding f w).0 ≡ ok amount_cents)
        ↔ (IsApplicable f w × (amount_cents ≡ f.amount_cents))
  apply_funding_iff f w amount_cents h = (
    apply_funding-IsApplicable f w amount_cents,
    λ (c, e). rw (apply_funding-applicable f w h c, e) refl,
  )

module _ {R : Type 0} ⦃x : Crates⦄ ⦃g : Rng R⦄ where
  abbrev pub opened_funding : ℕ → Wallet R → Wallet R
  opened_funding amount_cents w = record w {
    pending_funding = HashMap.insert (next_nonce w) amount_cents w.pending_funding;
    rng = next_rng w;
  }

  abbrev pub unsigned_request : ℕ → Wallet R → FundingRequest
  unsigned_request amount_cents w = record {
    device = Wallet.device w;
    amount_cents = amount_cents;
    nonce = next_nonce w;
    signature = 0;
  }

  abbrev pub signed_request : ℕ → Wallet R → FundingRequest
  signed_request amount_cents w =
      let m = unsigned_request amount_cents w in
      record m { signature = Signature.sign w.keypair (FundingRequest.digest m) }

  pub signed_request-verifies :
      (amount_cents : ℕ) (w : Wallet R)
      → AreDocumented x
      → IsGenuine w
      → let m = signed_request amount_cents w in
        Signature.verify w.certificate.public_key (FundingRequest.digest m) m.signature ≡ true
  unfolding FundingRequest.digest
  signed_request-verifies amount_cents w doc h =
      rw h.own_key (verify-sign doc w.keypair _ h.keypair)

  pub request_funding_granted :
      (amount_cents : ℕ) (w : Wallet R)
      → 0 < amount_cents
      → amount_cents ≤ Wallet.headroom w
      → Wallet.request_funding amount_cents w
        ≡ (ok (signed_request amount_cents w), opened_funding amount_cents w)
  unfolding Wallet.request_funding
  request_funding_granted amount_cents w pos room = ground arith

  pub request_funding_zero : (w : Wallet R) → Wallet.request_funding 0 w ≡ (err zero_amount, w)
  unfolding Wallet.request_funding
  request_funding_zero w = refl

  pub request_funding_over :
      (amount_cents : ℕ) (w : Wallet R)
      → 0 < amount_cents
      → Wallet.headroom w < amount_cents
      → Wallet.request_funding amount_cents w
        ≡ (err (holding_limit_exceeded amount_cents (Wallet.headroom w)), w)
  unfolding Wallet.request_funding
  request_funding_over amount_cents w pos over = ground arith

  pub cancel_opened_funding :
      (amount_cents : ℕ) (w : Wallet R)
      → HashMap.get (next_nonce w) w.pending_funding ≡ none
      → (Wallet.cancel_funding (next_nonce w) (opened_funding amount_cents w)).1 ≡ redrawn w
  unfolding Wallet.cancel_funding
  cancel_opened_funding amount_cents w fresh =
      rw (remove-insert (next_nonce w) amount_cents w.pending_funding fresh) refl
