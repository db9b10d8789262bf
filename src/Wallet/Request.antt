-- ===== src/Wallet/Request.antt =====
-- Opening a payment request, and abandoning it: what `request_payment` and `cancel_request` do to
-- a wallet whose next nonce is fresh.
use digital_euro_wallet.Prelude.{
  ℕ, ◌+◌, ◌≤◌, ◌<◌, ◌≡◌, refl, none, Bytes, arith, ok, err, list_eq, nat_eq,
}
use digital_euro_wallet.HashMap
use digital_euro_wallet.HashMap.Laws.{remove-insert}
use digital_euro_wallet.Crates.{Rng}
use digital_euro_wallet.Error.{zero_amount, holding_limit_exceeded}
use digital_euro_wallet.Message.{PaymentRequest}
use digital_euro_wallet.Wallet
use digital_euro_wallet.Wallet.{Wallet}

module _ {Q : Type 0} ⦃q : Rng Q⦄ where
  -- the nonce that the wallet's generator draws next, and the generator afterwards
  abbrev pub next_nonce : Wallet Q → Bytes
  next_nonce w = (q.gen_bytes16 w.rng).0

  abbrev pub next_rng : Wallet Q → Q
  next_rng w = (q.gen_bytes16 w.rng).1

  -- The nonce drawn next was not used by this wallet: it is neither reserved nor credited.
  pub record IsFresh (w : Wallet Q) : Type 0 where
    pub not_open : HashMap.get (next_nonce w) w.incoming ≡ none
    pub not_credited : HashMap.get (next_nonce w) w.credited ≡ none

  abbrev pub opened : ℕ → Wallet Q → Wallet Q
  opened amount_cents w = record w {
    incoming = HashMap.insert (next_nonce w) amount_cents w.incoming;
    rng = next_rng w;
  }

  abbrev pub request_of : ℕ → Wallet Q → PaymentRequest
  request_of amount_cents w = record {
    payee = w.certificate;
    amount_cents = amount_cents;
    nonce = next_nonce w;
  }

  pub request_payment_granted :
      (amount_cents : ℕ) (w : Wallet Q)
      → 0 < amount_cents
      → amount_cents ≤ Wallet.headroom w
      → Wallet.request_payment amount_cents w
        ≡ (ok (request_of amount_cents w), opened amount_cents w)
  unfolding Wallet.request_payment
  request_payment_granted amount_cents w pos room = ground arith

  -- the payee after a payment: credited, its reservation gone
  abbrev pub paid : ℕ → Wallet Q → Wallet Q
  paid amount_cents w = record w {
    balance_cents = w.balance_cents + amount_cents;
    credited = HashMap.insert (next_nonce w) tt w.credited;
    rng = next_rng w;
  }

  -- the payee after a refusal that came behind its request: only its generator has moved
  abbrev pub redrawn : Wallet Q → Wallet Q
  redrawn w = record w { rng = next_rng w }

  pub cancel_opened :
      (amount_cents : ℕ) (w : Wallet Q)
      → IsFresh w
      → (Wallet.cancel_request (next_nonce w) (opened amount_cents w)).1 ≡ redrawn w
  unfolding Wallet.cancel_request
  cancel_opened amount_cents w fresh =
      rw (remove-insert (next_nonce w) amount_cents w.incoming fresh.not_open) refl

  pub request_payment_zero : (w : Wallet Q) → Wallet.request_payment 0 w ≡ (err zero_amount, w)
  unfolding Wallet.request_payment
  request_payment_zero w = refl

  pub request_payment_over :
      (amount_cents : ℕ) (w : Wallet Q)
      → 0 < amount_cents
      → Wallet.headroom w < amount_cents
      → Wallet.request_payment amount_cents w
        ≡ (err (holding_limit_exceeded amount_cents (Wallet.headroom w)), w)
  unfolding Wallet.request_payment
  request_payment_over amount_cents w pos over = ground arith
