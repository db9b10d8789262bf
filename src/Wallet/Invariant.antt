-- ===== src/Wallet/Invariant.antt =====
-- Every method keeps the invariant of a wallet.
use digital_euro_wallet.Prelude.{ℕ, arith, Bytes, add_u64_exact, list_eq, nat_eq}
use digital_euro_wallet.Crates.{Crates, Rng}
use digital_euro_wallet.HashMap.Laws.{insert-IsUnique, remove-IsUnique}
use digital_euro_wallet.HashMap.Sums.{total-insert, total-remove}
use digital_euro_wallet.Message.Transfer.{Transfer}
use digital_euro_wallet.Message.Funding.{Funding}
use digital_euro_wallet.Message.{PaymentRequest}
use digital_euro_wallet.Wallet
use digital_euro_wallet.Wallet.{Wallet}
use digital_euro_wallet.Wallet.Accounting.{IsWellFormed, headroom-exact, reserved-eq-total}

module _ {R : Type 0} ⦃x : Crates⦄ (w : Wallet R) (h : IsWellFormed w) where
  pub receive-IsWellFormed : (t : Transfer) → IsWellFormed (Wallet.receive t w).1
  unfolding Wallet.receive
  receive-IsWellFormed t = ground (
    arith,
    h,
    total-remove t.nonce w.incoming,
    remove-IsUnique t.nonce w.incoming h.incoming_unique,
    add_u64_exact w.balance_cents t.amount_cents,
  )

  pub apply_funding-IsWellFormed : (f : Funding) → IsWellFormed (Wallet.apply_funding f w).1
  unfolding Wallet.apply_funding
  apply_funding-IsWellFormed f = ground (
    arith,
    h,
    total-remove f.nonce w.pending_funding,
    remove-IsUnique f.nonce w.pending_funding h.pending_unique,
    add_u64_exact w.balance_cents f.amount_cents,
  )

  pub pay-IsWellFormed : (r : PaymentRequest) → IsWellFormed (Wallet.pay r w).1
  unfolding Wallet.pay
  pay-IsWellFormed r = ground (arith, h)

  pub defund-IsWellFormed : (amount_cents : ℕ) → IsWellFormed (Wallet.defund amount_cents w).1
  unfolding Wallet.defund
  defund-IsWellFormed amount_cents = ground (arith, h)

  pub cancel_request-IsWellFormed : (nonce : Bytes) → IsWellFormed (Wallet.cancel_request nonce w).1
  unfolding Wallet.cancel_request
  cancel_request-IsWellFormed nonce =
      ground (
        arith,
        h,
        total-remove nonce w.incoming,
        remove-IsUnique nonce w.incoming h.incoming_unique,
      )

  pub cancel_funding-IsWellFormed : (nonce : Bytes) → IsWellFormed (Wallet.cancel_funding nonce w).1
  unfolding Wallet.cancel_funding
  cancel_funding-IsWellFormed nonce = ground (
    arith,
    h,
    total-remove nonce w.pending_funding,
    remove-IsUnique nonce w.pending_funding h.pending_unique,
  )

  pub crack_secure_element-IsWellFormed : IsWellFormed (Wallet.crack_secure_element w)
  unfolding Wallet.crack_secure_element
  crack_secure_element-IsWellFormed = ground (arith, h)

module _ {R : Type 0} ⦃g : Rng R⦄ (w : Wallet R) (h : IsWellFormed w) where
  -- A nonce drawn twice replaces a reservation, which only lowers what is promised.
  pub request_payment-IsWellFormed :
      (amount_cents : ℕ) → IsWellFormed (Wallet.request_payment amount_cents w).1
  unfolding Wallet.request_payment
  request_payment-IsWellFormed amount_cents =
      let nonce = (g.gen_bytes16 w.rng).0 in
      ground (
        arith,
        h,
        headroom-exact w h,
        reserved-eq-total w h,
        total-insert nonce amount_cents w.incoming,
        insert-IsUnique nonce amount_cents w.incoming h.incoming_unique,
      )

  pub request_funding-IsWellFormed :
      ⦃x : Crates⦄ → (amount_cents : ℕ) → IsWellFormed (Wallet.request_funding amount_cents w).1
  unfolding Wallet.request_funding
  request_funding-IsWellFormed amount_cents =
      let nonce = (g.gen_bytes16 w.rng).0 in
      ground (
        arith,
        h,
        headroom-exact w h,
        reserved-eq-total w h,
        total-insert nonce amount_cents w.pending_funding,
        insert-IsUnique nonce amount_cents w.pending_funding h.pending_unique,
      )
