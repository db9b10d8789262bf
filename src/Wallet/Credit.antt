-- ===== src/Wallet/Credit.antt =====
-- When a transfer or a funding is credited, and that it is credited once.
use digital_euro_wallet.Prelude.{
  ℕ, ◌+◌, ◌≡◌, ◌≢◌, refl, ◌↔◌, true, none, some, arith, ok, err, add_u64, add_u64_exact, list_eq,
  nat_eq,
}
use digital_euro_wallet.HashMap
use digital_euro_wallet.HashMap.Sums.{get-le-total}
use digital_euro_wallet.Crates.{Crates}
use digital_euro_wallet.Error.{already_credited, unknown_request, amount_mismatch}
use digital_euro_wallet.Id.{device_eq, device_same_iff}
use digital_euro_wallet.Signature
use digital_euro_wallet.Certificate
use digital_euro_wallet.Message.Transfer
use digital_euro_wallet.Message.Transfer.{Transfer}
use digital_euro_wallet.Wallet
use digital_euro_wallet.Wallet.{Wallet}
use digital_euro_wallet.Wallet.Accounting.{IsWellFormed}

module _ {R : Type 0} ⦃x : Crates⦄ where
  -- What a transfer needs to be credited, whatever the order of the tests.
  pub record IsCreditable (t : Transfer) (w : Wallet R) : Type 0 where
    pub for_this_device : t.payee ≡ Wallet.device w
    pub certified : Certificate.verify t.payer w.issuer ≡ true
    pub signed : Signature.verify t.payer.public_key (Transfer.digest t) t.signature ≡ true
    pub not_credited : HashMap.get t.nonce w.credited ≡ none
    pub requested : HashMap.get t.nonce w.incoming ≡ some t.amount_cents

  -- the wallet that has credited it
  abbrev pub credit : Transfer → Wallet R → Wallet R
  credit t w = record w {
    balance_cents = w.balance_cents + t.amount_cents;
    incoming = HashMap.remove t.nonce w.incoming;
    credited = HashMap.insert t.nonce tt w.credited;
  }

  room_for_credit :
      (t : Transfer) (w : Wallet R)
      → IsWellFormed w
      → HashMap.get t.nonce w.incoming ≡ some t.amount_cents
      → add_u64 w.balance_cents t.amount_cents ≡ w.balance_cents + t.amount_cents
  room_for_credit t w h e = omega (
    arith,
    get-le-total t.nonce w.incoming t.amount_cents e,
    add_u64_exact w.balance_cents t.amount_cents,
    h.within,
    h.limit_fits,
  )

  -- On a wallet within its limit a creditable transfer is credited for its amount, and the addition
  -- does not wrap; nothing but the balance, that reservation and the set of credited nonces changes.
  pub receive-creditable :
      (t : Transfer) (w : Wallet R)
      → IsWellFormed w
      → IsCreditable t w
      → Wallet.receive t w ≡ (ok t.amount_cents, credit t w)
  unfolding Wallet.receive
  receive-creditable t w h c =
      ground
        (arith, c, room_for_credit t w h c.requested, device_same_iff t.payee (Wallet.device w))

  -- Nothing else is credited.
  pub receive-IsCreditable :
      (t : Transfer) (w : Wallet R) (amount_cents : ℕ)
      → (Wallet.receive t w).0 ≡ ok amount_cents
      → IsCreditable t w × (amount_cents ≡ t.amount_cents)
  unfolding Wallet.receive
  receive-IsCreditable t w amount_cents e =
      ground (arith, device_same_iff t.payee (Wallet.device w))

  -- On a wallet within its limit, `receive` returns an amount exactly when the transfer names this
  -- device, its payer is certified by this wallet's issuer, its signature is the payer's, its nonce
  -- was not credited and is reserved for exactly its amount; and then that amount is returned.
  pub receive_iff :
      (t : Transfer) (w : Wallet R) (amount_cents : ℕ)
      → IsWellFormed w
      → ((Wallet.receive t w).0 ≡ ok amount_cents)
        ↔ (IsCreditable t w × (amount_cents ≡ t.amount_cents))
  receive_iff t w amount_cents h =
      (receive-IsCreditable t w amount_cents, λ (c, e). rw (receive-creditable t w h c, e) refl)

  -- A transfer that is genuine and meant for this device, whatever the state of its request.
  pub record IsAddressed (t : Transfer) (w : Wallet R) : Type 0 where
    pub for_this_device : t.payee ≡ Wallet.device w
    pub certified : Certificate.verify t.payer w.issuer ≡ true
    pub signed : Signature.verify t.payer.public_key (Transfer.digest t) t.signature ≡ true

  module _ (t : Transfer) (w : Wallet R) (h : IsAddressed t w) where
    pub receive_repeated :
        HashMap.get t.nonce w.credited ≡ some tt → Wallet.receive t w ≡ (err already_credited, w)
    unfolding Wallet.receive
    receive_repeated e = ground (arith, h, device_same_iff t.payee (Wallet.device w))

    pub receive_unrequested :
        HashMap.get t.nonce w.credited ≡ none
        → HashMap.get t.nonce w.incoming ≡ none
        → Wallet.receive t w ≡ (err unknown_request, w)
    unfolding Wallet.receive
    receive_unrequested c e = ground (arith, h, device_same_iff t.payee (Wallet.device w))

    pub receive_mismatched :
        (expected : ℕ)
        → HashMap.get t.nonce w.credited ≡ none
        → HashMap.get t.nonce w.incoming ≡ some expected
        → t.amount_cents ≢ expected
        → Wallet.receive t w ≡ (err (amount_mismatch expected t.amount_cents), w)
    unfolding Wallet.receive
    receive_mismatched expected c e ne =
        ground (arith, h, device_same_iff t.payee (Wallet.device w))
