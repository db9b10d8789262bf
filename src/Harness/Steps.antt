-- ===== src/Harness/Steps.antt =====
-- The operations of the random run of src/main.rs on a sound world.
use digital_euro_wallet.Prelude.{
  ℕ, zero, suc, ◌+◌, ◌-◌, ◌<◌, ◌≡◌, refl, Option, some, arith, get_elem?, set, u64_modulus, list_eq,
  nat_eq,
}
use digital_euro_wallet.HashMap
use digital_euro_wallet.Crates.{Crates, Rng}
use digital_euro_wallet.Id.{AccountId, account_eq, device_eq}
use digital_euro_wallet.Error.{Result}
use digital_euro_wallet.Wallet
use digital_euro_wallet.Wallet.{Wallet, sealed}
use digital_euro_wallet.Wallet.Genuine.{debited}
use digital_euro_wallet.Issuer.{Issuer}
use digital_euro_wallet.Protocol
use digital_euro_wallet.Protocol.Enrolled.{IsFreshFunding}
use digital_euro_wallet.Harness
use digital_euro_wallet.Harness.{World, perform}
use digital_euro_wallet.Harness.Members.{IsMember}
use digital_euro_wallet.Harness.Membership.{AreMembers-weaken}
use digital_euro_wallet.Harness.Supply.{
  held, deposited, deposited-insert, stored-le-deposited, stored,
}
use digital_euro_wallet.Harness.Ledger.{at, ledger_of, get_elem?-map, map-set, stored-set}
use digital_euro_wallet.Wallet.Accounting.{reserved-eq-total}
use digital_euro_wallet.Harness.Sound.{IsSound}

module _ {R : Type 0} ⦃x : Crates⦄ ⦃g : Rng R⦄ where
  -- the world after a call of `fund` or `defund` for the device at an index
  abbrev pub settled_at : ℕ → World R → Result ℕ × Wallet R × Issuer → Option (Result ℕ × World R)
  settled_at a w t = some (t.0, record w { issuer = t.2; devices = set a t.1 w.devices })

  pub perform-fund :
      (a amount : ℕ) (w : World R) (d : Wallet R)
      → get_elem? w.devices a ≡ some d
      → perform (Harness.fund a amount) w ≡ settled_at a w (Protocol.fund d w.issuer amount)
  unfolding perform
  perform-fund a amount w d at = ground (arith, at)

  pub perform-defund :
      (a amount : ℕ) (w : World R) (d : Wallet R)
      → get_elem? w.devices a ≡ some d
      → perform (Harness.defund a amount) w ≡ settled_at a w (Protocol.defund d w.issuer amount)
  unfolding perform
  perform-defund a amount w d at = ground (arith, at)

  pub IsSound-weaken :
      {k limit money : ℕ} {w : World R} → IsSound (suc k) limit money w → IsSound k limit money w
  IsSound-weaken h = record {
    members = AreMembers-weaken h.members;
    float = h.float;
    supply = h.supply;
    money_fits = h.money_fits;
  }

  -- a sealed element is debited of what it pays
  pub debited_balance :
      (d : Wallet R) (amount : ℕ)
      → d.state ≡ sealed
      → (debited amount d).balance_cents ≡ d.balance_cents - amount
  debited_balance d amount e = ground (arith, e)

  -- A member keeps no reservation, so its room is what its balance leaves of the limit.
  pub member-headroom :
      {k limit : ℕ} {i : Issuer} {account : AccountId} {d : Wallet R}
      → IsMember k limit i account d
      → Wallet.headroom d ≡ limit - Wallet.balance d
  unfolding Wallet.headroom
  member-headroom {d} m = ground (arith, m, reserved-eq-total d m.enrolled.formed)

  -- The next nonce of a member serves a funding.
  pub member-IsFreshFunding :
      {k limit : ℕ} {i : Issuer} {account : AccountId} {d : Wallet R}
      → IsMember (suc k) limit i account d
      → IsFreshFunding d i
  member-IsFreshFunding m = record {
    not_pending = rw m.no_pending (unfold HashMap.get in refl);
    not_credited = m.unspent.not_credited zero (omega arith);
    not_used = m.unspent.not_used zero (omega arith);
  }

  module _ {k limit money : ℕ} {w : World R} (h : IsSound (suc k) limit money w) (a : ℕ)
      (account : AccountId) (d : Wallet R) (account_at : get_elem? w.accounts a ≡ some account)
      (device_at : get_elem? w.devices a ≡ some d)
      (m : IsMember (suc k) limit w.issuer account d) where
    own_at : get_elem? w.accounts a ≡ some m.entry.account
    own_at = rw m.own_account account_at

    -- the sum of the accounts after the balance of this device's account is set
    pub deposits_moved :
        (v : ℕ)
        → deposited (HashMap.insert m.entry.account v w.issuer.accounts) w.accounts + m.balance
          ≡ deposited w.issuer.accounts w.accounts + v
    deposits_moved v =
        deposited-insert m.entry.account v w.issuer.accounts a m.balance w.accounts own_at
          (λ b hb. h.members.account_once a b m.entry.account own_at hb) m.enrolled.account_open

    -- What the account and the device hold is part of all money.
    pub shares_fit : m.balance + held w.devices < u64_modulus
    shares_fit = omega (
      arith,
      stored-le-deposited m.entry.account w.issuer.accounts a m.balance w.accounts own_at
          m.enrolled.account_open,
      h.supply,
      h.money_fits,
    )

    pub at_balance : at a (ledger_of w).balances ≡ Wallet.balance d
    at_balance = rw (get_elem?-map (λ d. Wallet.balance d) w.devices a d device_at) refl

    pub at_deposit : at a (ledger_of w).deposits ≡ m.balance
    at_deposit =
        rw (get_elem?-map (stored w.issuer.accounts) w.accounts a m.entry.account own_at)
          (rw m.enrolled.account_open refl)

    -- the ledger after the device and its account were set
    pub ledger-moved :
        (i' : Issuer) (d' : Wallet R) (v : ℕ)
        → i'.accounts ≡ HashMap.insert m.entry.account v w.issuer.accounts
        → ledger_of (record w { issuer = i'; devices = set a d' w.devices }) ≡ record {
          balances = set a (Wallet.balance d') (ledger_of w).balances;
          deposits = set a v (ledger_of w).deposits;
        }
    ledger-moved i' d' v e = rw e (
        cc (
          map-set (λ d. Wallet.balance d) w.devices a d',
          stored-set m.entry.account v w.issuer.accounts a w.accounts own_at
              (λ b hb. h.members.account_once a b m.entry.account own_at hb),
        ))
