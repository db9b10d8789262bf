-- ===== src/Harness/Payments.antt =====
-- A payment of the random run of src/main.rs on a sound world.
use digital_euro_wallet.Prelude.{
  ℕ, zero, suc, ◌+◌, ◌-◌, ◌≤◌, ◌≡◌, ◌≢◌, ◌∙◌, ap, refl, sym, some, arith, ok, err, get_elem?, set,
  length, length-set, get_elem?-set_ne, list_eq, nat_eq, Option,
}
use digital_euro_wallet.Prelude.Int.{pos}
use digital_euro_wallet.HashMap
use digital_euro_wallet.Crates.{Crates, Rng, AreDocumented}
use digital_euro_wallet.Error.{Error, Result}
use digital_euro_wallet.Id.{AccountId}
use digital_euro_wallet.Wallet
use digital_euro_wallet.Wallet.{Wallet}
use digital_euro_wallet.Wallet.Genuine.{debited}
use digital_euro_wallet.Wallet.Request.{redrawn, paid}
use digital_euro_wallet.Issuer.{Issuer}
use digital_euro_wallet.Protocol
use digital_euro_wallet.Protocol.Payment.{AreReady, pay-eq-payment}
use digital_euro_wallet.Harness
use digital_euro_wallet.Harness.{World, perform, pair}
use digital_euro_wallet.Harness.Members.{IsMember, IsMember-weaken}
use digital_euro_wallet.Harness.Outcomes.{redrawn-IsMember, debited-IsMember, paid-IsMember}
use digital_euro_wallet.Harness.Membership.{AreMembers-weaken, set-AreMembers}
use digital_euro_wallet.Harness.Supply.{held-set}
use digital_euro_wallet.Harness.Sound.{
  IsSound, Settles, refused-IsSound, refused-snapshot, refused-ledger,
}
use digital_euro_wallet.Harness.Ledger.{
  Ledger, settle, settle_if, refusal, at, ledger_of, get_elem?-map, map-set,
}
use digital_euro_wallet.Harness.Steps.{IsSound-weaken, debited_balance, member-headroom}
use digital_euro_wallet.Harness.Cases.{payment-cases}

module _ {R : Type 0} ⦃x : Crates⦄ ⦃g : Rng R⦄ where
  abbrev settled_pair :
      ℕ → ℕ → World R → Result ℕ × Wallet R × Wallet R → Option (Result ℕ × World R)
  settled_pair a b w t = some (t.0, record w { devices = set b t.2 (set a t.1 w.devices) })

  pub perform-pay :
      (a b amount : ℕ) (w : World R) (d e : Wallet R)
      → a ≢ b
      → get_elem? w.devices a ≡ some d
      → get_elem? w.devices b ≡ some e
      → perform (Harness.pay a b amount) w ≡ settled_pair a b w (Protocol.pay d e amount)
  unfolding perform pair
  perform-pay a b amount w d e ne at bt = ground (arith, ne, at, bt)

  -- Two members are ready for a payment.
  pub members-AreReady :
      {k limit : ℕ} {i : Issuer} {account other : AccountId} {d e : Wallet R}
      → IsMember (suc k) limit i account d
      → IsMember (suc k) limit i other e
      → AreReady d e
  members-AreReady m n = record {
    payer_genuine = m.enrolled.genuine;
    payee_genuine = n.enrolled.genuine;
    same_issuer = m.enrolled.issuer_key ∙ sym n.enrolled.issuer_key;
    payee_formed = n.enrolled.formed;
    payee_fresh = record {
      not_open = rw n.no_incoming (unfold HashMap.get in refl);
      not_credited = n.unspent.not_credited zero (omega arith);
    };
  }

  module _ {k limit money : ℕ} {w : World R} (doc : AreDocumented x)
      (h : IsSound (suc k) limit money w) (a b amount : ℕ) (a_ne_b : a ≢ b)
      (account other : AccountId) (d e : Wallet R)
      (account_at : get_elem? w.accounts a ≡ some account)
      (other_at : get_elem? w.accounts b ≡ some other) (payer_at : get_elem? w.devices a ≡ some d)
      (payee_at : get_elem? w.devices b ≡ some e) (m : IsMember (suc k) limit w.issuer account d)
      (n : IsMember (suc k) limit w.issuer other e) where
    still_at : (d' : Wallet R) → get_elem? (set a d' w.devices) b ≡ some e
    still_at d' = get_elem?-set_ne a b d' w.devices a_ne_b ∙ payee_at

    same_size_pair : (d' e' : Wallet R) → length (set b e' (set a d' w.devices)) ≡ length w.devices
    same_size_pair d' e' = length-set b e' (set a d' w.devices) ∙ length-set a d' w.devices

    -- A refusal: the payer is as it was, the payee has drawn a nonce at most.
    refused_pair :
        (e' : Wallet R) (error : Error)
        → IsMember k limit w.issuer other e'
        → Wallet.device e' ≡ Wallet.device e
        → Wallet.balance e' ≡ Wallet.balance e
        → Wallet.reserved e' ≡ Wallet.reserved e
        → Settles k limit money w (err error, ledger_of w) (settled_pair a b w (err error, d, e'))
    refused_pair e' error own same_device same_balance same_reserved =
        let h' = IsSound-weaken h in
        let m' = IsMember-weaken m in
        let first = refused-IsSound h' a account d d account_at payer_at m' refl refl in
        record {
          result = err error;
          after = record w { devices = set b e' (set a d w.devices) };
          returned = refl;
          sound =
              refused-IsSound first b other e e' other_at (still_at d) own same_device same_balance;
          unchanged = λ _ _.
              refused-snapshot first b other e e' other_at (still_at d) own same_device same_balance
                same_reserved
              ∙ refused-snapshot h' a account d d account_at payer_at m' refl refl refl;
          same_size = same_size_pair d e';
          matches = cc (
            refused-ledger first b other e e' other_at (still_at d) own same_device same_balance,
            refused-ledger h' a account d d account_at payer_at m' refl refl,
          );
        }

    abbrev paid_world : World R
    paid_world = record w { devices = set b (paid amount e) (set a (debited amount d) w.devices) }

    paid-IsSound :
        amount ≤ Wallet.headroom e → amount ≤ Wallet.balance d → IsSound k limit money paid_world
    paid-IsSound room covered =
        let d' = debited amount d in
        let devices' = set a d' w.devices in
        let debited_held = held-set a d d' w.devices payer_at in
        let paid_held = held-set b e (paid amount e) devices' (still_at d') in
        let exact = debited_balance d amount m.is_sealed in
        record {
          members =
              set-AreMembers
                (set-AreMembers (AreMembers-weaken h.members) a account d d' account_at payer_at
                  refl (debited-IsMember m amount) (λ _ _ _ _ m. m))
                b other e (paid amount e) other_at (still_at d') refl (paid-IsMember n amount room)
                (λ _ _ _ _ m. m);
          float = h.float ∙ ap pos (omega (arith, debited_held, paid_held, exact, covered));
          supply = omega (arith, h.supply, debited_held, paid_held, exact, covered);
          money_fits = h.money_fits;
        }

    payer_balance : at a (ledger_of w).balances ≡ Wallet.balance d
    payer_balance = rw (get_elem?-map (λ d. Wallet.balance d) w.devices a d payer_at) refl

    payee_balance : at b (ledger_of w).balances ≡ Wallet.balance e
    payee_balance = rw (get_elem?-map (λ d. Wallet.balance d) w.devices b e payee_at) refl

    still_balance : (v : ℕ) → at b (set a v (ledger_of w).balances) ≡ Wallet.balance e
    still_balance v =
        rw (get_elem?-set_ne a b v (ledger_of w).balances a_ne_b)
          (rw (get_elem?-map (λ d. Wallet.balance d) w.devices b e payee_at) refl)

    abbrev pay_expected : Result ℕ × Ledger
    pay_expected =
        settle_if (refusal (Wallet.headroom e) (Wallet.balance d) amount) amount
          (record (ledger_of w) {
            balances =
                set b (Wallet.balance e + amount)
                  (set a (Wallet.balance d - amount) (ledger_of w).balances);
          })
          (ledger_of w)

    settle-pay : settle limit (Harness.pay a b amount) (ledger_of w) ≡ pay_expected
    unfolding settle
    settle-pay = rw (payer_balance, payee_balance, still_balance, member-headroom n) refl

    paid-ledger : ledger_of paid_world ≡ record (ledger_of w) {
      balances =
          set b
            (Wallet.balance e + amount)
            (set a (Wallet.balance d - amount) (ledger_of w).balances);
    }
    paid-ledger = cc (
      map-set (λ d. Wallet.balance d) (set a (debited amount d) w.devices) b (paid amount e),
      map-set (λ d. Wallet.balance d) w.devices a (debited amount d),
      debited_balance d amount m.is_sealed,
    )

    pub pay-Settles :
        Wallet.device e ≢ Wallet.device d
        → Settles k limit money w
            (settle limit (Harness.pay a b amount) (ledger_of w))
            (perform (Harness.pay a b amount) w)
    unfolding Wallet.reserved
    pay-Settles others =
        rw (settle-pay, perform-pay a b amount w d e a_ne_b payer_at payee_at)
          (rw (pay-eq-payment doc d e amount (members-AreReady m n)) (
            payment-cases d e amount
              (λ t. Settles k limit money w pay_expected (settled_pair a b w t)) others
              (λ error refused.
                rw refused (refused_pair e error (IsMember-weaken n) refl refl refl))
              (λ error refused.
                rw refused (refused_pair (redrawn e) error (redrawn-IsMember n) refl refl refl))
              (λ accepted room covered. record {
                result = ok amount;
                after = paid_world;
                returned = refl;
                sound = paid-IsSound room covered;
                unchanged = λ e p. ground arith;
                same_size = same_size_pair (debited amount d) (paid amount e);
                matches = rw accepted (cc paid-ledger);
              })))
