-- ===== src/Harness/Funds.antt =====
-- A funding in the world of src/main.rs keeps it sound.
use digital_euro_wallet.Prelude.{
  ℕ, suc, ◌+◌, ◌-◌, ◌≤◌, ◌<◌, ◌≡◌, ◌∙◌, ap, refl, sym, some, arith, ok, get_elem?, set, length-set,
  u64_modulus, list_eq, nat_eq,
}
use digital_euro_wallet.Prelude.Int.{pos, add_i128, ◌+ℤ◌, wrap_i128_exact}
use digital_euro_wallet.Crates.{Crates, Rng, AreDocumented}
use digital_euro_wallet.Id.{AccountId, account_eq, device_eq}
use digital_euro_wallet.Error.{Result}
use digital_euro_wallet.Wallet
use digital_euro_wallet.Wallet.{Wallet, sealed}
use digital_euro_wallet.Wallet.Request.{redrawn}
use digital_euro_wallet.Wallet.Topup.{signed_request}
use digital_euro_wallet.Issuer.{Issuer}
use digital_euro_wallet.Issuer.Grants.{granted}
use digital_euro_wallet.Protocol.Funding.{funded, fund-eq-topup}
use digital_euro_wallet.Harness
use digital_euro_wallet.Harness.{World, perform}
use digital_euro_wallet.Harness.Members.{IsMember, IsMember-weaken, granted-IsMember}
use digital_euro_wallet.Harness.Outcomes.{redrawn-IsMember, funded-IsMember}
use digital_euro_wallet.Harness.Membership.{AreMembers-weaken, set-AreMembers}
use digital_euro_wallet.Harness.Supply.{held, held-set}
use digital_euro_wallet.Harness.Ledger.{Ledger, settle, settle_if, refusal, ledger_of}
use digital_euro_wallet.Harness.Sound.{IsSound, Settles, refused-Settles}
use digital_euro_wallet.Harness.Cases.{topup-cases}
use digital_euro_wallet.Harness.Steps.{
  settled_at, perform-fund, IsSound-weaken, member-headroom, member-IsFreshFunding, deposits_moved,
  shares_fit, at_balance, at_deposit, ledger-moved,
}

-- The exact float after a funding and after a defunding.
float_up : (f v : ℕ) → f + v < u64_modulus → add_i128 (pos f) (pos v) ≡ pos (f + v)
unfolding add_i128 ◌+ℤ◌
float_up f v h = ground (arith, wrap_i128_exact (pos (f + v)))

module _ {R : Type 0} ⦃x : Crates⦄ ⦃g : Rng R⦄ where
  module _ {k limit money : ℕ} {w : World R} (doc : AreDocumented x)
      (h : IsSound (suc k) limit money w) (a amount : ℕ) (account : AccountId) (d : Wallet R)
      (account_at : get_elem? w.accounts a ≡ some account)
      (device_at : get_elem? w.devices a ≡ some d)
      (m : IsMember (suc k) limit w.issuer account d) where
    abbrev granted_issuer : Issuer
    granted_issuer = granted (signed_request amount d) m.entry m.balance w.issuer

    abbrev funded_world : World R
    funded_world = record w { issuer = granted_issuer; devices = set a (funded amount d) w.devices }

    funded-IsSound :
        amount ≤ Wallet.headroom d → amount ≤ m.balance → IsSound k limit money funded_world
    funded-IsSound room covered =
        let held' = held-set a d (funded amount d) w.devices device_at in
        record {
          members =
              set-AreMembers (AreMembers-weaken h.members) a account d (funded amount d) account_at
                device_at refl (funded-IsMember m amount room)
                (λ other e device_ne account_ne.
                  granted-IsMember (signed_request amount d) m.entry m.balance device_ne
                    (λ s. account_ne (sym m.own_account ∙ s)));
          float = rw h.float (
              float_up (held w.devices) amount
                (omega (arith, shares_fit h a account d account_at device_at m, covered))
              ∙ ap pos (omega (arith, held')));
          supply = omega (
            arith,
            h.supply,
            deposits_moved h a account d account_at device_at m (m.balance - amount),
            held',
            covered,
          );
          money_fits = h.money_fits;
        }

    abbrev fund_expected : Result ℕ × Ledger
    fund_expected =
        settle_if (refusal (Wallet.headroom d) m.balance amount) amount
          (record {
            balances = set a (Wallet.balance d + amount) (ledger_of w).balances;
            deposits = set a (m.balance - amount) (ledger_of w).deposits;
          })
          (ledger_of w)

    settle-fund : settle limit (Harness.fund a amount) (ledger_of w) ≡ fund_expected
    unfolding settle
    settle-fund =
        rw
          (
            at_balance h a account d account_at device_at m,
            at_deposit h a account d account_at device_at m,
            member-headroom m,
          )
          refl

    pub fund-Settles :
        Settles k limit money w
          (settle limit (Harness.fund a amount) (ledger_of w))
          (perform (Harness.fund a amount) w)
    unfolding Wallet.reserved
    fund-Settles =
        rw (settle-fund, perform-fund a amount w d device_at)
          (rw
            (fund-eq-topup doc d w.issuer m.entry m.balance amount m.enrolled
              (member-IsFreshFunding m))
            (topup-cases d w.issuer m.entry m.balance amount
              (λ t. Settles k limit money w fund_expected (settled_at a w t))
              (λ e refused. rw refused (
                refused-Settles (IsSound-weaken h) a account d d account_at device_at
                  (IsMember-weaken m) refl e refl refl))
              (λ e refused. rw refused (
                refused-Settles (IsSound-weaken h) a account d (redrawn d) account_at device_at
                  (redrawn-IsMember m) refl e refl refl))
              (λ granted room covered. record {
                result = ok amount;
                after = funded_world;
                returned = refl;
                sound = funded-IsSound room covered;
                unchanged = λ e p. ground arith;
                same_size = length-set a _ w.devices;
                matches = rw granted (
                    cc (
                      ledger-moved h a account d account_at device_at m granted_issuer
                        (funded amount d) (m.balance - amount) refl));
              })))
