-- ===== src/Harness/Defunds.antt =====
-- A defunding in the world of src/main.rs keeps it sound.
use digital_euro_wallet.Prelude.{
  ℕ, suc, ◌+◌, ◌-◌, ◌≤◌, ◌<◌, ◌≡◌, ◌∙◌, ap, refl, sym, some, arith, ok, get_elem?, set, length-set,
  u64_modulus, add_u64, add_u64_exact, list_eq, nat_eq,
}
use digital_euro_wallet.Prelude.Int.{pos, sub_i128, ◌-ℤ◌, wrap_i128_exact}
use digital_euro_wallet.Crates.{Crates, Rng, AreDocumented}
use digital_euro_wallet.Id.{AccountId, account_eq, device_eq}
use digital_euro_wallet.Error.{Result}
use digital_euro_wallet.Wallet
use digital_euro_wallet.Wallet.{Wallet, sealed}
use digital_euro_wallet.Wallet.Genuine.{debited, signed_defunding}
use digital_euro_wallet.Issuer.{Issuer}
use digital_euro_wallet.Issuer.Redemptions.{cashed}
use digital_euro_wallet.Protocol.Defunding.{defund-eq-redemption}
use digital_euro_wallet.Harness
use digital_euro_wallet.Harness.{World, perform}
use digital_euro_wallet.Harness.Members.{IsMember, IsMember-weaken, cashed-IsMember}
use digital_euro_wallet.Harness.Outcomes.{cashed-IsMember_self}
use digital_euro_wallet.Harness.Membership.{AreMembers-weaken, set-AreMembers}
use digital_euro_wallet.Harness.Supply.{held, held-set, balance-le-held}
use digital_euro_wallet.Harness.Ledger.{Ledger, settle, settle_if, refusal_online, ledger_of}
use digital_euro_wallet.Harness.Sound.{IsSound, Settles, refused-Settles}
use digital_euro_wallet.Harness.Cases.{redemption-cases}
use digital_euro_wallet.Harness.Steps.{
  settled_at, perform-defund, IsSound-weaken, debited_balance, deposits_moved, shares_fit,
  at_balance, at_deposit, ledger-moved,
}

float_down : (f v : ℕ) → v ≤ f → f < u64_modulus → sub_i128 (pos f) (pos v) ≡ pos (f - v)
unfolding sub_i128 ◌-ℤ◌
float_down f v h fits = ground (arith, wrap_i128_exact (pos (f - v)))

module _ {R : Type 0} ⦃x : Crates⦄ ⦃g : Rng R⦄ where
  module _ {k limit money : ℕ} {w : World R} (doc : AreDocumented x)
      (h : IsSound (suc k) limit money w) (a amount : ℕ) (account : AccountId) (d : Wallet R)
      (account_at : get_elem? w.accounts a ≡ some account)
      (device_at : get_elem? w.devices a ≡ some d)
      (m : IsMember (suc k) limit w.issuer account d) where
    deposit_exact : amount ≤ Wallet.balance d → add_u64 m.balance amount ≡ m.balance + amount
    deposit_exact covered =
        let part = balance-le-held a d w.devices device_at in
        add_u64_exact m.balance amount
          (omega (arith, shares_fit h a account d account_at device_at m, part, covered))

    abbrev cashed_issuer : Issuer
    cashed_issuer = cashed (signed_defunding amount d) m.entry m.balance w.issuer

    abbrev cashed_world : World R
    cashed_world = record w { issuer = cashed_issuer; devices = set a (debited amount d) w.devices }

    cashed-IsSound : amount ≤ Wallet.balance d → IsSound k limit money cashed_world
    cashed-IsSound covered =
        let held' = held-set a d (debited amount d) w.devices device_at in
        let exact = debited_balance d amount m.is_sealed in
        let part = balance-le-held a d w.devices device_at in
        let added = deposit_exact covered in
        record {
          members =
              set-AreMembers (AreMembers-weaken h.members) a account d (debited amount d) account_at
                device_at refl (cashed-IsMember_self m amount)
                (λ other e device_ne account_ne.
                  cashed-IsMember (signed_defunding amount d) m.entry m.balance device_ne
                    (λ s. account_ne (sym m.own_account ∙ s)));
          float = rw h.float (
              float_down (held w.devices) amount (omega (arith, part, covered))
                (omega (arith, h.supply, h.money_fits))
              ∙ ap pos (omega (arith, held', exact, part, covered)));
          supply = omega (
            arith,
            h.supply,
            deposits_moved h a account d account_at device_at m (add_u64 m.balance amount),
            held',
            exact,
            added,
            part,
            covered,
          );
          money_fits = h.money_fits;
        }

    abbrev defund_expected : Result ℕ × Ledger
    defund_expected =
        settle_if (refusal_online (Wallet.balance d) amount) amount
          (record {
            balances = set a (Wallet.balance d - amount) (ledger_of w).balances;
            deposits = set a (m.balance + amount) (ledger_of w).deposits;
          })
          (ledger_of w)

    settle-defund : settle limit (Harness.defund a amount) (ledger_of w) ≡ defund_expected
    unfolding settle
    settle-defund =
        rw
          (
            at_balance h a account d account_at device_at m,
            at_deposit h a account d account_at device_at m,
          )
          refl

    pub defund-Settles :
        Settles k limit money w
          (settle limit (Harness.defund a amount) (ledger_of w))
          (perform (Harness.defund a amount) w)
    defund-Settles =
        rw (settle-defund, perform-defund a amount w d device_at)
          (rw
            (defund-eq-redemption doc d w.issuer m.entry m.balance amount m.enrolled
              (omega (arith, m.counter_room)))
            (redemption-cases d w.issuer m.entry m.balance amount
              (λ t. Settles k limit money w defund_expected (settled_at a w t))
              (λ e refused. rw refused (
                refused-Settles (IsSound-weaken h) a account d d account_at device_at
                  (IsMember-weaken m) refl e refl refl))
              (λ accepted covered. record {
                result = ok amount;
                after = cashed_world;
                returned = refl;
                sound = cashed-IsSound covered;
                unchanged = λ e p. ground arith;
                same_size = length-set a _ w.devices;
                matches = rw accepted (
                    cc (
                      ledger-moved h a account d account_at device_at m cashed_issuer
                          (debited amount d) (add_u64 m.balance amount) refl,
                      debited_balance d amount m.is_sealed,
                      deposit_exact covered,
                    ));
              })))
