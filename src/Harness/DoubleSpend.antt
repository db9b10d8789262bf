-- ===== src/Harness/DoubleSpend.antt =====
-- A cracked element in the world of src/main.rs that pays out the same value twice, as in
-- `cracked_element_counterfeits` and in examples/offline_payment.rs, and the payees that defund.
pub mod Spending
pub mod Standing
use digital_euro_wallet.Prelude.{
  ℕ, ◌+◌, ◌≤◌, ◌<◌, ◌≡◌, ◌≢◌, ◌∙◌, refl, sym, some, ok, arith, get_elem?, set, get_elem?-set_self,
  get_elem?-set_ne,
}
use digital_euro_wallet.Prelude.Int.{ℤ, pos, sub_i128}
use digital_euro_wallet.Crates.{Crates, Rng, AreDocumented}
use digital_euro_wallet.Id.{AccountId}
use digital_euro_wallet.Wallet
use digital_euro_wallet.Wallet.{Wallet, cracked}
use digital_euro_wallet.Wallet.Genuine.{debited, signed_defunding}
use digital_euro_wallet.Wallet.Request.{paid}
use digital_euro_wallet.Issuer.Redemptions.{cashed}
use digital_euro_wallet.Protocol.Payment.{AreReady}
use digital_euro_wallet.Harness
use digital_euro_wallet.Harness.{World, perform}
use digital_euro_wallet.Harness.Members.{IsMember, cashed-IsMember}
use digital_euro_wallet.Harness.Outcomes.{paid-IsMember}
use digital_euro_wallet.Harness.Counterfeit.{perform-inflated}
use digital_euro_wallet.Harness.Play.{balance_at}
use digital_euro_wallet.Harness.Scenarios.Cracked.{
  cracked-AreReady, debited-AreReady, perform-defund_member,
}

module _ {R : Type 0} ⦃x : Crates⦄ ⦃g : Rng R⦄ where
  -- A payer at `a` that shows `v`, and payees at `b` and `c` that hold `p` and `q` and have the room.
  pub record AreReadyThree (limit a b c v p q : ℕ) (w : World R) (d e f : Wallet R) : Type 0 where
    pub positive : 0 < v
    pub payer_not_first : a ≢ b
    pub payer_not_second : a ≢ c
    pub first_not_second : b ≢ c
    pub payer_at : get_elem? w.devices a ≡ some d
    pub first_at : get_elem? w.devices b ≡ some e
    pub second_at : get_elem? w.devices c ≡ some f
    pub first_account : AccountId
    pub second_account : AccountId
    pub first_ready : AreReady d e
    pub second_ready : AreReady d f
    pub first_member : IsMember 3 limit w.issuer first_account e
    pub second_member : IsMember 3 limit w.issuer second_account f
    pub first_other : Wallet.device e ≢ Wallet.device d
    pub second_other : Wallet.device f ≢ Wallet.device d
    pub devices_apart : Wallet.device e ≢ Wallet.device f
    pub accounts_apart : first_account ≢ second_account
    pub payer_holds : v ≤ Wallet.balance d
    pub first_holds : Wallet.balance e ≡ p
    pub second_holds : Wallet.balance f ≡ q
    pub first_room : v ≤ Wallet.headroom e
    pub second_room : v ≤ Wallet.headroom f

  -- The world once the payer is cracked.
  abbrev pub broken : ℕ → World R → Wallet R → World R
  broken a w d = record w { devices = set a (record d { state = cracked }) w.devices }

  -- Two payments of `v` by the payer, and the payees that defund all that they hold.
  pub record IsSpentTwice (a b c v p q : ℕ) (w : World R) (d : Wallet R) : Type 0 where
    pub first_paid : World R
    pub second_paid : World R
    pub first_cashed : World R
    pub last : World R
    pub first_spend : perform (Harness.pay a b v) (broken a w d) ≡ some (ok v, first_paid)
    pub second_spend : perform (Harness.pay a c v) first_paid ≡ some (ok v, second_paid)
    pub first_back :
        perform (Harness.defund b (p + v)) second_paid ≡ some (ok (p + v), first_cashed)
    pub second_back : perform (Harness.defund c (q + v)) first_cashed ≡ some (ok (q + v), last)
    pub first_takings : balance_at b second_paid ≡ some (p + v)
    pub second_takings : balance_at c second_paid ≡ some (q + v)
    pub second_takings_kept : balance_at c first_cashed ≡ some (q + v)
    pub shown : balance_at a second_paid ≡ some (Wallet.balance d)
    pub still_shown : balance_at a last ≡ some (Wallet.balance d)
    pub float :
        last.issuer.offline_float
        ≡ sub_i128 (sub_i128 w.issuer.offline_float (pos (p + v))) (pos (q + v))
    pub others : (i : ℕ) → a ≢ i → b ≢ i → c ≢ i → get_elem? last.devices i ≡ get_elem? w.devices i
