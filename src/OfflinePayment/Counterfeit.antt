-- ===== src/OfflinePayment/Counterfeit.antt =====
-- What the part of examples/offline_payment.rs with the cracked element prints.
use digital_euro_wallet.Prelude.{
  ℕ, ◌≤◌, ◌≡◌, ◌∙◌, refl, ap, some, List, [], ◌∷◌, arith, codes, add_u64, get_elem?,
}
use digital_euro_wallet.Prelude.Int.{pos, sub_i128, wrap_i128, ◌-ℤ◌}
use digital_euro_wallet.Text
use digital_euro_wallet.Text.{Text}
use digital_euro_wallet.Crates.{Crates, Rng, AreDocumented}
use digital_euro_wallet.Wallet
use digital_euro_wallet.Wallet.{Wallet}
use digital_euro_wallet.Harness
use digital_euro_wallet.Harness.{World, perform}
use digital_euro_wallet.Harness.Play.{balance_at}
use digital_euro_wallet.Harness.Ledger.{settle}
use digital_euro_wallet.Harness.Stands.{Stands, balance_at-Stands, float-Stands}
use digital_euro_wallet.Harness.DoubleSpend.{broken}
use digital_euro_wallet.Harness.DoubleSpend.Standing.{Stands-IsSpentTwice}
use digital_euro_wallet.OfflinePayment.Telling.{Walk, ◌>>◌, euros, signed_euros}
use digital_euro_wallet.OfflinePayment.{crack_mallory, spend_twice, spend_cracked}
use digital_euro_wallet.OfflinePayment.Printing.{Prints, prints, ends, reads, expects, performs}

abbrev pub cracked_lines : List Text
cracked_lines =
    codes "   10 € funded, paid out twice; both payees accepted genuine signatures"
    ∷ codes "   Mallory's phone still shows 10.00 €"
    ∷ codes "   after the payees defund, the issuer's float is 10.00 € — positive, so"
    ∷ codes "   from the issuer's side nothing looks wrong"
    ∷ codes "   but devices still hold 30.00 € (Alice's lost phone + Mallory's)"
    ∷ codes "   20.00 € was created out of nothing, and nothing on record says which"
    ∷ codes "   device minted it: payments were never reported to anyone."
    ∷ []

module _ {R : Type 0} ⦃x : Crates⦄ ⦃g : Rng R⦄ where
  -- The float and the two phones at the end of the run.
  abbrev pub Minted : World R → Type 0
  Minted w =
      (w.issuer.offline_float ≡ pos 1000)
      × (balance_at 0 w ≡ some 2000)
      × (balance_at 3 w ≡ some 1000)

  cracks :
      {Q : World R → Type 0} {lines : List Text} (w : World R) (d : Wallet R)
      (rest : Walk R (Unit {0}))
      → get_elem? w.devices 3 ≡ some d
      → Prints Q rest (broken 3 w d) lines
      → Prints Q (crack_mallory >> rest) w lines
  unfolding Wallet.crack_secure_element
  cracks w d rest at (end, printed, q) = (end, rw (crack_mallory, at, printed) refl, q)

module _ {R : Type 0} ⦃x : Crates⦄ ⦃g : Rng R⦄ {limit money : ℕ} {w : World R} where
  spend_twice-Prints :
      (doc : AreDocumented x)
      → 1100 ≤ limit
      → Stands 3 limit money 4
          (record { balances = 2000 ∷ 100 ∷ 0 ∷ 1000 ∷ []; deposits = 2000 ∷ 0 ∷ 900 ∷ 0 ∷ [] })
          w
      → Prints Minted spend_twice w cracked_lines
  unfolding add_u64 wrap_i128 euros signed_euros Text.decimal Text.decimal02 Text.digits
  spend_twice-Prints doc room h =
      let (d, at, holds, spent) =
        Stands-IsSpentTwice doc 3 1 2 1000 1000 100 0 h (omega arith)
          ((λ e. omega (arith, e)), (λ e. omega (arith, e)), (λ e. omega (arith, e)))
          (refl, refl, refl) (omega (arith, room)) in
      let float : spent.last.issuer.offline_float ≡ pos 1000 =
        spent.float ∙ rw (float-Stands h) (unfold sub_i128 ◌-ℤ◌ in refl) in
      let alice : balance_at 0 spent.last ≡ some 2000 =
        rw (spent.others 0 (λ e. omega (arith, e)) (λ e. omega (arith, e)) (λ e. omega (arith, e)))
          (balance_at-Stands 0 2000 h refl) in
      let left = spent.still_shown ∙ ap some holds in
      cracks w d _ at (
        expects _ (perform (Harness.pay 3 1 1000)) spent.first_paid 1000 spent.first_spend (
          expects _ (perform (Harness.pay 3 2 1000)) spent.second_paid 1000 spent.second_spend (
            prints _ _ _ refl (
              reads _ _ 1000 (spent.shown ∙ ap some holds) (
                prints _ _ _ refl (
                  reads _ _ 1100 spent.first_takings (
                    expects _ (perform (Harness.defund 1 1100)) spent.first_cashed 1100
                      spent.first_back
                      (reads _ _ 1000 spent.second_takings_kept (
                        expects _ (perform (Harness.defund 2 1000)) spent.last 1000
                          spent.second_back
                          (reads _ _ 1000 left (
                            reads _ _ (pos 1000) (ap some float) (
                              prints _ _ _ refl (
                                prints _ _ _ refl (
                                  prints _ _ _ refl (
                                    prints _ _ _ (unfold sub_i128 ◌-ℤ◌ in refl)
                                      (ends _ _ _ refl (float, alice, left)))))))))))))))))

module _ {R : Type 0} ⦃x : Crates⦄ ⦃g : Rng R⦄ {limit money : ℕ} {w : World R} where
  -- From a sound world in which the phone of Alice holds 20 €, the bakery 1 €, the mill nothing, and
  -- the account of the fourth device 10 €, the run goes on to its end without a panic, prints
  -- exactly `cracked_lines`, and leaves a float of 10 €, with 20 € still shown by the phone of
  -- Alice and 10 € by the cracked one.
  pub spend_cracked-Prints :
      (doc : AreDocumented x)
      → 1100 ≤ limit
      → Stands 4 limit money 4
          (record { balances = 2000 ∷ 100 ∷ 0 ∷ 0 ∷ []; deposits = 2000 ∷ 0 ∷ 900 ∷ 1000 ∷ [] })
          w
      → Prints Minted spend_cracked w cracked_lines
  unfolding spend_cracked settle
  spend_cracked-Prints doc room h =
      performs _ doc (Harness.fund 3 1000) 1000
        (record { balances = 2000 ∷ 100 ∷ 0 ∷ 1000 ∷ []; deposits = 2000 ∷ 0 ∷ 900 ∷ 0 ∷ [] }) h
        (omega arith) (ground (arith, room)) (λ w' h' _. spend_twice-Prints doc room h')
