-- ===== src/Harness/Scenarios/Spent.antt =====
-- The scenario of the cracked element of src/main.rs as a whole.
use digital_euro_wallet.Prelude.{ℕ, ◌≤◌, ◌≡◌, ◌∙◌, refl, ap, some, [], ◌∷◌, arith, ok, add_u64}
use digital_euro_wallet.Prelude.Int.{negsuc, sub_i128, wrap_i128, ◌-ℤ◌}
use digital_euro_wallet.Crates.{Crates, Rng, AreDocumented}
use digital_euro_wallet.Wallet
use digital_euro_wallet.Harness
use digital_euro_wallet.Harness.{World, perform}
use digital_euro_wallet.Harness.Ledger.{settle, unspent}
use digital_euro_wallet.Harness.Endings.{Passes, reads, calls, changes}
use digital_euro_wallet.Harness.Stands.{Stands, performs, float-Stands}
use digital_euro_wallet.Harness.DoubleSpend.{broken}
use digital_euro_wallet.Harness.DoubleSpend.Standing.{Stands-IsSpentTwice}
use digital_euro_wallet.Harness.Scenarios.{crack, break_and_spend, cracked_element}

module _ {R : Type 0} ⦃x : Crates⦄ ⦃g : Rng R⦄ {limit money : ℕ} {w : World R} where
  counterfeited :
      (doc : AreDocumented x)
      → 1000 ≤ limit
      → Stands 3 limit money 3
          (record { balances = 1000 ∷ 0 ∷ 0 ∷ []; deposits = 9000 ∷ 0 ∷ 0 ∷ [] })
          w
      → Passes break_and_spend w
  unfolding add_u64 wrap_i128 Wallet.crack_secure_element
  counterfeited doc room h =
      let (d, at, holds, spent) =
        Stands-IsSpentTwice doc 0 1 2 1000 1000 0 0 h (omega arith)
          ((λ e. omega (arith, e)), (λ e. omega (arith, e)), (λ e. omega (arith, e)))
          (refl, refl, refl) (omega (arith, room)) in
      let float_below : spent.last.issuer.offline_float ≡ negsuc 999 =
        spent.float ∙ rw (float-Stands h) (unfold sub_i128 ◌-ℤ◌ in refl) in
      let cracks : crack 0 w ≡ some (ok tt, broken 0 w d) = rw (crack, at) refl in
      changes (crack 0) _ w (broken 0 w d) cracks (
        calls _ _ (perform (Harness.pay 0 1 1000)) _ spent.first_paid 1000 spent.first_spend (
          calls _ _ (perform (Harness.pay 0 2 1000)) _ spent.second_paid 1000 spent.second_spend (
            reads _ _ _ 1000 spent.first_takings (
              reads _ _ _ 1000 spent.second_takings (
                calls _ _ (perform (Harness.defund 1 1000)) _ spent.first_cashed 1000
                  spent.first_back
                  (calls _ _ (perform (Harness.defund 2 1000)) _ spent.last 1000 spent.second_back (
                    reads _ _ _ (negsuc 999) (ap some float_below) (
                      reads _ _ _ 1000 (spent.still_shown ∙ ap some holds)
                        (spent.last, refl)))))))))

module _ {R : Type 0} ⦃x : Crates⦄ ⦃g : Rng R⦄ {limit money : ℕ} {w : World R} where
  pub cracked_element-passes :
      (doc : AreDocumented x)
      → 1000 ≤ limit
      → Stands 4 limit money 3 (unspent (10000 ∷ 0 ∷ 0 ∷ [])) w
      → Passes cracked_element w
  unfolding cracked_element settle
  cracked_element-passes doc room h =
      performs _ _ doc (Harness.fund 0 1000) 1000
        (record { balances = 1000 ∷ 0 ∷ 0 ∷ []; deposits = 9000 ∷ 0 ∷ 0 ∷ [] }) h (omega arith)
        (ground (arith, room)) (λ w' h' _. counterfeited doc room h')
