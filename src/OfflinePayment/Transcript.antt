-- ===== src/OfflinePayment/Transcript.antt =====
-- What the honest part of examples/offline_payment.rs prints.
use digital_euro_wallet.Prelude.{
  ℕ, suc, ◌≡◌, ◌≤◌, ◌∙◌, refl, ap, some, List, [], ◌∷◌, err, arith, codes, get_elem?,
}
use digital_euro_wallet.Prelude.Int.{pos}
use digital_euro_wallet.Text
use digital_euro_wallet.Text.{Text}
use digital_euro_wallet.Crates.{Crates, Rng, AreDocumented}
use digital_euro_wallet.Id.{AccountId}
use digital_euro_wallet.Error
use digital_euro_wallet.Error.{Result, insufficient_funds}
use digital_euro_wallet.Harness
use digital_euro_wallet.Harness.{World, Operation, perform}
use digital_euro_wallet.Harness.Ledger.{settle}
use digital_euro_wallet.Harness.Kept.{Keeps, Keeps-trans}
use digital_euro_wallet.Harness.Stands.{stored-Stands, balance_at-Stands, float-Stands}
use digital_euro_wallet.OfflinePayment.Telling.{euros, signed_euros}
use digital_euro_wallet.OfflinePayment.{overdrawing, honest}
use digital_euro_wallet.OfflinePayment.Printing.{
  Prints, Left, prints, ends, heads, reads, performs, attempts,
}

abbrev overdrawing_lines : List Text
overdrawing_lines =
    []
    ∷ codes "── offline: Alice tries to spend 6 € again, with 4 € left"
    ∷ codes "   refused: insufficient funds: need 600 cents, have 400"
    ∷ codes "   phone still 4.00 €, nothing lost"
    ∷ []
    ∷ codes "── offline: she spends the 4 € at the mill instead"
    ∷ codes "   phone 0.00 €, mill 9.00 €"
    ∷ []
    ∷ codes "── defunding: the mill moves its takings back online"
    ∷ codes "   mill's account 9.00 €, float 1.00 €"
    ∷ []
    ∷ codes "── a lost phone"
    ∷ codes "   20 € funded, then the phone is lost. There is no recovery:"
    ∷ codes "   Alice's account stays at 20.00 €; the 20 € stay counted in the float, now 21.00 €"
    ∷ []

-- up to the lost phone
abbrev pub honest_lines : List Text
honest_lines =
    []
    ∷ codes "── funding: Alice moves 10 € from her account onto her phone (online)"
    ∷ codes "   account 40.00 €, phone 10.00 €"
    ∷ []
    ∷ codes "── offline: Alice buys bread for 6 €"
    ∷ codes "   phone 4.00 €, bakery 6.00 €"
    ∷ codes "   nothing split, nothing sent back: 4 € simply stay on the phone"
    ∷ []
    ∷ codes "── offline: the bakery pays the mill 5 € out of what it just received"
    ∷ codes "   bakery 1.00 €, mill 5.00 €"
    ∷ codes "   the issuer has seen none of this; its float is still 10.00 €"
    ∷ overdrawing_lines

module _ {R : Type 0} ⦃x : Crates⦄ ⦃g : Rng R⦄ {k limit money : ℕ} {w : World R} where
  overdrawing-Prints :
      (v : World R) (doc : AreDocumented x) (alice_account mill_account : AccountId)
      → 2000 ≤ limit
      → get_elem? v.accounts 0 ≡ some alice_account
      → get_elem? v.accounts 2 ≡ some mill_account
      → Keeps v w
      → Left limit money (suc (suc (suc (suc k)))) (400 ∷ 100 ∷ 500 ∷ []) (4000 ∷ 0 ∷ 0 ∷ []) w
      → Prints
          (λ w'. Left limit money k (2000 ∷ 100 ∷ 0 ∷ []) (2000 ∷ 0 ∷ 900 ∷ []) w' × Keeps v w')
          (overdrawing alice_account mill_account)
          w
          overdrawing_lines
  unfolding settle euros signed_euros Error.display Text.decimal Text.decimal02 Text.digits
  overdrawing-Prints v doc alice_account mill_account room alice_at mill_at kept h = heads _ _ (
      attempts _ doc (Harness.pay 0 1 600) (err (insufficient_funds 600 400))
        (record { balances = 400 ∷ 100 ∷ 500 ∷ []; deposits = 4000 ∷ 0 ∷ 0 ∷ [] }) h
        (omega arith, omega arith, ground arith) (ground (arith, room))
        (λ w1 h1 s1. prints _ _ _ refl (
          reads _ _ 400 (balance_at-Stands 0 400 h1 refl) (
            prints _ _ _ refl (
              heads _ _ (
                performs _ doc (Harness.pay 0 2 400) 400
                  (record { balances = 0 ∷ 100 ∷ 900 ∷ []; deposits = 4000 ∷ 0 ∷ 0 ∷ [] }) h1
                  (omega arith, omega arith, ground arith) (ground (arith, room))
                  (λ w2 h2 s2. reads _ _ 0 (balance_at-Stands 0 0 h2 refl) (
                    reads _ _ 900 (balance_at-Stands 2 900 h2 refl) (
                      prints _ _ _ refl (
                        heads _ _ (
                          performs _ doc (Harness.defund 2 900) 900
                            (record { balances = 0 ∷ 100 ∷ 0 ∷ []; deposits = 4000 ∷ 0 ∷ 900 ∷ [] })
                            h2 (omega arith) (ground (arith, room))
                            (λ w3 h3 s3.
                              let stored =
                                stored-Stands 2 mill_account 899 h3
                                  (ap (λ l. get_elem? l 2)
                                      (s3.accounts ∙ s2.accounts ∙ s1.accounts ∙ kept.accounts)
                                    ∙ mill_at)
                                  refl in
                              reads _ _ 900 stored (
                                reads _ _ (pos 100) (ap some (float-Stands h3)) (
                                  prints _ _ _ refl (
                                    heads _ _ (
                                      performs _ doc (Harness.fund 0 2000) 2000
                                        (record {
                                          balances = 2000 ∷ 100 ∷ 0 ∷ [];
                                          deposits = 2000 ∷ 0 ∷ 900 ∷ [];
                                        })
                                        h3 (omega arith) (ground (arith, room))
                                        (λ w4 h4 s4.
                                          let stored =
                                            stored-Stands 0 alice_account 1999 h4
                                              (ap (λ l. get_elem? l 0)
                                                  (s4.accounts ∙ s3.accounts ∙ s2.accounts
                                                    ∙ s1.accounts ∙ kept.accounts)
                                                ∙ alice_at)
                                              refl in
                                          prints _ _ _ refl (
                                            reads _ _ 2000 stored (
                                              reads _ _ (pos 2100) (ap some (float-Stands h4)) (
                                                ends _ _ _ refl (
                                                  h4,
                                                  Keeps-trans kept (
                                                      Keeps-trans s1
                                                        (Keeps-trans s2 (Keeps-trans s3 s4))),
                                                )))))))))))))))))))))

module _ {R : Type 0} ⦃x : Crates⦄ ⦃g : Rng R⦄ {k limit money : ℕ} {w : World R} where
  -- From a sound world of three empty devices whose first account holds 50 €, with a limit of at
  -- least 20 € and the accounts of Alice and of the mill in their places, the run from the first
  -- funding to the lost phone panics nowhere, prints exactly `honest_lines`, and leaves 20 €, 1 € and
  -- nothing on the devices, and 20 €, nothing and 9 € in the accounts; the devices' pseudonyms, the
  -- accounts' names and the issuer's key stay, and no nonce of a stranger is recorded.
  pub honest-Prints :
      (doc : AreDocumented x) (alice_account mill_account : AccountId)
      → 2000 ≤ limit
      → get_elem? w.accounts 0 ≡ some alice_account
      → get_elem? w.accounts 2 ≡ some mill_account
      → Left limit money
          (suc (suc (suc (suc (suc (suc (suc k)))))))
          (0 ∷ 0 ∷ 0 ∷ [])
          (5000 ∷ 0 ∷ 0 ∷ [])
          w
      → Prints
          (λ w'. Left limit money k (2000 ∷ 100 ∷ 0 ∷ []) (2000 ∷ 0 ∷ 900 ∷ []) w' × Keeps w w')
          (honest alice_account mill_account)
          w
          honest_lines
  unfolding honest settle euros signed_euros Text.decimal Text.decimal02 Text.digits
  honest-Prints doc alice_account mill_account room alice_at mill_at h = heads _ _ (
      performs _ doc (Harness.fund 0 1000) 1000
        (record { balances = 1000 ∷ 0 ∷ 0 ∷ []; deposits = 4000 ∷ 0 ∷ 0 ∷ [] }) h (omega arith)
        (ground (arith, room))
        (λ w1 h1 s1.
          let stored =
            stored-Stands 0 alice_account 3999 h1 (ap (λ l. get_elem? l 0) s1.accounts ∙ alice_at)
              refl in
          reads _ _ 4000 stored (
            reads _ _ 1000 (balance_at-Stands 0 1000 h1 refl) (
              prints _ _ _ refl (
                heads _ _ (
                  performs _ doc (Harness.pay 0 1 600) 600
                    (record { balances = 400 ∷ 600 ∷ 0 ∷ []; deposits = 4000 ∷ 0 ∷ 0 ∷ [] }) h1
                    (omega arith, omega arith, ground arith) (ground (arith, room))
                    (λ w2 h2 s2. reads _ _ 400 (balance_at-Stands 0 400 h2 refl) (
                      reads _ _ 600 (balance_at-Stands 1 600 h2 refl) (
                        prints _ _ _ refl (
                          prints _ _ _ refl (
                            heads _ _ (
                              performs _ doc (Harness.pay 1 2 500) 500
                                (record {
                                  balances = 400 ∷ 100 ∷ 500 ∷ [];
                                  deposits = 4000 ∷ 0 ∷ 0 ∷ [];
                                })
                                h2 (omega arith, omega arith, ground arith) (ground (arith, room))
                                (λ w3 h3 s3. reads _ _ 100 (balance_at-Stands 1 100 h3 refl) (
                                  reads _ _ 500 (balance_at-Stands 2 500 h3 refl) (
                                    prints _ _ _ refl (
                                      reads _ _ (pos 1000) (ap some (float-Stands h3)) (
                                        prints _ _ _ refl (
                                          overdrawing-Prints w doc alice_account mill_account room
                                            alice_at mill_at (Keeps-trans s1 (Keeps-trans s2 s3))
                                            h3))))))))))))))))))
