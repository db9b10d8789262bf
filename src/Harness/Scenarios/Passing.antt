-- ===== src/Harness/Scenarios/Passing.antt =====
-- The acceptance scenarios of src/main.rs that are made of operations only, from a world with a known
-- ledger.
use digital_euro_wallet.Prelude.{
  ℕ, ◌≤◌, ◌≡◌, ◌<◌, refl, ◌∙◌, ap, [], ◌∷◌, some, arith, ok, err, ◌-◌, u64_modulus, nat_eq,
  same_self, get_elem?, sum_u64, add_u64,
}
use digital_euro_wallet.Prelude.Int.{pos}
use digital_euro_wallet.Crates.{Crates, Rng, AreDocumented}
use digital_euro_wallet.Harness
use digital_euro_wallet.Issuer
use digital_euro_wallet.Wallet
use digital_euro_wallet.Harness.Scenarios.Halves.{defund-split, replayed}
use digital_euro_wallet.Harness.{World, perform}
use digital_euro_wallet.Harness.Ledger.{settle, unspent}
use digital_euro_wallet.Harness.Stands.{
  Stands, perform-Stands, performs, attempts, account-Stands, stored-Stands, balance_at-Stands,
  float-Stands,
}
use digital_euro_wallet.Harness.Endings.{
  Passes, Fails, reads, calls, looks, reads_failing, calls_failing, ensures,
}
use digital_euro_wallet.Harness.Play.{to_string, call, call_issuer}
use digital_euro_wallet.Harness.Scenarios.{
  partial_payment, received_value, holding_limit, lost_device, round_trip, sub_u64,
}
use digital_euro_wallet.Error.{replay, holding_limit_exceeded}

module _ {R : Type 0} ⦃x : Crates⦄ ⦃g : Rng R⦄ {limit money : ℕ} {w : World R} where
  pub partial_payment-passes :
      (doc : AreDocumented x)
      → 1000 ≤ limit
      → Stands 3 limit money 3 (unspent (10000 ∷ 0 ∷ 0 ∷ [])) w
      → Passes partial_payment w
  unfolding partial_payment settle
  partial_payment-passes doc room h =
      performs _ _ doc (Harness.fund 0 1000) 1000
        (record { balances = 1000 ∷ 0 ∷ 0 ∷ []; deposits = 9000 ∷ 0 ∷ 0 ∷ [] }) h (omega arith)
        (ground (arith, room))
        (λ w1 h1 _.
          performs _ _ doc (Harness.pay 0 1 600) 600
            (record { balances = 400 ∷ 600 ∷ 0 ∷ []; deposits = 9000 ∷ 0 ∷ 0 ∷ [] }) h1
            (omega arith, omega arith, ground arith) (ground (arith, room))
            (λ w2 h2 _. reads _ _ _ 400 (balance_at-Stands 0 400 h2 refl) (
              reads _ _ _ 600 (balance_at-Stands 1 600 h2 refl) (
                performs _ _ doc (Harness.pay 0 2 400) 400
                  (record { balances = 0 ∷ 600 ∷ 400 ∷ []; deposits = 9000 ∷ 0 ∷ 0 ∷ [] }) h2
                  (omega arith, omega arith, ground arith) (ground (arith, room))
                  (λ w3 h3 _.
                    reads _ _ _ 0 (balance_at-Stands 0 0 h3 refl)
                      (reads _ _ _ 400 (balance_at-Stands 2 400 h3 refl) (w3, refl)))))))

  pub received_value-passes :
      (doc : AreDocumented x)
      → 1000 ≤ limit
      → Stands 4 limit money 3 (unspent (10000 ∷ 0 ∷ 0 ∷ [])) w
      → Passes received_value w
  unfolding received_value settle
  received_value-passes doc room h =
      let conserved : sum_u64 (600 ∷ 100 ∷ 300 ∷ []) ≡ 1000 = unfold sum_u64 add_u64 in refl in
      performs _ _ doc (Harness.fund 0 1000) 1000
        (record { balances = 1000 ∷ 0 ∷ 0 ∷ []; deposits = 9000 ∷ 0 ∷ 0 ∷ [] }) h (omega arith)
        (ground (arith, room))
        (λ w1 h1 _. reads _ _ _ (pos 1000) (ap some (float-Stands h1)) (
          performs _ _ doc (Harness.pay 0 1 600) 600
            (record { balances = 400 ∷ 600 ∷ 0 ∷ []; deposits = 9000 ∷ 0 ∷ 0 ∷ [] }) h1
            (omega arith, omega arith, ground arith) (ground (arith, room))
            (λ w2 h2 _.
              performs _ _ doc (Harness.pay 1 2 500) 500
                (record { balances = 400 ∷ 100 ∷ 500 ∷ []; deposits = 9000 ∷ 0 ∷ 0 ∷ [] }) h2
                (omega arith, omega arith, ground arith) (ground (arith, room))
                (λ w3 h3 _.
                  performs _ _ doc (Harness.pay 2 0 200) 200
                    (record { balances = 600 ∷ 100 ∷ 300 ∷ []; deposits = 9000 ∷ 0 ∷ 0 ∷ [] }) h3
                    (omega arith, omega arith, ground arith) (ground (arith, room))
                    (λ w4 h4 _.
                      reads _ _ _ 1000
                        (ap (λ l. some (sum_u64 l.balances)) h4.ledger ∙ ap some conserved)
                        (reads _ _ _ (pos 1000) (ap some (float-Stands h4)) (w4, refl)))))))

  pub holding_limit-passes :
      (doc : AreDocumented x)
      → 200 ≤ limit
      → limit < u64_modulus
      → Stands 4 limit money 2 (unspent (limit ∷ limit ∷ [])) w
      → Passes (holding_limit limit) w
  unfolding holding_limit settle
  holding_limit-passes doc least fits h =
      let less : sub_u64 limit 100 ≡ limit - 100 = omega (arith, least, fits) in
      performs _ _ doc (Harness.fund 0 limit) limit
        (record { balances = limit ∷ 0 ∷ []; deposits = 0 ∷ limit ∷ [] }) h (omega arith)
        (ground (arith, least))
        (λ w1 h1 _.
          performs _ _ doc (Harness.fund 1 (sub_u64 limit 100)) (sub_u64 limit 100)
            (record { balances = limit ∷ (limit - 100) ∷ []; deposits = 0 ∷ 100 ∷ [] }) h1
            (omega arith) (rw less (ground (arith, least)))
            (λ w2 h2 _.
              attempts _ doc (Harness.pay 0 1 200) (err (holding_limit_exceeded 200 100))
                (record { balances = limit ∷ (limit - 100) ∷ []; deposits = 0 ∷ 100 ∷ [] }) h2
                (omega arith, omega arith, ground arith) (ground (arith, least))
                (λ w3 h3 _. reads _ _ _ limit (balance_at-Stands 0 limit h3 refl) (
                  ensures _ _ _ _ (same_self limit) (
                    performs _ _ doc (Harness.pay 0 1 100) 100
                      (record { balances = (limit - 100) ∷ limit ∷ []; deposits = 0 ∷ 100 ∷ [] }) h3
                      (omega arith, omega arith, ground arith) (ground (arith, least))
                      (λ w4 h4 _.
                        reads _ _ _ limit (balance_at-Stands 1 limit h4 refl)
                          (w4, rw (same_self limit) refl)))))))

  pub lost_device-passes :
      (doc : AreDocumented x)
      → 4000 ≤ limit
      → Stands 1 limit money 1 (unspent (10000 ∷ [])) w
      → Passes lost_device w
  unfolding lost_device settle
  lost_device-passes doc room h =
      let (account, at) = account-Stands h in
      reads _ _ _ account at (
        performs _ _ doc (Harness.fund 0 4000) 4000
          (record { balances = 4000 ∷ []; deposits = 6000 ∷ [] }) h (omega arith)
          (ground (arith, room))
          (λ w1 h1 same.
            let held =
              stored-Stands 0 account 5999 h1 (ap (λ l. get_elem? l 0) same.accounts ∙ at) refl in
            reads _ _ _ (some 6000) (ap some held)
              (reads _ _ _ (pos 4000) (ap some (float-Stands h1)) (_, refl))))

  -- Below 40 € the device cannot be funded.
  pub lost_device-Fails :
      (doc : AreDocumented x)
      → limit < 4000
      → Stands 1 limit money 1 (unspent (10000 ∷ [])) w
      → Fails (to_string (holding_limit_exceeded 4000 limit)) lost_device w
  unfolding lost_device settle
  lost_device-Fails doc small h =
      let (account, at) = account-Stands h in
      let (w1, e, _, _) =
        perform-Stands doc (Harness.fund 0 4000) (err (holding_limit_exceeded 4000 limit))
          (unspent (10000 ∷ [])) h (omega arith) (ground (arith, small)) in
      reads_failing _ _ _ _ account at (
        calls_failing to_string _ (perform (Harness.fund 0 4000)) w w1
          (holding_limit_exceeded 4000 limit) e)

  pub round_trip-passes :
      (doc : AreDocumented x)
      → 3000 ≤ limit
      → Stands 2 limit money 1 (unspent (10000 ∷ [])) w
      → Passes round_trip w
  unfolding round_trip settle
  round_trip-passes doc room h =
      let (account, at) = account-Stands h in
      reads _ _ _ account at (
        performs _ _ doc (Harness.fund 0 3000) 3000
          (record { balances = 3000 ∷ []; deposits = 7000 ∷ [] }) h (omega arith)
          (ground (arith, room))
          (λ w1 h1 same.
            let (w2, e, h2, same') =
              perform-Stands doc (Harness.defund 0 1200) (ok 1200)
                (record { balances = 1800 ∷ []; deposits = 8200 ∷ [] }) h1 (omega arith)
                (ground (arith, room)) in
            let (order, w', ordered, cashed) = defund-split 0 1200 1200 w1 w2 e in
            let again : call_issuer (Issuer.defund order) w2 ≡ some (err replay, w2) =
              replayed order w' w2 1200 cashed in
            let held =
              stored-Stands 0 account 8199 h2
                (ap (λ l. get_elem? l 0) (same'.accounts ∙ same.accounts) ∙ at) refl in
            calls _ _ (call 0 (Wallet.defund 1200)) w1 w' order ordered (
              looks _ (call_issuer (Issuer.defund order)) w' w2 (ok 1200) cashed (
                looks _ (call_issuer (Issuer.defund order)) w2 w2 (err replay) again (
                  reads _ _ _ (some 8200) (ap some held)
                    (reads _ _ _ (pos 1800) (ap some (float-Stands h2)) (w2, refl)))))))
