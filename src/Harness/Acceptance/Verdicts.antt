-- ===== src/Harness/Acceptance/Verdicts.antt =====
-- The verdicts of the acceptance scenarios of src/main.rs.
use digital_euro_wallet.Prelude.{
  ℕ, Bool-cases, leb, leb→le, ◌↔◌, zero, suc, get_elem?, Option-cases, inl, inr, ◌+◌, ◌≤◌, ◌<◌, ◌≡◌,
  ◌≢◌, refl, ap, true, Option, none, some, List, [], ◌∷◌, ok, err, arith, add_u64, sum, length,
  u64_modulus, nat_eq,
}
use digital_euro_wallet.Crates.{Crates, KeyCrates, Rng, BigRng, SeedableRng, AreDocumented}
use digital_euro_wallet.Error.{holding_limit_exceeded}
use digital_euro_wallet.Signature.RoundTrip.{IsKeypair}
use digital_euro_wallet.Signature.Generated.{IsKeySource}
use digital_euro_wallet.Harness.{World}
use digital_euro_wallet.Harness.Opening.{Config, world}
use digital_euro_wallet.Harness.Grown.{IsWellDrawn}
use digital_euro_wallet.Harness.Opened.{world-Stands}
use digital_euro_wallet.Harness.Ledger.{unspent}
use digital_euro_wallet.Harness.Stands.{Stands}
use digital_euro_wallet.Harness.Endings.{Passes}
use digital_euro_wallet.Harness.Play.{Reason, Verdict, Play, to_string}
use digital_euro_wallet.Harness.Scenarios.Passing.{
  partial_payment-passes, received_value-passes, holding_limit-passes, round_trip-passes,
  lost_device-passes, lost_device-Fails,
}
use digital_euro_wallet.Harness.Acceptance.{
  on_world, partial_payment_keeps_the_rest, received_value_is_respendable,
  holding_limit_checked_before_debit, defunding_round_trip, lost_device_strands_its_balance,
  scenarios, count_failed, run_check,
}

module _ (S : Type 0) ⦃x : Crates⦄ ⦃y : KeyCrates⦄ ⦃q : Rng S⦄ ⦃b : BigRng S⦄ ⦃s : SeedableRng S⦄
    (fuel tries : ℕ) (cfg : Config) where
  -- The world of a scenario of `k` operations opens, and was well drawn.
  pub record IsOpened (k seed : ℕ) (balances : List ℕ) : Type 0 where
    pub start : World S
    pub opened : world fuel tries cfg seed balances ≡ some start
    pub drawn : IsWellDrawn k start

  -- What every scenario relies on.
  pub record IsUsable : Type 0 where
    pub issuer_key : IsKeypair cfg.issuer_key
    pub limit_fits : cfg.limit < u64_modulus
    pub source : IsKeySource S tries

  module _ (doc : AreDocumented x) (usable : IsUsable) where
    pub opened-Stands :
        (k seed : ℕ) (balances : List ℕ) (h : IsOpened k seed balances)
        → k < u64_modulus
        → sum balances < u64_modulus
        → Stands k cfg.limit (sum balances) (length balances) (unspent balances) h.start
    opened-Stands k seed balances h k_fits fits =
        world-Stands fuel tries cfg seed doc usable.source k usable.limit_fits k_fits balances
          h.start usable.issuer_key fits h.opened h.drawn

    pub on_world-passes :
        (k seed : ℕ) (balances : List ℕ) (play : Play S (Unit {0})) (h : IsOpened k seed balances)
        → Passes play h.start
        → on_world S fuel tries cfg seed balances play ≡ some (ok tt)
    unfolding on_world
    on_world-passes k seed balances play h (end, passed) = rw (h.opened, passed) refl

    pub partial_payment_keeps_the_rest-passes :
        1000 ≤ cfg.limit
        → IsOpened 3 cfg.seed (10000 ∷ 0 ∷ 0 ∷ [])
        → partial_payment_keeps_the_rest S fuel tries cfg ≡ some (ok tt)
    unfolding partial_payment_keeps_the_rest
    partial_payment_keeps_the_rest-passes room h =
        on_world-passes 3 _ _ _ h
          (partial_payment-passes doc room (opened-Stands 3 _ _ h (omega arith) (omega arith)))

    pub received_value_is_respendable-passes :
        1000 ≤ cfg.limit
        → IsOpened 4 (add_u64 cfg.seed 1) (10000 ∷ 0 ∷ 0 ∷ [])
        → received_value_is_respendable S fuel tries cfg ≡ some (ok tt)
    unfolding received_value_is_respendable
    received_value_is_respendable-passes room h =
        on_world-passes 4 _ _ _ h
          (received_value-passes doc room (opened-Stands 4 _ _ h (omega arith) (omega arith)))

    pub holding_limit_checked_before_debit-passes :
        200 ≤ cfg.limit
        → cfg.limit + cfg.limit < u64_modulus
        → IsOpened 4 (add_u64 cfg.seed 3) (cfg.limit ∷ cfg.limit ∷ [])
        → holding_limit_checked_before_debit S fuel tries cfg ≡ some (ok tt)
    unfolding holding_limit_checked_before_debit
    holding_limit_checked_before_debit-passes least fits h = on_world-passes 4 _ _ _ h (
        holding_limit-passes doc least usable.limit_fits
          (opened-Stands 4 _ _ h (omega arith) (omega (arith, fits))))

    pub defunding_round_trip-passes :
        3000 ≤ cfg.limit
        → IsOpened 2 (add_u64 cfg.seed 5) (10000 ∷ [])
        → defunding_round_trip S fuel tries cfg ≡ some (ok tt)
    unfolding defunding_round_trip
    defunding_round_trip-passes room h =
        on_world-passes 2 _ _ _ h
          (round_trip-passes doc room (opened-Stands 2 _ _ h (omega arith) (omega arith)))

    pub lost_device_strands_its_balance_refused :
        cfg.limit < 4000
        → IsOpened 1 (add_u64 cfg.seed 6) (10000 ∷ [])
        → lost_device_strands_its_balance S fuel tries cfg
          ≡ some (err (to_string (holding_limit_exceeded 4000 cfg.limit)))
    unfolding lost_device_strands_its_balance on_world
    lost_device_strands_its_balance_refused small h =
        let (end, failed) =
          lost_device-Fails doc small (opened-Stands 1 _ _ h (omega arith) (omega arith)) in
        rw (h.opened, failed) refl

    -- Once its world opens and is well drawn, the scenario of the lost device passes exactly when the
    -- limit is at least 40 €; when the crates are as documented, the issuer has an RSA key, the search
    -- for primes returns primes, and the limit is below 2^64.
    pub lost_device_strands_its_balance_iff :
        IsOpened 1 (add_u64 cfg.seed 6) (10000 ∷ [])
        → (lost_device_strands_its_balance S fuel tries cfg ≡ some (ok tt)) ↔ (4000 ≤ cfg.limit)
    unfolding lost_device_strands_its_balance
    lost_device_strands_its_balance_iff h = (
      λ passed. elim (Bool-cases (leb 4000 cfg.limit)) [
        | inl large ↦ leb→le 4000 cfg.limit large
        | inr small ↦
            let failed = lost_device_strands_its_balance_refused (ground (arith, small)) h in
            absurd (ground (arith, passed, failed))
      ],
      λ room.
          on_world-passes 1 _ _ _ h
            (lost_device-passes doc room (opened-Stands 1 _ _ h (omega arith) (omega arith))),
    )

-- A failure counts.
count_failed-le :
    (outcomes : List (Option (Verdict (Unit {0})))) (failed total : ℕ)
    → count_failed outcomes failed ≡ some total
    → failed ≤ total
unfolding count_failed
count_failed-le [] failed total h = ground (arith, h)
count_failed-le (none ∷ outcomes) failed total h = absurd (ground (arith, h))
count_failed-le (some (ok u) ∷ outcomes) failed total h = count_failed-le outcomes failed total h
count_failed-le (some (err why) ∷ outcomes) failed total h =
    omega (arith, count_failed-le outcomes (failed + 1) total h)

counts_failure :
    (outcomes : List (Option (Verdict (Unit {0})))) (a failed total : ℕ) (why : Reason)
    → get_elem? outcomes a ≡ some (some (err why))
    → count_failed outcomes failed ≡ some total
    → failed < total
unfolding count_failed
counts_failure [] a failed total why at h = absurd (ground (arith, at))
counts_failure (none ∷ outcomes) a failed total why at h = absurd (ground (arith, h))
counts_failure (some (ok u) ∷ outcomes) zero failed total why at h = absurd (ground (arith, at))
counts_failure (some (ok u) ∷ outcomes) (suc a) failed total why at h =
    counts_failure outcomes a failed total why at h
counts_failure (some (err e) ∷ outcomes) zero failed total why at h =
    omega (arith, count_failed-le outcomes (failed + 1) total h)
counts_failure (some (err e) ∷ outcomes) (suc a) failed total why at h =
    omega (arith, counts_failure outcomes a (failed + 1) total why at h)

module _ (S : Type 0) ⦃x : Crates⦄ ⦃y : KeyCrates⦄ ⦃q : Rng S⦄ ⦃b : BigRng S⦄ ⦃s : SeedableRng S⦄
    (fuel tries : ℕ) (cfg : Config) (doc : AreDocumented x) where
  -- With a limit below 40 €, which the command line accepts from 20 € on, the acceptance check cannot
  -- pass, whatever the other scenarios do, once the world of the lost device opens: its funding of
  -- 40 € is refused.
  pub run_check_short_limit :
      IsUsable S fuel tries cfg
      → cfg.limit < 4000
      → IsOpened S fuel tries cfg 1 (add_u64 cfg.seed 6) (10000 ∷ [])
      → run_check S fuel tries cfg ≢ some true
  unfolding run_check scenarios
  run_check_short_limit usable small h passed =
      let failed = lost_device_strands_its_balance_refused S fuel tries cfg doc usable small h in
      elim (Option-cases (count_failed (scenarios S fuel tries cfg) 0)) [
        | inl panicked ↦ absurd (ground (arith, panicked, passed))
        | inr (total, counted) ↦
            let positive : 0 < total =
              counts_failure (scenarios S fuel tries cfg) 6 0 total _ (ap some failed) counted in
            absurd (ground (arith, counted, passed, positive))
      ]
