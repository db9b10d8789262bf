-- ===== src/Harness/Acceptance/Checked.antt =====
-- The acceptance check of src/main.rs as a whole.
use digital_euro_wallet.Prelude.{
  ℕ, ◌+◌, ◌≤◌, ◌<◌, ◌≡◌, refl, true, false, some, [], ◌∷◌, ok, arith, add_u64, get_elem?,
  u64_modulus, nat_eq,
}
use digital_euro_wallet.Crates.{Crates, KeyCrates, Rng, BigRng, SeedableRng, AreDocumented}
use digital_euro_wallet.Certificate
use digital_euro_wallet.Certificate.{DeviceCertificate}
use digital_euro_wallet.Wallet.{Wallet}
use digital_euro_wallet.Harness.Opening.{Config}
use digital_euro_wallet.Harness.Scenarios.Refused.{refused_payment-passes}
use digital_euro_wallet.Harness.Scenarios.Tampered.{AreApart}
use digital_euro_wallet.Harness.Scenarios.Replayed.{resist_replay-passes}
use digital_euro_wallet.Harness.Scenarios.Spent.{cracked_element-passes}
use digital_euro_wallet.Harness.Acceptance.{
  rogue_certificate, refused_payment_costs_nothing, transfers_resist_replay_and_tampering,
  cracked_element_counterfeits, scenarios, count_failed, run_check,
}
use digital_euro_wallet.Harness.Acceptance.Verdicts.{
  IsOpened, IsUsable, opened-Stands, on_world-passes, partial_payment_keeps_the_rest-passes,
  received_value_is_respendable-passes, holding_limit_checked_before_debit-passes,
  defunding_round_trip-passes, lost_device_strands_its_balance_iff,
}

module _ (S : Type 0) ⦃x : Crates⦄ ⦃y : KeyCrates⦄ ⦃q : Rng S⦄ ⦃b : BigRng S⦄ ⦃s : SeedableRng S⦄
    (fuel tries : ℕ) (cfg : Config) where
  -- The world of the refused payment opens, and the certificate of the other issuer is made and does
  -- not happen to verify under this one's key.
  pub record IsForeign : Type 0 where
    pub world : IsOpened S fuel tries cfg 3 (add_u64 cfg.seed 2) (10000 ∷ 0 ∷ [])
    pub rogue : DeviceCertificate
    pub made : rogue_certificate S fuel tries cfg ≡ some rogue
    pub foreign : Certificate.verify rogue world.start.issuer.keypair.public ≡ false

  -- The world of the tampering opens, and the payer's hashes of the three transfers differ.
  pub record IsTellingApart : Type 0 where
    pub world : IsOpened S fuel tries cfg 2 (add_u64 cfg.seed 4) (10000 ∷ 0 ∷ 0 ∷ [])
    pub payer : Wallet S
    pub payee : Wallet S
    pub third : Wallet S
    pub payer_at : get_elem? world.start.devices 0 ≡ some payer
    pub payee_at : get_elem? world.start.devices 1 ≡ some payee
    pub third_at : get_elem? world.start.devices 2 ≡ some third
    pub apart : AreApart payer payee third

  pub record AreOpened : Type 0 where
    pub partial : IsOpened S fuel tries cfg 3 cfg.seed (10000 ∷ 0 ∷ 0 ∷ [])
    pub received : IsOpened S fuel tries cfg 4 (add_u64 cfg.seed 1) (10000 ∷ 0 ∷ 0 ∷ [])
    pub refused : IsForeign
    pub holding : IsOpened S fuel tries cfg 4 (add_u64 cfg.seed 3) (cfg.limit ∷ cfg.limit ∷ [])
    pub tampering : IsTellingApart
    pub round_trip : IsOpened S fuel tries cfg 2 (add_u64 cfg.seed 5) (10000 ∷ [])
    pub lost : IsOpened S fuel tries cfg 1 (add_u64 cfg.seed 6) (10000 ∷ [])
    pub broken : IsOpened S fuel tries cfg 4 (add_u64 cfg.seed 7) (10000 ∷ 0 ∷ 0 ∷ [])

  module _ (doc : AreDocumented x) (usable : IsUsable S fuel tries cfg) where
    pub refused_payment_costs_nothing-passes :
        1000 ≤ cfg.limit → IsForeign → refused_payment_costs_nothing S fuel tries cfg ≡ some (ok tt)
    unfolding refused_payment_costs_nothing
    refused_payment_costs_nothing-passes room h = rw h.made (
        on_world-passes S fuel tries cfg doc usable 3 _ _ _ h.world (
          refused_payment-passes doc h.rogue (omega (arith, room)) h.foreign
            (opened-Stands S fuel tries cfg doc usable 3 _ _ h.world (omega arith) (omega arith))))

    -- The scenario of replay and tampering passes from a limit of 10 € on, when the payer's full-domain
    -- hashes of its transfer, of the inflated and of the redirected one differ.
    pub transfers_resist_replay_and_tampering-passes :
        1000 ≤ cfg.limit
        → IsTellingApart
        → transfers_resist_replay_and_tampering S fuel tries cfg ≡ some (ok tt)
    unfolding transfers_resist_replay_and_tampering
    transfers_resist_replay_and_tampering-passes room h =
        on_world-passes S fuel tries cfg doc usable 2 _ _ _ h.world (
          resist_replay-passes doc h.payer h.payee h.third room
            (opened-Stands S fuel tries cfg doc usable 2 _ _ h.world (omega arith) (omega arith))
            h.payer_at h.payee_at h.third_at h.apart)

    -- The scenario of the cracked element passes from a limit of 10 € on: 10 € are paid out twice and
    -- cashed twice, the float falls to -10 €, and the element still shows its 10 €.
    pub cracked_element_counterfeits-passes :
        1000 ≤ cfg.limit
        → IsOpened S fuel tries cfg 4 (add_u64 cfg.seed 7) (10000 ∷ 0 ∷ 0 ∷ [])
        → cracked_element_counterfeits S fuel tries cfg ≡ some (ok tt)
    unfolding cracked_element_counterfeits
    cracked_element_counterfeits-passes room h =
        on_world-passes S fuel tries cfg doc usable 4 _ _ _ h (
          cracked_element-passes doc room
            (opened-Stands S fuel tries cfg doc usable 4 _ _ h (omega arith) (omega arith)))

    -- With a limit of at least 40 €, whose double is a `u64`, the acceptance check passes, once the
    -- eight worlds open and are well drawn, the other issuer's certificate does not verify under the
    -- issuer's key, and the payer's hashes of the tampered transfers differ from that of its own.
    pub run_check-passes :
        4000 ≤ cfg.limit
        → cfg.limit + cfg.limit < u64_modulus
        → AreOpened
        → run_check S fuel tries cfg ≡ some true
    unfolding run_check scenarios count_failed
    run_check-passes room fits h =
        let ten : 1000 ≤ cfg.limit = omega (arith, room) in
        rw
          (
            partial_payment_keeps_the_rest-passes S fuel tries cfg doc usable ten h.partial,
            received_value_is_respendable-passes S fuel tries cfg doc usable ten h.received,
            refused_payment_costs_nothing-passes ten h.refused,
            holding_limit_checked_before_debit-passes S fuel tries cfg doc usable
                (omega (arith, room)) fits h.holding,
            transfers_resist_replay_and_tampering-passes ten h.tampering,
            defunding_round_trip-passes S fuel tries cfg doc usable (omega (arith, room))
                h.round_trip,
            (lost_device_strands_its_balance_iff S fuel tries cfg doc usable h.lost).1 room,
            cracked_element_counterfeits-passes ten h.broken,
          )
          refl
