-- ===== src/Harness/Acceptance.antt =====
-- src/main.rs: the scenarios on the worlds that they open, `run_check`, and `main`.
pub mod Verdicts
pub mod Checked
pub mod Command
use Prim.Native.Nat.{bit_xor}
use digital_euro_wallet.Prelude.{
  ℕ, ◌+◌, ◌==◌, nat_eq, Bool, true, false, ◌&&◌, Option, none, some, List, [], ◌∷◌, StdResult, ok,
  err, add_u64, replicate, codes,
}
use digital_euro_wallet.Text.{Text}
use digital_euro_wallet.Crates.{Crates, KeyCrates, Rng, BigRng, RangeRng, SeedableRng}
use digital_euro_wallet.Id.{AccountId}
use digital_euro_wallet.Error.{Result}
use digital_euro_wallet.Certificate.{DeviceCertificate}
use digital_euro_wallet.Signature.{Keypair}
use digital_euro_wallet.Signature.Generation.{generate}
use digital_euro_wallet.Issuer
use digital_euro_wallet.Issuer.{Issuer}
use digital_euro_wallet.Harness.{World, Failure, panicked, and_then}
use digital_euro_wallet.Harness.Opening.{Config, world, fuzz}
use digital_euro_wallet.Harness.CommandLine
use digital_euro_wallet.Harness.CommandLine.{
  Settings, Parsed, shown_usage, refused, settled, settle_arguments,
}
use digital_euro_wallet.Harness.Play.{Verdict, Play, verdict}
use digital_euro_wallet.Harness.Scenarios.{
  partial_payment, received_value, refused_payment, holding_limit, resist_replay, round_trip,
  lost_device, cracked_element, sub_u64,
}

-- `.expect("rogue certification")`
abbrev expect_certificate : {T : Type 0} → Result DeviceCertificate × T → Option DeviceCertificate
expect_certificate (ok certificate, _) = some certificate
expect_certificate (err _, _) = none

module _ (S : Type 0) ⦃x : Crates⦄ ⦃y : KeyCrates⦄ ⦃q : Rng S⦄ ⦃b : BigRng S⦄ ⦃s : SeedableRng S⦄
    (fuel tries : ℕ) (cfg : Config) where
  -- `none` is a panic, or fuel run out
  unfoldable pub rogue_certificate : Option DeviceCertificate
  rogue_certificate =
      and_then (generate fuel tries 512 (s.seed_from_u64 (bit_xor cfg.seed 0x0bad)))
        (λ (rogue_key, rng).
          let account : AccountId = record { bytes = replicate 16 0xee } in
          let rogue = Issuer.open_account account 0 (Issuer.new rogue_key) in
          and_then (generate fuel tries 512 rng) (λ (key, rng').
            expect_certificate (Issuer.certify_device account key.public cfg.limit (rogue, rng'))))

  -- a scenario on the world that it opens
  unfoldable pub on_world : ℕ → List ℕ → Play S (Unit {0}) → Option (Verdict (Unit {0}))
  on_world seed balances play =
      and_then (world fuel tries cfg seed balances) (λ w. verdict (play w))

  unfoldable pub partial_payment_keeps_the_rest : Option (Verdict (Unit {0}))
  partial_payment_keeps_the_rest = on_world cfg.seed (10000 ∷ 0 ∷ 0 ∷ []) partial_payment

  unfoldable pub received_value_is_respendable : Option (Verdict (Unit {0}))
  received_value_is_respendable = on_world (add_u64 cfg.seed 1) (10000 ∷ 0 ∷ 0 ∷ []) received_value

  unfoldable pub refused_payment_costs_nothing : Option (Verdict (Unit {0}))
  refused_payment_costs_nothing =
      on_world (add_u64 cfg.seed 2) (10000 ∷ 0 ∷ []) (refused_payment rogue_certificate)

  unfoldable pub holding_limit_checked_before_debit : Option (Verdict (Unit {0}))
  holding_limit_checked_before_debit =
      on_world (add_u64 cfg.seed 3) (cfg.limit ∷ cfg.limit ∷ []) (holding_limit cfg.limit)

  unfoldable pub transfers_resist_replay_and_tampering : Option (Verdict (Unit {0}))
  transfers_resist_replay_and_tampering =
      on_world (add_u64 cfg.seed 4) (10000 ∷ 0 ∷ 0 ∷ []) resist_replay

  unfoldable pub defunding_round_trip : Option (Verdict (Unit {0}))
  defunding_round_trip = on_world (add_u64 cfg.seed 5) (10000 ∷ []) round_trip

  unfoldable pub lost_device_strands_its_balance : Option (Verdict (Unit {0}))
  lost_device_strands_its_balance = on_world (add_u64 cfg.seed 6) (10000 ∷ []) lost_device

  unfoldable pub cracked_element_counterfeits : Option (Verdict (Unit {0}))
  cracked_element_counterfeits = on_world (add_u64 cfg.seed 7) (10000 ∷ 0 ∷ 0 ∷ []) cracked_element

  unfoldable pub scenarios : List (Option (Verdict (Unit {0})))
  scenarios =
      partial_payment_keeps_the_rest ∷ received_value_is_respendable ∷ refused_payment_costs_nothing
      ∷ holding_limit_checked_before_debit ∷ transfers_resist_replay_and_tampering
      ∷ defunding_round_trip ∷ lost_device_strands_its_balance ∷ cracked_element_counterfeits ∷ []

-- the loop over the scenarios: how many failed; `none` is a panic of one
unfoldable pub count_failed : List (Option (Verdict (Unit {0}))) → ℕ → Option ℕ
count_failed [] failed = some failed
count_failed (none ∷ outcomes) failed = none
count_failed (some (ok _) ∷ outcomes) failed = count_failed outcomes failed
count_failed (some (err why) ∷ outcomes) failed = count_failed outcomes (failed + 1)

-- what `run_fuzz` returns; a panic is none
abbrev passed : {S : Type 0} → StdResult Failure (World S) → Option Bool
passed (ok w) = some true
passed (err panicked) = none
passed (err _) = some false

pub data ExitCode : Type 0 where
  success failure : ExitCode

abbrev exit_code : Bool → ExitCode
exit_code true = success
exit_code false = failure

module _ (S : Type 0) ⦃x : Crates⦄ ⦃y : KeyCrates⦄ ⦃q : Rng S⦄ ⦃b : BigRng S⦄ ⦃s : SeedableRng S⦄
    (fuel tries : ℕ) where
  unfoldable pub run_check : Config → Option Bool
  run_check cfg =
      and_then (count_failed (scenarios S fuel tries cfg) 0) (λ failed. some (failed == 0))

  module _ ⦃r : RangeRng S⦄ where
    -- the last `match` of `main`
    unfoldable pub run_command : CommandLine.Command → Config → Option Bool
    run_command CommandLine.check cfg = run_check cfg
    run_command CommandLine.fuzz cfg = passed {S = S} (fuzz {S = S} fuel tries cfg)
    run_command CommandLine.both cfg = and_then (run_check cfg) (λ checked.
        and_then (passed {S = S} (fuzz {S = S} fuel tries cfg))
          (λ fuzzed. some (checked && fuzzed)))

    abbrev pub config : Settings → Keypair → Config
    config settings issuer_key = record {
      issuer_key = issuer_key;
      key_bits = settings.key_bits;
      seed = settings.seed;
      limit = settings.limit;
      devices = settings.devices;
      ops = settings.ops;
    }

    -- the exit code for the arguments behind the program's name; `none` is a panic, or fuel run out
    unfoldable pub main : List Text → Option ExitCode
    main args = elim (settle_arguments args) [
      | shown_usage ↦ some success
      | refused message ↦ some failure
      | settled settings ↦
          and_then (generate fuel tries settings.key_bits (s.seed_from_u64 settings.seed))
            (λ (issuer_key, _).
              and_then (run_command settings.command (config settings issuer_key))
                (λ ok. some (exit_code ok)))
    ]
