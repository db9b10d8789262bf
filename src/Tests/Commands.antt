-- ===== src/Tests/Commands.antt =====
-- Texts, and runs of the whole program, on concrete arguments.
use Prim.Native.Nat.{bit_xor}
use digital_euro_wallet.Prelude.{
  Option, some-injective, sym, ap, ◌∙◌, ℕ, ◌≡◌, refl, List, [], ◌∷◌, some, arith, replicate, codes,
  list_eq, nat_eq,
}
use digital_euro_wallet.Text
use digital_euro_wallet.Text.{Text}
use digital_euro_wallet.Id
use digital_euro_wallet.Id.{DeviceId, display-injective}
use digital_euro_wallet.Error
use digital_euro_wallet.Error.{holding_limit_exceeded, unknown_device}
use mathlib.Core.Path.{subst}
use digital_euro_wallet.Signature.{Keypair}
use digital_euro_wallet.Signature.Generation
use digital_euro_wallet.Harness.{World}
use digital_euro_wallet.Harness.Grown.{IsWellDrawn}
use digital_euro_wallet.Harness.Opening.{Config}
use digital_euro_wallet.Harness.Opening
use digital_euro_wallet.Harness.CommandLine
use digital_euro_wallet.Harness.CommandLine.{Settings, settled, defaults}
use digital_euro_wallet.Harness.CommandLine.RoundTrip.{arguments, parse_args-arguments}
use digital_euro_wallet.Harness.CommandLine.Settled.{AreAccepted, settle_arguments-AreAccepted}
use digital_euro_wallet.Harness.Scenarios.{euros}
use digital_euro_wallet.Harness.Acceptance.{success, config, main}
use digital_euro_wallet.Harness.Acceptance.Checked.{AreOpened}
use digital_euro_wallet.Harness.Acceptance.Command.{main-fuzz_succeeds, main-all_succeeds}
use digital_euro_wallet.Tests.Toy.{counting, wide-AreDocumented, drawn_key}
use digital_euro_wallet.Tests.Worlds.{ranging, ranging-IsRangeRng}
use digital_euro_wallet.Tests.Drawn.{Drawn, drawn, drawn_world, drawn_world-IsWellDrawn}
use digital_euro_wallet.Tests.Verdicts.{high, all-AreOpened}
use digital_euro_wallet.Tests.Euclid.{keys}
use digital_euro_wallet.Tests.Openings.{
  Enrolling, crates, primes, seeds, drawn-IsKeySource, key_made_always,
}

-- a proof that unfolds this computes with texts
unfoldable Printing : Type 0
unfolding Text.decimal Text.decimal02 Text.digits Text.hex Text.hex02 Text.parse_u64 Text.scan_u64
    Id.short Error.display euros CommandLine.kind CommandLine.parse_args CommandLine.validate
    CommandLine.settle_arguments
Printing = Unit

euros_test : euros 1205 ≡ codes "12.05 €"
unfolding Printing
euros_test = refl

abbrev kiosk : DeviceId
kiosk = record { bytes = 10 ∷ 255 ∷ 0 ∷ 16 ∷ replicate 12 7 }

display_test : Error.display (unknown_device kiosk) ≡ codes "unknown device 0aff0010"
unfolding Printing
display_test = refl

limit_test :
    Error.display (holding_limit_exceeded 4000 2000)
    ≡ codes "holding limit: 4000 cents requested, only 2000 of room left"
unfolding Printing
limit_test = refl

abbrev short_run : Settings
short_run = record {
  command = CommandLine.fuzz;
  seed = 1;
  key_bits = 512;
  limit = 2000;
  devices = 2;
  ops = 1;
}

parse_args-arguments_example :
    CommandLine.parse_args (arguments short_run) defaults ≡ settled short_run
parse_args-arguments_example = parse_args-arguments short_run defaults (record {
  seed = omega arith;
  key_bits = omega arith;
  limit = omega arith;
  devices = omega arith;
  ops = omega arith;
})

abbrev short_args : List Text
short_args =
    codes "fuzz"
    ∷ codes "--limit"
    ∷ codes "2000"
    ∷ codes "--ops"
    ∷ codes "+1"
    ∷ codes "--seed"
    ∷ codes "1"
    ∷ codes "--key-bits"
    ∷ codes "512"
    ∷ codes "--devices"
    ∷ codes "2"
    ∷ []

short_args_settled : CommandLine.settle_arguments short_args ≡ settled short_run
unfolding Printing
short_args_settled = refl

settle_arguments-AreAccepted_example : AreAccepted short_run
settle_arguments-AreAccepted_example =
    settle_arguments-AreAccepted short_args short_run short_args_settled

odd_key_refused :
    CommandLine.settle_arguments (codes "--key-bits" ∷ codes "513" ∷ [])
    ≡ CommandLine.refused (codes "error: --key-bits must be even and at least 512")
unfolding Printing
odd_key_refused = refl

value_missing :
    CommandLine.settle_arguments (codes "all" ∷ codes "--seed" ∷ [])
    ≡ CommandLine.refused (codes "error: --seed needs a value")
unfolding Printing
value_missing = refl

abbrev short_draws : List Drawn
short_draws = drawn 61475 3000 61478 3 4295028771 ∷ drawn 61479 3000 61482 6 8589996067 ∷ []

key_made : Generation.generate {G = ℕ} 1 1 512 1 ≡ some (drawn_key, 3)
unfolding Enrolling
key_made = refl

short_opened :
    Opening.world 1 1
      (record {
        issuer_key = drawn_key;
        key_bits = 512;
        seed = 1;
        limit = 2000;
        devices = 2;
        ops = 1;
      })
      (bit_xor 1 0xf022)
      (3000 ∷ 3000 ∷ [])
    ≡ some (drawn_world drawn_key 2000 short_draws)
unfolding Enrolling
short_opened = refl

-- what the generator makes of a seed is the key made of it
same_key :
    (seed next : ℕ) (key : Keypair) (rng : ℕ)
    → Generation.generate {G = ℕ} 1 1 512 seed ≡ some (drawn_key, next)
    → Generation.generate {G = ℕ} 1 1 512 seed ≡ some (key, rng)
    → drawn_key ≡ key
same_key seed next key rng made again =
    ap (λ (p : Keypair × ℕ). p.0) (some-injective (sym made ∙ again))

-- the configuration that `main` makes of the settings and a key
abbrev config_of : Settings → Keypair → Config
config_of settings key = config ℕ 1 1 settings key

-- the world of the random run, for a key of the issuer
abbrev opened_with : Settings → ℕ → Keypair → Option (World ℕ)
opened_with settings balance key =
    Opening.world 1 1 (config_of settings key) (bit_xor settings.seed 0xf022)
      (balance ∷ balance ∷ [])

short-IsWellDrawn :
    (key : Keypair) (rng : ℕ) (w : World ℕ)
    → Generation.generate {G = ℕ} 1 1 512 1 ≡ some (key, rng)
    → Opening.world 1 1 (config_of short_run key) (bit_xor 1 0xf022) (3000 ∷ 3000 ∷ []) ≡ some w
    → IsWellDrawn 1 w
short-IsWellDrawn key rng w made opened =
    subst (IsWellDrawn 1)
      (some-injective (
        sym short_opened
        ∙ (ap (opened_with short_run 3000) (same_key 1 3 key rng key_made made) ∙ opened)))
      (drawn_world-IsWellDrawn 1 drawn_key 2000 short_draws ((ground arith, tt), (tt, tt))
        ((ground arith, tt), (tt, tt)))

main-fuzz_succeeds_example : main ℕ 1 1 short_args ≡ some success
main-fuzz_succeeds_example =
    main-fuzz_succeeds wide-AreDocumented ranging-IsRangeRng 1 1 drawn-IsKeySource short_args
      short_run short_args_settled refl key_made_always (omega arith) short-IsWellDrawn

abbrev full_run : Settings
full_run = record short_run { command = CommandLine.both; seed = 2; limit = 5000 }

abbrev full_args : List Text
full_args =
    codes "all"
    ∷ codes "--limit"
    ∷ codes "5000"
    ∷ codes "--ops"
    ∷ codes "1"
    ∷ codes "--seed"
    ∷ codes "2"
    ∷ codes "--key-bits"
    ∷ codes "512"
    ∷ codes "--devices"
    ∷ codes "2"
    ∷ []

full_args_settled : CommandLine.settle_arguments full_args ≡ settled full_run
unfolding Printing
full_args_settled = refl

full_key_made : Generation.generate {G = ℕ} 1 1 512 2 ≡ some (drawn_key, 4)
unfolding Enrolling
full_key_made = refl

abbrev full_draws : List Drawn
full_draws = drawn 61472 7500 61475 5 4295028768 ∷ drawn 61476 7500 61479 9 8589996064 ∷ []

full_opened :
    Opening.world 1 1 high (bit_xor 2 0xf022) (7500 ∷ 7500 ∷ [])
    ≡ some (drawn_world drawn_key 5000 full_draws)
unfolding Enrolling
full_opened = refl

full_worlds :
    (key : Keypair) (rng : ℕ)
    → Generation.generate {G = ℕ} 1 1 512 2 ≡ some (key, rng)
    → AreOpened ℕ 1 1 (config_of full_run key)
      × ((w : World ℕ)
          → Opening.world 1 1 (config_of full_run key) (bit_xor 2 0xf022) (7500 ∷ 7500 ∷ [])
            ≡ some w
          → IsWellDrawn 1 w)
full_worlds key rng made =
    let same = same_key 2 4 key rng full_key_made made in
    (
      subst (λ (k : Keypair). AreOpened ℕ 1 1 (config_of full_run k)) same all-AreOpened,
      λ w opened.
          subst (IsWellDrawn 1)
            (some-injective (sym full_opened ∙ (ap (opened_with full_run 7500) same ∙ opened)))
            (drawn_world-IsWellDrawn 1 drawn_key 5000 full_draws ((ground arith, tt), (tt, tt))
              ((ground arith, tt), (tt, tt))),
    )

main-all_succeeds_example : main ℕ 1 1 full_args ≡ some success
main-all_succeeds_example =
    main-all_succeeds wide-AreDocumented ranging-IsRangeRng 1 1 drawn-IsKeySource full_args full_run
      full_args_settled refl key_made_always (omega arith) (omega arith) (omega arith) full_worlds
