-- ===== src/Harness/Acceptance/Command.antt =====
-- `main` of src/main.rs on the commands that it can be given.
use digital_euro_wallet.Prelude.{
  ℕ, ◌+◌, ◌*◌, ◌/◌, ◌%◌, ◌^◌, ◌≤◌, ◌<◌, ◌≡◌, refl, some, List, arith, u64_modulus, replicate,
}
use Prim.Native.Nat.{bit_xor}
use digital_euro_wallet.Text.{Text}
use digital_euro_wallet.Crates.{
  Crates, KeyCrates, Rng, BigRng, RangeRng, IsRangeRng, SeedableRng, AreDocumented,
}
use digital_euro_wallet.Signature.{Keypair}
use digital_euro_wallet.Signature.Generation.{generate}
use digital_euro_wallet.Signature.Generated.{IsKeySource, generate-IsKeypair}
use digital_euro_wallet.Harness.{World}
use digital_euro_wallet.Harness.Opening.{world, opening}
use digital_euro_wallet.Harness.Opened.{fuzz-passes}
use digital_euro_wallet.Harness.Grown.{IsWellDrawn}
use digital_euro_wallet.Harness.CommandLine
use digital_euro_wallet.Harness.CommandLine.{Settings, settled, settle_arguments}
use digital_euro_wallet.Harness.CommandLine.Settled.{settle_arguments-AreAccepted}
use digital_euro_wallet.Harness.Acceptance.Checked.{AreOpened, run_check-passes}
use digital_euro_wallet.Harness.Acceptance.{success, config, run_command, main}

module _ {S : Type 0} ⦃x : Crates⦄ ⦃y : KeyCrates⦄ ⦃q : Rng S⦄ ⦃b : BigRng S⦄ ⦃r : RangeRng S⦄
    ⦃s : SeedableRng S⦄ (doc : AreDocumented x) (range : IsRangeRng r) (fuel tries : ℕ)
    (source : IsKeySource S tries) where
  -- When the arguments are accepted and ask for the random run, the program ends with success. The
  -- crates are as documented, the key generation returns from every state of the generator, with
  -- primes from its search; the opening balance, half of three limits modulo 2^64, times the devices
  -- is below 2^64; and the world that opens for the generated key is well drawn.
  pub main-fuzz_succeeds :
      (args : List Text) (settings : Settings)
      → settle_arguments args ≡ settled settings
      → settings.command ≡ CommandLine.fuzz
      → ((rng : S)
          → (key : Keypair) × (rng_k : S) × (generate fuel tries settings.key_bits rng
              ≡ some (key, rng_k)))
      → 3 * settings.limit % 2 ^ 64 / 2 * settings.devices < u64_modulus
      → ((key : Keypair) (rng : S) (w : World S)
          → generate fuel tries settings.key_bits (s.seed_from_u64 settings.seed) ≡ some (key, rng)
          → world fuel tries
              (config S fuel tries settings key)
              (bit_xor settings.seed 0xf022)
              (replicate settings.devices (opening (config S fuel tries settings key)))
            ≡ some w
          → IsWellDrawn settings.ops w)
      → main S fuel tries args ≡ some success
  unfolding main run_command
  main-fuzz_succeeds args settings accepted command total fits well_drawn =
      let h = settle_arguments-AreAccepted args settings accepted in
      let (key, rng, made) = total (s.seed_from_u64 settings.seed) in
      let (valid, _, _) =
        generate-IsKeypair tries source fuel settings.key_bits (s.seed_from_u64 settings.seed) key
          rng made in
      let (end, passed, _) =
        fuzz-passes doc range fuel tries source (config S fuel tries settings key) total valid
          h.devices_least (omega (arith, h.limit_least)) h.words.limit h.words.ops fits
          (λ w opened. well_drawn key rng w made opened) in
      rw (main, accepted, made, run_command, command, passed) refl

  -- When the arguments are accepted and ask for the check and the random run, the program ends with
  -- success. The crates are as documented, the key generation returns from every state of the
  -- generator, with primes from its search; the limit is at least 40 €, its double is below 2^64, and
  -- so is the opening balance, half of three limits modulo 2^64, times the devices; the eight worlds
  -- of the check open and are well drawn, the other issuer's certificate does not verify, and the
  -- hashes of the tampered transfers differ; and the world of the random run is well drawn.
  pub main-all_succeeds :
      (args : List Text) (settings : Settings)
      → settle_arguments args ≡ settled settings
      → settings.command ≡ CommandLine.both
      → ((rng : S)
          → (key : Keypair) × (rng_k : S) × (generate fuel tries settings.key_bits rng
              ≡ some (key, rng_k)))
      → 4000 ≤ settings.limit
      → settings.limit + settings.limit < u64_modulus
      → 3 * settings.limit % 2 ^ 64 / 2 * settings.devices < u64_modulus
      → ((key : Keypair) (rng : S)
          → generate fuel tries settings.key_bits (s.seed_from_u64 settings.seed) ≡ some (key, rng)
          → AreOpened S fuel tries (config S fuel tries settings key)
            × ((w : World S)
                → world fuel tries
                    (config S fuel tries settings key)
                    (bit_xor settings.seed 0xf022)
                    (replicate settings.devices (opening (config S fuel tries settings key)))
                  ≡ some w
                → IsWellDrawn settings.ops w))
      → main S fuel tries args ≡ some success
  unfolding main run_command
  main-all_succeeds args settings accepted command total least double fits worlds =
      let h = settle_arguments-AreAccepted args settings accepted in
      let (key, rng, made) = total (s.seed_from_u64 settings.seed) in
      let (valid, _, _) =
        generate-IsKeypair tries source fuel settings.key_bits (s.seed_from_u64 settings.seed) key
          rng made in
      let cfg = config S fuel tries settings key in
      let (all, well_drawn) = worlds key rng made in
      let checked =
        run_check-passes S fuel tries cfg doc
          (record { issuer_key = valid; limit_fits = h.words.limit; source = source }) least double
          all in
      let (end, passed, _) =
        fuzz-passes doc range fuel tries source cfg total valid h.devices_least
          (omega (arith, h.limit_least)) h.words.limit h.words.ops fits well_drawn in
      rw (main, accepted, made, run_command, command, checked, passed) refl
