-- ===== src/Harness/Openable.antt =====
-- The loop of src/main.rs that opens the devices, where its keys are generated.
use digital_euro_wallet.Prelude.{
  ℕ, suc, ◌+◌, ◌≡◌, ◌∙◌, refl, ap, List, [], ◌∷◌, Option, some, ok, arith, length, length-append,
}
use digital_euro_wallet.HashMap.Laws.{get-insert_self}
use digital_euro_wallet.Crates.{Crates, KeyCrates, Rng, BigRng, SeedableRng, AreDocumented}
use digital_euro_wallet.Id.{account_eq}
use digital_euro_wallet.Signature.{Keypair}
use digital_euro_wallet.Signature.RoundTrip.{IsKeypair}
use digital_euro_wallet.Signature.Generation.{generate}
use digital_euro_wallet.Protocol.Enrolment.{new_wallet, registered, install_known}
use digital_euro_wallet.Issuer
use digital_euro_wallet.Issuer.{Issuer}
use digital_euro_wallet.Error.{Result}
use digital_euro_wallet.Wallet.{Wallet}
use digital_euro_wallet.Harness.{World}
use digital_euro_wallet.Harness.Opening.{
  Config, expect, pushed, drawn_account, enrol_next, device_seed, open_devices, world,
}
use digital_euro_wallet.Harness.Turns.{generated-installs}

expect-passes :
    {R G T : Type 0} (o : Option (Result (Wallet R) × Issuer × G))
    (rest : Wallet R → Issuer → G → Option T) (d : Wallet R) (i : Issuer) (g : G)
    → o ≡ some (ok d, i, g)
    → expect o rest ≡ rest d i g
expect-passes o rest d i g e = rw e refl

module _ {S : Type 0} ⦃x : Crates⦄ ⦃y : KeyCrates⦄ ⦃q : Rng S⦄ ⦃b : BigRng S⦄ ⦃s : SeedableRng S⦄
    (fuel tries : ℕ) (cfg : Config) (seed : ℕ) where
  module _ (doc : AreDocumented x)
      (total : (rng : S)
        → (key : Keypair) × (rng_k : S) × (generate fuel tries cfg.key_bits rng
            ≡ some (key, rng_k))) where
    -- One turn succeeds, and keeps the issuer's key.
    turn-opens :
        (index balance : ℕ) (w : World S) (rng : S)
        → IsKeypair w.issuer.keypair
        → (d : Wallet S) × (i : Issuer) × (g : S) × (enrol_next fuel tries cfg seed index balance w
              rng
            ≡ some (ok d, i, g))
          × IsKeypair i.keypair
    unfolding Issuer.open_account
    turn-opens index balance w rng issuer_key =
        let account = drawn_account fuel tries cfg seed rng in
        let issuer = Issuer.open_account account balance w.issuer in
        let device_rng = s.seed_from_u64 (device_seed seed index) in
        let (key, rng_k, made) = total (q.gen_bytes16 rng).1 in
        (
          new_wallet key issuer account cfg.limit device_rng rng_k,
          registered key issuer account cfg.limit device_rng rng_k,
          (q.gen_bytes16 rng_k).1,
          generated-installs fuel tries cfg.limit cfg.key_bits issuer account device_rng
                (q.gen_bytes16 rng).1 rng_k key made
              ∙ ap some (
                  install_known key issuer account cfg.limit device_rng rng_k doc issuer_key balance
                    (get-insert_self account balance w.issuer.accounts)),
          issuer_key,
        )

    open_devices-opens :
        (index : ℕ) (balances : List ℕ) (w : World S) (rng : S)
        → IsKeypair w.issuer.keypair
        → (w' : World S) × (open_devices fuel tries cfg seed index balances w rng ≡ some w')
          × (length w'.devices ≡ length w.devices + length balances)
          × (length w'.accounts ≡ length w.accounts + length balances)
    unfolding open_devices
    open_devices-opens index [] w rng issuer_key = (w, refl, omega arith, omega arith)
    open_devices-opens index (balance ∷ balances) w rng issuer_key =
        let account = drawn_account fuel tries cfg seed rng in
        let (d, i, g, enrolled, later_key) = turn-opens index balance w rng issuer_key in
        let (w', opened, devices, accounts) =
          open_devices-opens (suc index) balances (pushed w account d i) g later_key in
        (
          w',
          expect-passes _ _ d i g enrolled ∙ opened,
          omega (arith, devices, length-append w.devices (d ∷ [])),
          omega (arith, accounts, length-append w.accounts (account ∷ [])),
        )

    -- With an RSA key for the issuer, and a generation of keys that returns from every state of the
    -- generator, the harness opens its world for any list of balances, with one device and one account
    -- for each: no enrolment is refused.
    pub world-opens :
        (balances : List ℕ)
        → IsKeypair cfg.issuer_key
        → (w : World S) × (world fuel tries cfg seed balances ≡ some w)
          × (length w.devices ≡ length balances)
          × (length w.accounts ≡ length balances)
    unfolding world Issuer.new
    world-opens balances issuer_key =
        let (w, opened, devices, accounts) =
          open_devices-opens 0 balances
            (record { issuer = Issuer.new cfg.issuer_key; accounts = []; devices = [] })
            (s.seed_from_u64 seed) issuer_key in
        (w, opened, omega (arith, devices), omega (arith, accounts))
