-- ===== src/Harness/Opened.antt =====
-- The world that src/main.rs opens is sound, and the whole random run passes from it.
use Prim.Native.Nat.{bit_xor}
use digital_euro_wallet.Prelude.{
  some-injective, ℕ, zero, suc, ◌*◌, ◌≤◌, ◌<◌, ◌≡◌, ◌∙◌, refl, List, [], ◌∷◌, ◌++◌, some, ok, arith,
  length, u64_modulus, sum, replicate,
}
use digital_euro_wallet.Crates.{
  Crates, KeyCrates, Rng, BigRng, RangeRng, IsRangeRng, SeedableRng, AreDocumented,
}
use digital_euro_wallet.Id.{account_eq}
use digital_euro_wallet.Signature.{Keypair}
use digital_euro_wallet.Signature.Generation.{generate}
use digital_euro_wallet.Signature.RoundTrip.{IsKeypair}
use digital_euro_wallet.Signature.Generated.{IsKeySource}
use digital_euro_wallet.Wallet.{Wallet}
use digital_euro_wallet.Issuer
use digital_euro_wallet.Issuer.{Issuer}
use digital_euro_wallet.Harness.{World}
use digital_euro_wallet.Harness.Opening.{
  Config, pushed, drawn_account, enrol_next, open_devices, world, opening, fuzz,
}
use digital_euro_wallet.Harness.Grown.{IsWellDrawn, opened, opened-stored}
use digital_euro_wallet.Harness.Enlarged.{IsOpening, opened-IsOpening, IsOpening-Stands}
use digital_euro_wallet.Harness.Openable.{world-opens}
use digital_euro_wallet.Harness.Joins.{enrol-IsOpening}
use digital_euro_wallet.Harness.Sound.{IsSound}
use digital_euro_wallet.Harness.Run.{run_fuzz-passes}
use digital_euro_wallet.Harness.Ledger.{unspent}
use digital_euro_wallet.Harness.Stands.{Stands}
use mathlib.Core.List.{append-nil, append_assoc}
use digital_euro_wallet.Harness.Turns.{
  last-unlisted, Extends-distinct, open_devices-turn, open_devices-Extends,
}

module _ {S : Type 0} ⦃x : Crates⦄ ⦃y : KeyCrates⦄ ⦃q : Rng S⦄ ⦃b : BigRng S⦄ ⦃s : SeedableRng S⦄
    (fuel tries : ℕ) (cfg : Config) (seed : ℕ) where
  module _ (doc : AreDocumented x) (source : IsKeySource S tries) (k : ℕ)
      (limit_fits : cfg.limit < u64_modulus) (k_fits : k < u64_modulus) where
    -- One turn makes the world that is described as grown.
    turn-grown :
        (index balance : ℕ) (deposits : List ℕ) (w : World S) (rng g : S) (d : Wallet S)
        (i : Issuer)
        → IsOpening k cfg.limit deposits w
        → enrol_next fuel tries cfg seed index balance w rng ≡ some (ok d, i, g)
        → let w' = pushed w (drawn_account fuel tries cfg seed rng) d i in
          IsWellDrawn k w' → IsOpening k cfg.limit (deposits ++ (balance ∷ [])) w'
    unfolding Issuer.open_account
    turn-grown index balance deposits w rng g d i h enrolled distinct =
        let account = drawn_account fuel tries cfg seed rng in
        let unlisted = last-unlisted w account d i distinct in
        enrol-IsOpening tries doc source fuel cfg.limit cfg.key_bits k limit_fits k_fits
          (opened w account balance unlisted) account balance
          (opened-stored w account balance unlisted) _ _ g d i enrolled distinct
          (opened-IsOpening w account balance unlisted h)

    empty-IsOpening :
        IsKeypair cfg.issuer_key
        → IsOpening {S = S} k cfg.limit []
            (record { issuer = Issuer.new cfg.issuer_key; accounts = []; devices = [] })
    unfolding Issuer.new
    empty-IsOpening issuer_key = record {
      members = record {
        same_length = refl;
        member = λ a c d ha hd. ground arith;
        device_once = λ a b d e ha hb s. ground arith;
        account_once = λ a b c ha hb. ground arith;
      };
      float = refl;
      ledger = refl;
      no_nonces = refl;
      issuer_key = issuer_key;
    }

    open_devices-IsOpening :
        (index : ℕ) (deposits balances : List ℕ) (w w' : World S) (rng : S)
        → IsOpening k cfg.limit deposits w
        → open_devices fuel tries cfg seed index balances w rng ≡ some w'
        → IsWellDrawn k w'
        → IsOpening k cfg.limit (deposits ++ balances) w'
    open_devices-IsOpening index deposits [] w w' rng h done distinct =
        let e : w ≡ w' = unfold open_devices in some-injective done in rw (← e, append-nil) h
    open_devices-IsOpening index deposits (balance ∷ balances) w w' rng h done distinct =
        let (d, i, g, enrolled, rest) =
          open_devices-turn fuel tries cfg seed index balance balances w w' rng done in
        let account = drawn_account fuel tries cfg seed rng in
        let w'' = pushed w account d i in
        let later = open_devices-Extends fuel tries cfg seed (suc index) balances w'' w' g rest in
        let h' =
          turn-grown index balance deposits w rng g d i h enrolled
            (Extends-distinct later distinct) in
        rw (append_assoc deposits (balance ∷ []) balances) at (
          open_devices-IsOpening (suc index) (deposits ++ (balance ∷ [])) balances w'' w' g h' rest
            distinct)

    world-IsOpening :
        (balances : List ℕ) (w : World S)
        → IsKeypair cfg.issuer_key
        → world fuel tries cfg seed balances ≡ some w
        → IsWellDrawn k w
        → IsOpening k cfg.limit balances w
    unfolding world Issuer.new
    world-IsOpening balances w issuer_key opened distinct =
        let start : World S = record {
          issuer = Issuer.new cfg.issuer_key;
          accounts = [];
          devices = [];
        } in
        open_devices-IsOpening 0 [] balances start w _ (empty-IsOpening issuer_key) opened distinct

    -- A world that the harness opens and that is well drawn is sound, its money being the sum of the
    -- balances; there is a device for each, every device holds nothing, and the accounts hold the
    -- balances in their order. The issuer has an RSA key, the search for primes returns primes, and
    -- limit, number of operations and sum are below 2^64.
    pub world-Stands :
        (balances : List ℕ) (w : World S)
        → IsKeypair cfg.issuer_key
        → sum balances < u64_modulus
        → world fuel tries cfg seed balances ≡ some w
        → IsWellDrawn k w
        → Stands k cfg.limit (sum balances) (length balances) (unspent balances) w
    world-Stands balances w issuer_key fits opened distinct =
        IsOpening-Stands (world-IsOpening balances w issuer_key opened distinct) fits

sum-replicate : (n v : ℕ) → sum (replicate n v) ≡ v * n
sum-replicate zero v = omega arith
sum-replicate (suc n) v = grind (arith, sum-replicate n v)

length-replicate : (n v : ℕ) → length (replicate n v) ≡ n
length-replicate zero v = refl
length-replicate (suc n) v = omega (arith, length-replicate n v)

module _ {S : Type 0} ⦃x : Crates⦄ ⦃y : KeyCrates⦄ ⦃q : Rng S⦄ ⦃b : BigRng S⦄ ⦃r : RangeRng S⦄
    ⦃s : SeedableRng S⦄ (doc : AreDocumented x) (range : IsRangeRng r) (fuel tries : ℕ)
    (source : IsKeySource S tries) (cfg : Config) where
  -- The random run of the harness as a whole passes: its world opens, no call panics, no refused
  -- operation changes a balance, a reservation, an account or the float, every check holds after
  -- every operation, and the world at the end is sound. The crates are as documented, the issuer has
  -- an RSA key, the key generation returns from every state of the generator with primes from its
  -- search; there are at least two devices and a limit of at least two cents; limit, number of
  -- operations and opening balance times devices are below 2^64; and a world that opens is well drawn
  -- (no account, pseudonym or nonce twice).
  pub fuzz-passes :
      (total : (rng : S)
        → (key : Keypair) × (rng_k : S) × (generate fuel tries cfg.key_bits rng
            ≡ some (key, rng_k)))
      → IsKeypair cfg.issuer_key
      → 2 ≤ cfg.devices
      → 2 ≤ cfg.limit
      → cfg.limit < u64_modulus
      → cfg.ops < u64_modulus
      → opening cfg * cfg.devices < u64_modulus
      → ((w : World S)
          → world fuel tries cfg (bit_xor cfg.seed 0xf022) (replicate cfg.devices (opening cfg))
            ≡ some w
          → IsWellDrawn cfg.ops w)
      → (w' : World S) × (fuzz fuel tries cfg ≡ ok w')
        × IsSound 0 cfg.limit (opening cfg * cfg.devices) w'
  unfolding fuzz
  fuzz-passes total issuer_key two cents limit_fits ops_fit money_fits well_drawn =
      let n = cfg.devices in
      let balances = replicate n (opening cfg) in
      let seed = bit_xor cfg.seed 0xf022 in
      let money = sum-replicate n (opening cfg) in
      let (w, opened, _, _) = world-opens fuel tries cfg seed doc total balances issuer_key in
      let stands =
        world-Stands fuel tries cfg seed doc source cfg.ops limit_fits ops_fit balances w issuer_key
          (omega (arith, money, money_fits)) opened (well_drawn w opened) in
      let size : length w.devices ≡ n = stands.size ∙ length-replicate n (opening cfg) in
      let (w', passed, left) =
        run_fuzz-passes doc range cfg.ops n cfg.limit (opening cfg * n) w
          (s.seed_from_u64 (bit_xor cfg.seed 0x5eed)) (rw (← money) stands.sound) size two cents in
      (w', rw (fuzz, opened) passed, left)
