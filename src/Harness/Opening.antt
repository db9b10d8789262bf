-- ===== src/Harness/Opening.antt =====
-- src/main.rs: the world that a run starts in, a backend and one device per account.
use Prim.Native.Nat.{bit_xor}
use digital_euro_wallet.Prelude.{
  ℕ, suc, ◌+◌, ◌*◌, ◌%◌, ◌/◌, ◌^◌, Option, none, some, List, [], ◌∷◌, ◌++◌, StdResult, ok, err,
  replicate,
}
use digital_euro_wallet.Crates.{Crates, KeyCrates, Rng, BigRng, RangeRng, SeedableRng}
use digital_euro_wallet.Id.{AccountId}
use digital_euro_wallet.Signature.{Keypair}
use digital_euro_wallet.Error.{Result}
use digital_euro_wallet.Wallet.{Wallet}
use digital_euro_wallet.Issuer
use digital_euro_wallet.Issuer.{Issuer}
use digital_euro_wallet.Protocol
use digital_euro_wallet.Harness.{World, Failure, panicked, run_fuzz}

pub record Config : Type 0 where
  pub issuer_key : Keypair
  pub key_bits : ℕ
  pub seed : ℕ
  pub limit : ℕ
  pub devices : ℕ
  pub ops : ℕ

-- `.expect("enrolment of a known account")`, and what follows it
abbrev pub expect :
    {R G T : Type 0}
    → Option (Result (Wallet R) × Issuer × G)
    → (Wallet R → Issuer → G → Option T)
    → Option T
expect none rest = none
expect (some (err error, issuer, rng)) rest = none
expect (some (ok device, issuer, rng)) rest = rest device issuer rng

-- `seed ^ (index as u64 + 1) << 32`: the shift binds tighter, and drops what leaves 64 bits
abbrev pub device_seed : ℕ → ℕ → ℕ
device_seed seed index = bit_xor seed ((index + 1) * 2 ^ 32 % 2 ^ 64)

-- the two `push` calls
abbrev pub pushed : {S : Type 0} → World S → AccountId → Wallet S → Issuer → World S
pushed w account device issuer = record {
  issuer = issuer;
  accounts = w.accounts ++ (account ∷ []);
  devices = w.devices ++ (device ∷ []);
}

module _ {S : Type 0} ⦃x : Crates⦄ ⦃y : KeyCrates⦄ ⦃q : Rng S⦄ ⦃b : BigRng S⦄ ⦃s : SeedableRng S⦄
    (fuel tries : ℕ) (cfg : Config) (seed : ℕ) where
  abbrev pub drawn_account : S → AccountId
  drawn_account rng = record { bytes = (q.gen_bytes16 rng).0 }

  -- the account opened, and its device
  abbrev pub enrol_next : ℕ → ℕ → World S → S → Option (Result (Wallet S) × Issuer × S)
  enrol_next index balance w rng =
      Protocol.enrol fuel tries (Issuer.open_account (drawn_account rng) balance w.issuer)
        (drawn_account rng) cfg.limit cfg.key_bits (s.seed_from_u64 (device_seed seed index))
        (q.gen_bytes16 rng).1

  -- the loop over the balances, from an index on; `none` is a panic, of `expect` too
  unfoldable pub open_devices : ℕ → List ℕ → World S → S → Option (World S)
  open_devices index [] w rng = some w
  open_devices index (balance ∷ balances) w rng =
      expect (enrol_next index balance w rng) (λ device issuer rng'.
        open_devices (suc index) balances (pushed w (drawn_account rng) device issuer) rng')

  unfoldable pub world : List ℕ → Option (World S)
  world balances =
      open_devices 0 balances
        (record { issuer = Issuer.new cfg.issuer_key; accounts = []; devices = [] })
        (s.seed_from_u64 seed)

-- the balance that each account is opened with
abbrev pub opening : Config → ℕ
opening cfg = 3 * cfg.limit % 2 ^ 64 / 2

-- `run_fuzz`, without what it prints
unfoldable pub fuzz :
    {S : Type 0} ⦃x : Crates⦄ ⦃y : KeyCrates⦄ ⦃q : Rng S⦄ ⦃b : BigRng S⦄ ⦃r : RangeRng S⦄
    ⦃s : SeedableRng S⦄
    → ℕ
    → ℕ
    → Config
    → StdResult Failure (World S)
fuzz ⦃s⦄ fuel tries cfg =
    elim (world fuel tries cfg (bit_xor cfg.seed 0xf022) (replicate cfg.devices (opening cfg))) [
      | none ↦ err panicked
      | some w ↦
          run_fuzz cfg.ops cfg.devices cfg.limit (opening cfg * cfg.devices) w
            (s.seed_from_u64 (bit_xor cfg.seed 0x5eed))
    ]
