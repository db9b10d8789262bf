-- ===== src/Harness/Turns.antt =====
-- The loop of src/main.rs that opens the devices, turn by turn.
use digital_euro_wallet.Prelude.{
  some-injective, ℕ, suc, ◌≡◌, refl, List, [], ◌∷◌, Option, none, some, Option-cases, inl, inr, ok,
  err, arith, length, get_elem?, get_elem?-append, get_elem?-append_last, get_elem?-lt, ◌≢◌,
}
use digital_euro_wallet.Crates.{Crates, KeyCrates, Rng, BigRng, SeedableRng}
use digital_euro_wallet.Error.{Result}
use digital_euro_wallet.Id.{AccountId, account_eq}
use digital_euro_wallet.Signature.{Keypair}
use digital_euro_wallet.Signature.Generation.{generate}
use digital_euro_wallet.Wallet.{Wallet}
use digital_euro_wallet.Issuer.{Issuer}
use digital_euro_wallet.Protocol
use digital_euro_wallet.Harness.{World}
use digital_euro_wallet.Harness.Opening.{
  Config, expect, pushed, drawn_account, enrol_next, open_devices,
}
use digital_euro_wallet.Harness.Grown.{IsWellDrawn}

-- An enrolment that `expect` let pass.
pub expect-some :
    {R G T : Type 0} (o : Option (Result (Wallet R) × Issuer × G))
    (rest : Wallet R → Issuer → G → Option T) (t : T)
    → expect o rest ≡ some t
    → (d : Wallet R) × (i : Issuer) × (g : G) × (o ≡ some (ok d, i, g)) × (rest d i g ≡ some t)
expect-some none rest t h = ground arith
expect-some (some (err e, i, g)) rest t h = ground arith
expect-some (some (ok d, i, g)) rest t h = (d, i, g, refl, h)

-- The world pushed to depends on the wallet and the issuer that an enrolment returns.
pub pushed-eq :
    {S : Type 0} (w : World S) (account : AccountId) (d d' : Wallet S) (i i' : Issuer) (g g' : S)
    → Path (Result (Wallet S) × Issuer × S) (ok d, i, g) (ok d', i', g')
    → pushed w account d i ≡ pushed w account d' i'
pushed-eq w account d d' i i' g g' e = ground (arith, e)

-- The lists of a world are the first part of those of another.
pub record Extends {S : Type 0} (w w' : World S) : Type 0 where
  pub accounts :
      (a : ℕ) (account : AccountId)
      → get_elem? w.accounts a ≡ some account
      → get_elem? w'.accounts a ≡ some account
  pub devices :
      (a : ℕ) (d : Wallet S) → get_elem? w.devices a ≡ some d → get_elem? w'.devices a ≡ some d

pub Extends-distinct :
    {S : Type 0} ⦃q : Rng S⦄ {k : ℕ} {w w' : World S}
    → Extends w w'
    → IsWellDrawn k w'
    → IsWellDrawn k w
Extends-distinct e h = record {
  device_once = λ a b d f ha hb. h.device_once a b d f (e.devices a d ha) (e.devices b f hb);
  account_once = λ a b c ha hb. h.account_once a b c (e.accounts a c ha) (e.accounts b c hb);
  nonces_once = λ a d j l ha. h.nonces_once a d j l (e.devices a d ha);
}

pub pushed-Extends :
    {S : Type 0} (w : World S) (account : AccountId) (d : Wallet S) (i : Issuer)
    → Extends w (pushed w account d i)
pushed-Extends w account d i = record {
  accounts = λ a c. get_elem?-append w.accounts (account ∷ []) a c;
  devices = λ a c. get_elem?-append w.devices (d ∷ []) a c;
}

-- An account that was pushed to a well-drawn world was not in the list before.
pub last-unlisted :
    {S : Type 0} ⦃q : Rng S⦄ {k : ℕ} (w : World S) (account : AccountId) (d : Wallet S) (i : Issuer)
    → IsWellDrawn k (pushed w account d i)
    → (a : ℕ) → get_elem? w.accounts a ≢ some account
last-unlisted w account d i distinct a at =
    let same =
      distinct.account_once a (length w.accounts) account
        (get_elem?-append w.accounts (account ∷ []) a account at)
        (get_elem?-append_last w.accounts account) in
    omega (arith, get_elem?-lt w.accounts a account at, same)

-- An enrolment that succeeds has generated a key and installed it.
pub enrol-installs :
    {S : Type 0} ⦃x : Crates⦄ ⦃y : KeyCrates⦄ ⦃q : Rng S⦄ ⦃b : BigRng S⦄
    (fuel tries limit key_bits : ℕ) (i i' : Issuer) (account : AccountId) (device_rng rng rng' : S)
    (d : Wallet S)
    → Protocol.enrol fuel tries i account limit key_bits device_rng rng ≡ some (ok d, i', rng')
    → (key : Keypair) × (rng_k : S) × (generate fuel tries key_bits rng ≡ some (key, rng_k))
      × (Protocol.install key i account limit device_rng rng_k ≡ (ok d, i', rng'))
unfolding Protocol.enrol
enrol-installs fuel tries limit key_bits i i' account device_rng rng rng' d h =
    elim (Option-cases (generate fuel tries key_bits rng)) [
      | inl e ↦ absurd (ground (arith, e, h))
      | inr ((key, rng_k), e) ↦ (key, rng_k, e, ground (arith, e, h))
    ]

-- An enrolment whose key is generated installs it.
pub generated-installs :
    {S : Type 0} ⦃x : Crates⦄ ⦃y : KeyCrates⦄ ⦃q : Rng S⦄ ⦃b : BigRng S⦄
    (fuel tries limit key_bits : ℕ) (i : Issuer) (account : AccountId) (device_rng rng rng_k : S)
    (key : Keypair)
    → generate fuel tries key_bits rng ≡ some (key, rng_k)
    → Protocol.enrol fuel tries i account limit key_bits device_rng rng
      ≡ some (Protocol.install key i account limit device_rng rng_k)
unfolding Protocol.enrol
generated-installs fuel tries limit key_bits i account device_rng rng rng_k key made =
    ground (arith, made)

module _ {S : Type 0} ⦃x : Crates⦄ ⦃y : KeyCrates⦄ ⦃q : Rng S⦄ ⦃b : BigRng S⦄ ⦃s : SeedableRng S⦄
    (fuel tries : ℕ) (cfg : Config) (seed : ℕ) where
  -- One turn of the loop that opens the devices.
  pub open_devices-turn :
      (index balance : ℕ) (balances : List ℕ) (w w' : World S) (rng : S)
      → open_devices fuel tries cfg seed index (balance ∷ balances) w rng ≡ some w'
      → (d : Wallet S) × (i : Issuer) × (g : S) × (enrol_next fuel tries cfg seed index balance w
            rng
          ≡ some (ok d, i, g))
        × (open_devices fuel tries cfg seed
              (suc index)
              balances
              (pushed w (drawn_account fuel tries cfg seed rng) d i)
              g
            ≡ some w')
  unfolding open_devices
  open_devices-turn index balance balances w w' rng h =
      expect-some (enrol_next fuel tries cfg seed index balance w rng)
        (λ d i g.
          open_devices fuel tries cfg seed (suc index) balances
            (pushed w (drawn_account fuel tries cfg seed rng) d i) g)
        w' h

  pub open_devices-Extends :
      (index : ℕ) (balances : List ℕ) (w w' : World S) (rng : S)
      → open_devices fuel tries cfg seed index balances w rng ≡ some w'
      → Extends w w'
  open_devices-Extends index [] w w' rng h =
      let e : w ≡ w' = unfold open_devices in some-injective h in
      record { accounts = λ a c ha. rw (← e) ha; devices = λ a c ha. rw (← e) ha }
  open_devices-Extends index (balance ∷ balances) w w' rng h =
      let (d, i, g, _, rest) = open_devices-turn index balance balances w w' rng h in
      let account = drawn_account fuel tries cfg seed rng in
      let later = open_devices-Extends (suc index) balances (pushed w account d i) w' g rest in
      record {
        accounts = λ a c ha. later.accounts a c (get_elem?-append w.accounts (account ∷ []) a c ha);
        devices = λ a c ha. later.devices a c (get_elem?-append w.devices (d ∷ []) a c ha);
      }
