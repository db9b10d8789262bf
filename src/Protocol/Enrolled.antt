-- ===== src/Protocol/Enrolled.antt =====
-- A wallet and the issuer that certified it, as they meet in `fund` and `defund` of src/lib.rs.
use digital_euro_wallet.Prelude.{ℕ, ◌≤◌, ◌≡◌, some, none, list_eq, nat_eq, pair_eq}
use digital_euro_wallet.HashMap
use digital_euro_wallet.Crates.{Crates, Rng}
use digital_euro_wallet.Id.{account_eq, device_eq}
use digital_euro_wallet.Signature.RoundTrip.{IsKeypair}
use digital_euro_wallet.Wallet
use digital_euro_wallet.Wallet.{Wallet}
use digital_euro_wallet.Wallet.Accounting.{IsWellFormed}
use digital_euro_wallet.Wallet.Genuine.{IsGenuine}
use digital_euro_wallet.Wallet.Request.{next_nonce}
use digital_euro_wallet.Issuer.{Issuer, DeviceRecord}

-- A genuine wallet, within its limit, whose device the issuer knows under the entry and the account
-- balance given.
module _ {R : Type 0} ⦃x : Crates⦄ where
  pub record IsEnrolled (w : Wallet R) (i : Issuer) (entry : DeviceRecord) (balance : ℕ)
      : Type 0 where
    pub genuine : IsGenuine w
    pub formed : IsWellFormed w
    pub issuer_key : w.issuer ≡ i.keypair.public
    pub issuer_keypair : IsKeypair i.keypair
    pub known : HashMap.get (Wallet.device w) i.devices ≡ some entry
    pub same_key : entry.public_key ≡ w.certificate.public_key
    pub behind : entry.last_defunding_counter ≤ w.counter
    pub account_open : HashMap.get entry.account i.accounts ≡ some balance

module _ {R : Type 0} ⦃g : Rng R⦄ where
  -- The nonce drawn next was used for no funding, by the wallet or at the issuer.
  pub record IsFreshFunding (w : Wallet R) (i : Issuer) : Type 0 where
    pub not_pending : HashMap.get (next_nonce w) w.pending_funding ≡ none
    pub not_credited : HashMap.get (next_nonce w) w.credited ≡ none
    pub not_used : HashMap.get (Wallet.device w, next_nonce w) i.funding_nonces ≡ none
