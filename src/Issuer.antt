-- ===== src/Issuer.antt =====
-- src/issuer.rs: accounts, certification, funding, defunding, and the offline float.
pub mod Grants
pub mod Redemptions
pub mod History
pub mod GrantedOnce
pub mod CashedOnce
pub mod Books
use digital_euro_wallet.Prelude.{
  ℕ, ◌-◌, Bool, not, Option, none, some, Bytes, PartialEq, ◌==◌, nat_eq, list_eq, pair_eq, ltb, leb,
  if◌then◌else◌, ok, err, pure, gets, or_raise, raise_if, modify, lift, ◌>>=◌, ◌>>◌, add_u64,
}
use digital_euro_wallet.Prelude.Int.{ℤ, pos, add_i128, sub_i128}
use digital_euro_wallet.HashMap
use digital_euro_wallet.HashMap.{HashMap, HashSet}
use digital_euro_wallet.Crates.{Crates, Rng}
use digital_euro_wallet.Id.{AccountId, DeviceId, account_eq, device_eq}
use digital_euro_wallet.Error.{
  Result, Action, invalid_signature, zero_amount, insufficient_funds, replay, unknown_account,
  unknown_device,
}
use digital_euro_wallet.Signature
use digital_euro_wallet.Signature.{PublicKey, Keypair}
use digital_euro_wallet.Certificate
use digital_euro_wallet.Certificate.{DeviceCertificate}
use digital_euro_wallet.Message.FundingRequest
use digital_euro_wallet.Message.FundingRequest.{FundingRequest}
use digital_euro_wallet.Message.Funding
use digital_euro_wallet.Message.Funding.{Funding}
use digital_euro_wallet.Message.Defunding
use digital_euro_wallet.Message.Defunding.{Defunding}

pub record DeviceRecord : Type 0 where
  pub account : AccountId
  pub public_key : PublicKey
  pub last_defunding_counter : ℕ

pub record Issuer : Type 0 where
  pub keypair : Keypair
  pub accounts : HashMap AccountId ℕ
  pub devices : HashMap DeviceId DeviceRecord
  pub funding_nonces : HashSet (DeviceId × Bytes)
  pub offline_float : ℤ

unfoldable pub new : Keypair → Issuer
new keypair = record {
  keypair = keypair;
  accounts = HashMap.new;
  devices = HashMap.new;
  funding_nonces = HashMap.new;
  offline_float = pos 0;
}

abbrev pub public_key : Issuer → PublicKey
public_key i = i.keypair.public

-- An account that is there already gets the new balance.
unfoldable pub open_account : AccountId → ℕ → Issuer → Issuer
open_account account balance_cents i = record i {
  accounts = HashMap.insert account balance_cents i.accounts;
}

unfoldable pub balance_of : AccountId → Issuer → Option ℕ
balance_of account i = HashMap.get account i.accounts

abbrev account_in : Option DeviceRecord → Option AccountId
account_in none = none
account_in (some record_of) = some record_of.account

unfoldable pub account_of : DeviceId → Issuer → Option AccountId
account_of device i = account_in (HashMap.get device i.devices)

-- `get(device).ok_or(UnknownDevice)`
abbrev pub device_record : DeviceId → Action Issuer DeviceRecord
device_record device i = or_raise (HashMap.get device i.devices) (unknown_device device) i

module _ {G : Type 0} ⦃x : Crates⦄ ⦃g : Rng G⦄ where
  -- The generator is state too; it is drawn from only for a known account.
  unfoldable pub certify_device : AccountId → PublicKey → ℕ → Action (Issuer × G) DeviceCertificate
  certify_device account key holding_limit_cents = do
    (i, rng) ← gets (λ s. s)
    raise_if (not (HashMap.contains account i.accounts)) (unknown_account account)
    let drawn : Bytes × G = g.gen_bytes16 rng
    let device : DeviceId = record { bytes = drawn.0 }
    let unsigned : DeviceCertificate = record {
      device = device;
      public_key = key;
      holding_limit_cents = holding_limit_cents;
      signature = 0;
    }
    let certificate : DeviceCertificate = record unsigned {
      signature = Signature.sign i.keypair (Certificate.digest unsigned);
    }
    let entry : DeviceRecord = record {
      account = account;
      public_key = key;
      last_defunding_counter = 0;
    }
    modify (λ s. (record i { devices = HashMap.insert device entry i.devices }, drawn.1))
    pure certificate

module _ ⦃x : Crates⦄ where
  unfoldable pub fund : FundingRequest → Action Issuer Funding
  fund request = do
    entry ← device_record request.device
    raise_if
        (not (Signature.verify entry.public_key (FundingRequest.digest request) request.signature))
        invalid_signature
    raise_if (request.amount_cents == 0) zero_amount
    i ← gets (λ i. i)
    raise_if (HashMap.contains (request.device, request.nonce) i.funding_nonces) replay
    balance ← or_raise (HashMap.get entry.account i.accounts) (unknown_account entry.account)
    raise_if (ltb balance request.amount_cents) (insufficient_funds request.amount_cents balance)
    modify (λ i. record i {
      accounts = HashMap.insert entry.account (balance - request.amount_cents) i.accounts;
    })
    modify (λ i. record i { offline_float = add_i128 i.offline_float (pos request.amount_cents) })
    modify (λ i. record i {
      funding_nonces = HashMap.insert (request.device, request.nonce) tt i.funding_nonces;
    })
    let unsigned : Funding = record {
      device = request.device;
      amount_cents = request.amount_cents;
      nonce = request.nonce;
      signature = 0;
    }
    pure (record unsigned { signature = Signature.sign i.keypair (Funding.digest unsigned) })

  -- `if let Some(record) = self.devices.get_mut(device)`
  abbrev pub set_counter :
      DeviceId → ℕ → HashMap DeviceId DeviceRecord → HashMap DeviceId DeviceRecord
  set_counter device counter devices = elim (HashMap.get device devices) [
    | none ↦ devices
    | some entry ↦ HashMap.insert device (record entry { last_defunding_counter = counter }) devices
  ]

  unfoldable pub defund : Defunding → Action Issuer ℕ
  defund defunding = do
    entry ← device_record defunding.device
    raise_if
        (not (Signature.verify entry.public_key (Defunding.digest defunding) defunding.signature))
        invalid_signature
    raise_if (leb defunding.counter entry.last_defunding_counter) replay
    i ← gets (λ i. i)
    balance ← or_raise (HashMap.get entry.account i.accounts) (unknown_account entry.account)
    modify (λ i. record i {
      accounts = HashMap.insert entry.account (add_u64 balance defunding.amount_cents) i.accounts;
    })
    modify (λ i. record i { offline_float = sub_i128 i.offline_float (pos defunding.amount_cents) })
    modify (λ i. record i { devices = set_counter defunding.device defunding.counter i.devices })
    pure defunding.amount_cents
