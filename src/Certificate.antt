-- ===== src/Certificate.antt =====
-- src/certificate.rs: what the issuer states of a device's key.
use digital_euro_wallet.Prelude.{ℕ, Bool, [], ◌∷◌, Bytes, to_be_bytes}
use digital_euro_wallet.Crates.{Crates, BigUint}
use digital_euro_wallet.Hash.{tagged}
use digital_euro_wallet.Id.{DeviceId}
use digital_euro_wallet.Signature
use digital_euro_wallet.Signature.{PublicKey}

pub record DeviceCertificate : Type 0 where
  pub device : DeviceId
  pub public_key : PublicKey
  pub holding_limit_cents : ℕ
  pub signature : BigUint

module _ ⦃x : Crates⦄ where
  unfoldable pub digest : DeviceCertificate → Bytes
  digest c = tagged "euro/device-certificate" (
      c.device.bytes
      ∷ x.to_bytes_be c.public_key.n
      ∷ x.to_bytes_be c.public_key.e
      ∷ to_be_bytes 8 c.holding_limit_cents
      ∷ [])

  unfoldable pub verify : DeviceCertificate → PublicKey → Bool
  verify c issuer = Signature.verify issuer (digest c) c.signature
