-- ===== src/Message/Transfer.antt =====
-- `Transfer` of src/message.rs.
use digital_euro_wallet.Prelude.{ℕ, [], ◌∷◌, Bytes, to_be_bytes}
use digital_euro_wallet.Crates.{Crates, BigUint}
use digital_euro_wallet.Hash.{tagged}
use digital_euro_wallet.Id.{DeviceId}
use digital_euro_wallet.Certificate.{DeviceCertificate}

pub record Transfer : Type 0 where
  pub payer : DeviceCertificate
  pub payee : DeviceId
  pub amount_cents : ℕ
  pub nonce : Bytes
  pub counter : ℕ
  pub signature : BigUint

module _ ⦃x : Crates⦄ where
  unfoldable pub digest : Transfer → Bytes
  digest t = tagged "euro/transfer" (
      t.payer.device.bytes
      ∷ t.payee.bytes
      ∷ to_be_bytes 8 t.amount_cents
      ∷ t.nonce
      ∷ to_be_bytes 8 t.counter
      ∷ [])
