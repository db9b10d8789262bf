-- ===== src/Message/Defunding.antt =====
-- `Defunding` of src/message.rs.
use digital_euro_wallet.Prelude.{ℕ, [], ◌∷◌, Bytes, to_be_bytes}
use digital_euro_wallet.Crates.{Crates, BigUint}
use digital_euro_wallet.Hash.{tagged}
use digital_euro_wallet.Id.{DeviceId}

pub record Defunding : Type 0 where
  pub device : DeviceId
  pub amount_cents : ℕ
  pub counter : ℕ
  pub signature : BigUint

module _ ⦃x : Crates⦄ where
  unfoldable pub digest : Defunding → Bytes
  digest m =
      tagged "euro/defunding"
        (m.device.bytes ∷ to_be_bytes 8 m.amount_cents ∷ to_be_bytes 8 m.counter ∷ [])
