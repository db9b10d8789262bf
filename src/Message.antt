-- ===== src/Message.antt =====
-- src/message.rs: the messages. Each signed one is a module, with the digest that is signed.
pub mod Transfer
pub mod FundingRequest
pub mod Funding
pub mod Defunding
pub mod Binding
use digital_euro_wallet.Prelude.{ℕ, Bytes}
use digital_euro_wallet.Certificate.{DeviceCertificate}

pub record PaymentRequest : Type 0 where
  pub payee : DeviceCertificate
  pub amount_cents : ℕ
  pub nonce : Bytes
