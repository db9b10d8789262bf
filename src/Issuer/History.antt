-- ===== src/Issuer/History.antt =====
-- The issuer under any sequence of calls: its methods as data.
use digital_euro_wallet.Prelude.{ℕ, List, [], ◌∷◌}
use digital_euro_wallet.Crates.{Crates, Rng}
use digital_euro_wallet.Id.{AccountId}
use digital_euro_wallet.Signature.{PublicKey}
use digital_euro_wallet.Message.FundingRequest.{FundingRequest}
use digital_euro_wallet.Message.Defunding.{Defunding}
use digital_euro_wallet.Issuer
use digital_euro_wallet.Issuer.{Issuer}

pub data Call : Type 0 where
  open_account : AccountId → ℕ → Call
  certify_device : AccountId → PublicKey → ℕ → Call
  fund : FundingRequest → Call
  defund : Defunding → Call

module _ {G : Type 0} ⦃x : Crates⦄ ⦃g : Rng G⦄ where
  -- the issuer and its caller's generator after a call, refused or not
  unfoldable pub step : Call → Issuer × G → Issuer × G
  step (open_account account balance) (i, rng) = (Issuer.open_account account balance i, rng)
  step (certify_device account key limit) s = (Issuer.certify_device account key limit s).1
  step (fund request) (i, rng) = ((Issuer.fund request i).1, rng)
  step (defund order) (i, rng) = ((Issuer.defund order i).1, rng)

  unfoldable pub run : List Call → Issuer × G → Issuer × G
  run [] s = s
  run (c ∷ cs) s = run cs (step c s)
