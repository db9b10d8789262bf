-- ===== src/Wallet/History.antt =====
-- A wallet under any sequence of calls: the methods as data, and what holds after any history.
use digital_euro_wallet.Prelude.{ℕ, ◌+◌, ◌<◌, ◌≡◌, List, [], ◌∷◌, Bytes, arith, u64_modulus, ok}
use digital_euro_wallet.Crates.{Crates, Rng}
use digital_euro_wallet.Certificate.{DeviceCertificate}
use digital_euro_wallet.Signature.{Keypair, PublicKey}
use digital_euro_wallet.Message.{PaymentRequest}
use digital_euro_wallet.Message.Transfer.{Transfer}
use digital_euro_wallet.Message.Funding.{Funding}
use digital_euro_wallet.Wallet
use digital_euro_wallet.Wallet.{Wallet}
use digital_euro_wallet.Wallet.Accounting.{IsWellFormed, headroom-exact}
use digital_euro_wallet.Wallet.Invariant.{
  receive-IsWellFormed, apply_funding-IsWellFormed, pay-IsWellFormed, defund-IsWellFormed,
  cancel_request-IsWellFormed, cancel_funding-IsWellFormed, crack_secure_element-IsWellFormed,
  request_payment-IsWellFormed, request_funding-IsWellFormed,
}

pub data Call : Type 0 where
  request_payment request_funding defund : ℕ → Call
  cancel_request cancel_funding : Bytes → Call
  receive : Transfer → Call
  apply_funding : Funding → Call
  pay : PaymentRequest → Call
  crack_secure_element : Call

module _ {R : Type 0} ⦃x : Crates⦄ ⦃g : Rng R⦄ where
  -- the wallet after a call, whether it was refused or not
  unfoldable pub step : Call → Wallet R → Wallet R
  step (request_payment a) w = (Wallet.request_payment a w).1
  step (request_funding a) w = (Wallet.request_funding a w).1
  step (defund a) w = (Wallet.defund a w).1
  step (cancel_request nonce) w = (Wallet.cancel_request nonce w).1
  step (cancel_funding nonce) w = (Wallet.cancel_funding nonce w).1
  step (receive t) w = (Wallet.receive t w).1
  step (apply_funding f) w = (Wallet.apply_funding f w).1
  step (pay r) w = (Wallet.pay r w).1
  step crack_secure_element w = Wallet.crack_secure_element w

  unfoldable pub run : List Call → Wallet R → Wallet R
  run [] w = w
  run (c ∷ cs) w = run cs (step c w)

  pub step-IsWellFormed : (c : Call) (w : Wallet R) → IsWellFormed w → IsWellFormed (step c w)
  unfolding step
  step-IsWellFormed (request_payment a) w h = request_payment-IsWellFormed w h a
  step-IsWellFormed (request_funding a) w h = request_funding-IsWellFormed w h a
  step-IsWellFormed (defund a) w h = defund-IsWellFormed w h a
  step-IsWellFormed (cancel_request nonce) w h = cancel_request-IsWellFormed w h nonce
  step-IsWellFormed (cancel_funding nonce) w h = cancel_funding-IsWellFormed w h nonce
  step-IsWellFormed (receive t) w h = receive-IsWellFormed w h t
  step-IsWellFormed (apply_funding f) w h = apply_funding-IsWellFormed w h f
  step-IsWellFormed (pay r) w h = pay-IsWellFormed w h r
  step-IsWellFormed crack_secure_element w h = crack_secure_element-IsWellFormed w h

  pub run-IsWellFormed : (cs : List Call) (w : Wallet R) → IsWellFormed w → IsWellFormed (run cs w)
  unfolding run
  run-IsWellFormed [] w h = h
  run-IsWellFormed (c ∷ cs) w h = run-IsWellFormed cs (step c w) (step-IsWellFormed c w h)

  pub new-IsWellFormed :
      (c : DeviceCertificate) (k : Keypair) (i : PublicKey) (rng : R) (w : Wallet R)
      → c.holding_limit_cents < u64_modulus
      → Wallet.new c k i rng ≡ ok w
      → IsWellFormed w
  unfolding Wallet.new
  new-IsWellFormed c k i rng w fits e = ground arith

  -- A wallet made by `new` under a holding limit that is a `u64`, after any sequence of calls,
  -- refused ones and a cracked element included: what it holds, what `reserved` promises and what
  -- `headroom` offers add up to exactly its holding limit.
  pub run-within_limit :
      (c : DeviceCertificate) (k : Keypair) (i : PublicKey) (rng : R) (w : Wallet R)
      → c.holding_limit_cents < u64_modulus
      → Wallet.new c k i rng ≡ ok w
      → (cs : List Call)
      → let w' = run cs w in
        Wallet.balance w' + Wallet.reserved w' + Wallet.headroom w' ≡ Wallet.holding_limit w'
  run-within_limit c k i rng w fits e cs =
      headroom-exact (run cs w) (run-IsWellFormed cs w (new-IsWellFormed c k i rng w fits e))
