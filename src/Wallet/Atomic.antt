-- ===== src/Wallet/Atomic.antt =====
-- A refused call leaves the wallet as it was.
use digital_euro_wallet.Prelude.{◌≡◌, Option, none, some, arith, ok, err}
use digital_euro_wallet.Crates.{Crates, Rng}
use digital_euro_wallet.Error.{Error, Result}
use digital_euro_wallet.Wallet
use digital_euro_wallet.Wallet.{Wallet}
use digital_euro_wallet.Wallet.History.{
  Call, request_payment, request_funding, defund, cancel_request, cancel_funding, receive,
  apply_funding, pay, crack_secure_element, step,
}

abbrev error_of : {A : Type 0} → Result A → Option Error
error_of (ok a) = none
error_of (err e) = some e

module _ {R : Type 0} ⦃x : Crates⦄ ⦃g : Rng R⦄ where
  -- the error that a call ends with; the calls that return no `Result` have none
  unfoldable pub refusal : Call → Wallet R → Option Error
  refusal (request_payment a) w = error_of (Wallet.request_payment a w).0
  refusal (request_funding a) w = error_of (Wallet.request_funding a w).0
  refusal (defund a) w = error_of (Wallet.defund a w).0
  refusal (receive t) w = error_of (Wallet.receive t w).0
  refusal (apply_funding f) w = error_of (Wallet.apply_funding f w).0
  refusal (pay r) w = error_of (Wallet.pay r w).0
  refusal (cancel_request nonce) w = none
  refusal (cancel_funding nonce) w = none
  refusal crack_secure_element w = none

  -- Whatever the method and the error, a call that ends with an error has changed nothing: no
  -- balance, no reservation, no nonce, no counter, and no draw from the generator.
  pub refused-unchanged :
      (c : Call) (w : Wallet R) (error : Error) → refusal c w ≡ some error → step c w ≡ w
  unfolding refusal step Wallet.request_payment Wallet.request_funding Wallet.defund Wallet.receive
      Wallet.apply_funding Wallet.pay
  refused-unchanged (request_payment a) w error h = ground arith
  refused-unchanged (request_funding a) w error h = ground arith
  refused-unchanged (defund a) w error h = ground arith
  refused-unchanged (receive t) w error h = ground arith
  refused-unchanged (apply_funding f) w error h = ground arith
  refused-unchanged (pay r) w error h = ground arith
  refused-unchanged (cancel_request nonce) w error h = ground arith
  refused-unchanged (cancel_funding nonce) w error h = ground arith
  refused-unchanged crack_secure_element w error h = ground arith
