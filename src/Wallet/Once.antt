-- ===== src/Wallet/Once.antt =====
-- A nonce is credited at most once, whether a transfer or a funding carries it.
use digital_euro_wallet.Prelude.{
  ℕ, ◌≡◌, ◌≢◌, some, List, [], ◌∷◌, Bytes, arith, ok, list_eq, nat_eq,
}
use digital_euro_wallet.HashMap
use digital_euro_wallet.HashMap.Laws.{get-insert, get-insert_self}
use digital_euro_wallet.Crates.{Crates, Rng}
use digital_euro_wallet.Error.{Result}
use digital_euro_wallet.Message.Transfer.{Transfer}
use digital_euro_wallet.Message.Funding.{Funding}
use digital_euro_wallet.Wallet
use digital_euro_wallet.Wallet.{Wallet}
use digital_euro_wallet.Wallet.History.{
  Call, request_payment, request_funding, defund, cancel_request, cancel_funding, receive,
  apply_funding, pay, crack_secure_element, step, run,
}

-- The two kinds of message that a wallet credits.
pub data Credit : Type 0 where
  transfer : Transfer → Credit
  funding : Funding → Credit

abbrev pub nonce_of : Credit → Bytes
nonce_of (transfer t) = t.nonce
nonce_of (funding f) = f.nonce

module _ {R : Type 0} ⦃x : Crates⦄ where
  abbrev pub accept : Credit → Wallet R → Result ℕ × Wallet R
  accept (transfer t) w = Wallet.receive t w
  accept (funding f) w = Wallet.apply_funding f w

  accept-credited :
      (m : Credit) (w w' : Wallet R) (amount_cents : ℕ)
      → accept m w ≡ (ok amount_cents, w')
      → HashMap.get (nonce_of m) w'.credited ≡ some tt
  unfolding Wallet.receive Wallet.apply_funding
  accept-credited (transfer t) w w' a e = ground (arith, get-insert_self t.nonce tt w.credited)
  accept-credited (funding f) w w' a e = ground (arith, get-insert_self f.nonce tt w.credited)

  -- what a message with a credited nonce meets
  abbrev pub IsRefused : Credit → Wallet R → Type 0
  IsRefused m w = ((amount_cents : ℕ) → (accept m w).0 ≢ ok amount_cents) × ((accept m w).1 ≡ w)

  accept-IsRefused :
      (m : Credit) (w : Wallet R) → HashMap.get (nonce_of m) w.credited ≡ some tt → IsRefused m w
  unfolding Wallet.receive Wallet.apply_funding
  accept-IsRefused (transfer t) w h = ((λ a e. ground arith), ground arith)
  accept-IsRefused (funding f) w h = ((λ a e. ground arith), ground arith)

module _ {R : Type 0} ⦃x : Crates⦄ ⦃g : Rng R⦄ where
  -- A credited nonce stays credited.
  step-credited :
      (c : Call) (nonce : Bytes) (w : Wallet R)
      → HashMap.get nonce w.credited ≡ some tt
      → HashMap.get nonce (step c w).credited ≡ some tt
  unfolding step Wallet.request_payment Wallet.request_funding Wallet.defund Wallet.receive
      Wallet.apply_funding Wallet.pay Wallet.cancel_request Wallet.cancel_funding
      Wallet.crack_secure_element
  step-credited (request_payment a) nonce w h = ground arith
  step-credited (request_funding a) nonce w h = ground arith
  step-credited (defund a) nonce w h = ground arith
  step-credited (receive t) nonce w h = ground (arith, get-insert t.nonce nonce tt w.credited)
  step-credited (apply_funding f) nonce w h = ground (arith, get-insert f.nonce nonce tt w.credited)
  step-credited (pay r) nonce w h = ground arith
  step-credited (cancel_request n) nonce w h = ground arith
  step-credited (cancel_funding n) nonce w h = ground arith
  step-credited crack_secure_element nonce w h = ground arith

  pub run-credited :
      (cs : List Call) (nonce : Bytes) (w : Wallet R)
      → HashMap.get nonce w.credited ≡ some tt
      → HashMap.get nonce (run cs w).credited ≡ some tt
  unfolding run
  run-credited [] nonce w h = h
  run-credited (c ∷ cs) nonce w h = run-credited cs nonce (step c w) (step-credited c nonce w h)

  -- Once a transfer or a funding has been credited, then after any further calls no transfer and no
  -- funding with its nonce is credited: it is refused, and the wallet stays as it is.
  pub credited_once :
      (m m' : Credit) (w w' : Wallet R) (amount_cents : ℕ) (cs : List Call)
      → accept m w ≡ (ok amount_cents, w')
      → nonce_of m' ≡ nonce_of m
      → IsRefused m' (run cs w')
  credited_once m m' w w' amount_cents cs e same =
      accept-IsRefused m' (run cs w')
        (rw same (run-credited cs (nonce_of m) w' (accept-credited m w w' amount_cents e)))
