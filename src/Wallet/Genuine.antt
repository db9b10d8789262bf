-- ===== src/Wallet/Genuine.antt =====
-- A genuine wallet: a certificate of its issuer for its own key. What such a wallet signs verifies.
use digital_euro_wallet.Prelude.{
  ℕ, ◌≡◌, refl, ◌∙◌, ◌≢◌, true, false, List, [], ◌∷◌, arith, ok, err, ◌==◌, add_u64, ◌≤◌, ◌<◌,
}
use digital_euro_wallet.Crates.{Crates, Rng, AreDocumented}
use digital_euro_wallet.Error.{self_payment, insufficient_funds}
use digital_euro_wallet.Id.{device_eq, device_same_iff}
use digital_euro_wallet.Signature
use digital_euro_wallet.Signature.{Keypair, PublicKey, key_same_iff}
use digital_euro_wallet.Signature.RoundTrip.{IsKeypair, verify-sign}
use digital_euro_wallet.Certificate
use digital_euro_wallet.Certificate.{DeviceCertificate}
use digital_euro_wallet.Message.{PaymentRequest}
use digital_euro_wallet.Message.Transfer
use digital_euro_wallet.Message.Transfer.{Transfer}
use digital_euro_wallet.Message.Defunding
use digital_euro_wallet.Message.Defunding.{Defunding}
use digital_euro_wallet.Wallet
use digital_euro_wallet.Wallet.{Wallet, balance_after}
use digital_euro_wallet.Wallet.History.{
  Call, request_payment, request_funding, defund, cancel_request, cancel_funding, receive,
  apply_funding, pay, crack_secure_element, step, run,
}

module _ {R : Type 0} ⦃x : Crates⦄ where
  pub record IsGenuine (w : Wallet R) : Type 0 where
    pub certified : Certificate.verify w.certificate w.issuer ≡ true
    pub own_key : w.certificate.public_key ≡ w.keypair.public
    pub keypair : IsKeypair w.keypair

  -- `Wallet::new` installs genuine certificates only.
  pub new-IsGenuine :
      (c : DeviceCertificate) (k : Keypair) (i : PublicKey) (rng : R) (w : Wallet R)
      → IsKeypair k
      → Wallet.new c k i rng ≡ ok w
      → IsGenuine w
  unfolding Wallet.new
  new-IsGenuine c k i rng w valid e = ground (arith, key_same_iff c.public_key k.public)

  -- the wallet after a debit
  abbrev pub debited : ℕ → Wallet R → Wallet R
  debited amount_cents w = record w {
    balance_cents = balance_after w.state w.balance_cents amount_cents;
    counter = add_u64 w.counter 1;
  }

  -- the transfer that answers a request, not yet signed
  abbrev pub unsigned_transfer : PaymentRequest → Wallet R → Transfer
  unsigned_transfer request w = record {
    payer = w.certificate;
    payee = request.payee.device;
    amount_cents = request.amount_cents;
    nonce = request.nonce;
    counter = add_u64 w.counter 1;
    signature = 0;
  }

  abbrev pub signed_transfer : PaymentRequest → Wallet R → Transfer
  signed_transfer request w =
      let t = unsigned_transfer request w in
      record t { signature = Signature.sign w.keypair (Transfer.digest t) }

  pub pay_granted :
      (request : PaymentRequest) (w : Wallet R)
      → Certificate.verify request.payee w.issuer ≡ true
      → request.payee.device ≢ Wallet.device w
      → 0 < request.amount_cents
      → request.amount_cents ≤ w.balance_cents
      → Wallet.pay request w ≡ (ok (signed_transfer request w), debited request.amount_cents w)
  unfolding Wallet.pay
  pay_granted request w c ne pos covered =
      ground (arith, device_same_iff request.payee.device (Wallet.device w))

  pub pay_self :
      (request : PaymentRequest) (w : Wallet R)
      → Certificate.verify request.payee w.issuer ≡ true
      → (request.payee.device == Wallet.device w) ≡ true
      → Wallet.pay request w ≡ (err self_payment, w)
  unfolding Wallet.pay
  pay_self request w c same = ground arith

  pub pay_short :
      (request : PaymentRequest) (w : Wallet R)
      → Certificate.verify request.payee w.issuer ≡ true
      → (request.payee.device == Wallet.device w) ≡ false
      → 0 < request.amount_cents
      → w.balance_cents < request.amount_cents
      → Wallet.pay request w ≡ (err (insufficient_funds request.amount_cents w.balance_cents), w)
  unfolding Wallet.pay
  pay_short request w c other pos short = ground arith

  -- The signature of a genuine payer's transfer verifies under the key of its certificate.
  pub signed_transfer-verifies :
      (request : PaymentRequest) (w : Wallet R)
      → AreDocumented x
      → IsGenuine w
      → let t = signed_transfer request w in
        Signature.verify t.payer.public_key (Transfer.digest t) t.signature ≡ true
  unfolding Transfer.digest
  signed_transfer-verifies request w doc h = rw h.own_key (verify-sign doc w.keypair _ h.keypair)

  abbrev pub unsigned_defunding : ℕ → Wallet R → Defunding
  unsigned_defunding amount_cents w = record {
    device = Wallet.device w;
    amount_cents = amount_cents;
    counter = add_u64 w.counter 1;
    signature = 0;
  }

  abbrev pub signed_defunding : ℕ → Wallet R → Defunding
  signed_defunding amount_cents w =
      let d = unsigned_defunding amount_cents w in
      record d { signature = Signature.sign w.keypair (Defunding.digest d) }

  pub defund_granted :
      (amount_cents : ℕ) (w : Wallet R)
      → 0 < amount_cents
      → amount_cents ≤ w.balance_cents
      → Wallet.defund amount_cents w
        ≡ (ok (signed_defunding amount_cents w), debited amount_cents w)
  unfolding Wallet.defund
  defund_granted amount_cents w pos covered = ground arith

  pub signed_defunding-verifies :
      (amount_cents : ℕ) (w : Wallet R)
      → AreDocumented x
      → IsGenuine w
      → let d = signed_defunding amount_cents w in
        Signature.verify w.certificate.public_key (Defunding.digest d) d.signature ≡ true
  unfolding Defunding.digest
  signed_defunding-verifies amount_cents w doc h =
      rw h.own_key (verify-sign doc w.keypair _ h.keypair)

module _ {R : Type 0} ⦃x : Crates⦄ ⦃g : Rng R⦄ where
  step-IsGenuine : (c : Call) (w : Wallet R) → IsGenuine w → IsGenuine (step c w)
  unfolding step Wallet.request_payment Wallet.request_funding Wallet.defund Wallet.receive
      Wallet.apply_funding Wallet.pay Wallet.cancel_request Wallet.cancel_funding
      Wallet.crack_secure_element
  step-IsGenuine (request_payment a) w h = ground arith
  step-IsGenuine (request_funding a) w h = ground arith
  step-IsGenuine (defund a) w h = ground arith
  step-IsGenuine (receive t) w h = ground arith
  step-IsGenuine (apply_funding f) w h = ground arith
  step-IsGenuine (pay r) w h = ground arith
  step-IsGenuine (cancel_request n) w h = ground arith
  step-IsGenuine (cancel_funding n) w h = ground arith
  step-IsGenuine crack_secure_element w h = ground arith

  -- No call changes the certificate, the key or the issuer.
  pub run-IsGenuine : (cs : List Call) (w : Wallet R) → IsGenuine w → IsGenuine (run cs w)
  unfolding run
  run-IsGenuine [] w h = h
  run-IsGenuine (c ∷ cs) w h = run-IsGenuine cs (step c w) (step-IsGenuine c w h)

  pub step-identity :
      (c : Call) (w : Wallet R)
      → ((step c w).certificate ≡ w.certificate) × ((step c w).issuer ≡ w.issuer)
  unfolding step Wallet.request_payment Wallet.request_funding Wallet.defund Wallet.receive
      Wallet.apply_funding Wallet.pay Wallet.cancel_request Wallet.cancel_funding
      Wallet.crack_secure_element
  step-identity (request_payment a) w = ground arith
  step-identity (request_funding a) w = ground arith
  step-identity (defund a) w = ground arith
  step-identity (receive t) w = ground arith
  step-identity (apply_funding f) w = ground arith
  step-identity (pay r) w = ground arith
  step-identity (cancel_request n) w = ground arith
  step-identity (cancel_funding n) w = ground arith
  step-identity crack_secure_element w = ground arith

  pub run-identity :
      (cs : List Call) (w : Wallet R)
      → ((run cs w).certificate ≡ w.certificate) × ((run cs w).issuer ≡ w.issuer)
  unfolding run
  run-identity [] w = (refl, refl)
  run-identity (c ∷ cs) w =
      let (certificate, issuer) = step-identity c w in
      let (certificate', issuer') = run-identity cs (step c w) in
      (certificate' ∙ certificate, issuer' ∙ issuer)
