-- ===== src/Harness/Scenarios/Refused.antt =====
-- The scenario of the refused payment of src/main.rs, with a payee that another issuer certified.
use digital_euro_wallet.Prelude.{
  ℕ, ◌≤◌, ◌≡◌, ◌∙◌, refl, false, some, [], ◌∷◌, arith, ok, err, get_elem?, set, get_elem?-set_self,
  get_elem?-set_ne, nat_eq,
}
use digital_euro_wallet.Crates.{Crates, Rng, AreDocumented}
use digital_euro_wallet.Error.{invalid_certificate, insufficient_funds}
use digital_euro_wallet.Certificate
use digital_euro_wallet.Certificate.{DeviceCertificate}
use digital_euro_wallet.Message.{PaymentRequest}
use digital_euro_wallet.Wallet
use digital_euro_wallet.Wallet.{Wallet}
use digital_euro_wallet.Wallet.Request.{opened, request_of, request_payment_granted}
use digital_euro_wallet.Harness
use digital_euro_wallet.Harness.{World, perform}
use digital_euro_wallet.Harness.Ledger.{settle, unspent}
use digital_euro_wallet.Harness.Steps.{member-headroom}
use digital_euro_wallet.Harness.Run.{sound_devices}
use digital_euro_wallet.Harness.Play.{call, balance_at}
use digital_euro_wallet.Harness.Called.{call-eq}
use digital_euro_wallet.Harness.Endings.{Passes, reads, calls, looks}
use digital_euro_wallet.Harness.Stands.{
  Stands, performs, attempts, balance_at-Stands, device-Stands, balance-Stands,
}
use digital_euro_wallet.Harness.Scenarios.{refused_payment}

module _ {R : Type 0} ⦃x : Crates⦄ ⦃g : Rng R⦄ where
  pay_uncertified :
      (request : PaymentRequest) (w : Wallet R)
      → Certificate.verify request.payee w.issuer ≡ false
      → Wallet.pay request w ≡ (err invalid_certificate, w)
  unfolding Wallet.pay
  pay_uncertified request w e = ground (arith, e)

  module _ {limit money : ℕ} {w : World R} where
    -- The certificate of the other issuer does not verify under this one's key.
    pub refused_payment-passes :
        (doc : AreDocumented x) (rogue : DeviceCertificate)
        → 600 ≤ limit
        → Certificate.verify rogue w.issuer.keypair.public ≡ false
        → Stands 3 limit money 2 (unspent (10000 ∷ 0 ∷ [])) w
        → Passes (refused_payment (some rogue)) w
    unfolding refused_payment settle
    refused_payment-passes doc rogue room foreign h =
        performs _ _ doc (Harness.fund 0 500) 500
          (record { balances = 500 ∷ 0 ∷ []; deposits = 9500 ∷ 0 ∷ [] }) h (omega arith)
          (ground (arith, room))
          (λ w1 h1 same1.
            attempts _ doc (Harness.pay 0 1 600) (err (insufficient_funds 600 500))
              (record { balances = 500 ∷ 0 ∷ []; deposits = 9500 ∷ 0 ∷ [] }) h1
              (omega arith, omega arith, ground arith) (ground (arith, room))
              (λ w2 h2 same2.
                let (alice, _, alice_at, _, m) = device-Stands 0 h2 (omega arith) in
                let (bakery, _, bakery_at, _, n) = device-Stands 1 h2 (omega arith) in
                let alice_balance = balance-Stands 0 500 alice h2 alice_at refl in
                let bakery_balance = balance-Stands 1 0 bakery h2 bakery_at refl in
                let quiet = (sound_devices h2.sound 1 bakery bakery_at).1 in
                let bakery' = opened 100 bakery in
                let request = request_of 100 bakery in
                let w3 : World R = record w2 { devices = set 1 bakery' w2.devices } in
                let w4 : World R = record w3 { devices = set 0 alice w3.devices } in
                let alice_still : get_elem? w3.devices 0 ≡ some alice =
                  get_elem?-set_ne 1 0 bakery' w2.devices (λ e. omega (arith, e)) ∙ alice_at in
                let open_room : 100 ≤ Wallet.headroom bakery =
                  omega (arith, member-headroom n, bakery_balance, room) in
                let uncertified : Certificate.verify rogue alice.issuer ≡ false =
                  rw (m.enrolled.issuer_key, same2.keypair, same1.keypair) foreign in
                let last : balance_at 0 w4 ≡ some 500 =
                  rw (get_elem?-set_self 0 alice alice w3.devices alice_still, alice_balance)
                    refl in
                reads _ _ _ 500 (balance_at-Stands 0 500 h2 refl) (
                  reads _ _ _ 0 (rw (bakery_at, quiet) refl) (
                    calls _ _ (call 1 (Wallet.request_payment 100)) w2 w3 request
                      (call-eq 1 _ w2 bakery bakery' (ok request) bakery_at
                        (request_payment_granted 100 bakery (omega arith) open_room))
                      (reads _ _ _ rogue refl (
                        looks _ (call 0 (Wallet.pay (record request { payee = rogue }))) w3 w4
                          (err invalid_certificate)
                          (call-eq 0 _ w3 alice alice _ alice_still
                            (pay_uncertified (record request { payee = rogue }) alice uncertified))
                          (reads _ _ _ 500 last (w4, refl))))))))
