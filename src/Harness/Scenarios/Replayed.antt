-- ===== src/Harness/Scenarios/Replayed.antt =====
-- The scenario of replay and tampering of src/main.rs as a whole.
use digital_euro_wallet.Prelude.{
  ℕ, ◌≤◌, ◌≡◌, ◌≢◌, ◌∙◌, refl, sym, some, [], ◌∷◌, arith, ok, err, get_elem?, set,
  get_elem?-set_self, get_elem?-set_ne,
}
use digital_euro_wallet.Crates.{Crates, Rng, AreDocumented}
use digital_euro_wallet.Error.{invalid_signature, already_credited}
use digital_euro_wallet.Message.Transfer.{Transfer}
use digital_euro_wallet.Wallet
use digital_euro_wallet.Wallet.{Wallet}
use digital_euro_wallet.Wallet.Genuine.{debited, signed_transfer, pay_granted}
use digital_euro_wallet.Wallet.Request.{opened, paid, request_of, request_payment_granted}
use digital_euro_wallet.Protocol.Payment.{AreReady, payee-certified, receive_cannot_fail}
use digital_euro_wallet.Protocol.Funding.{funded}
use digital_euro_wallet.Harness
use digital_euro_wallet.Harness.{World, perform}
use digital_euro_wallet.Harness.Ledger.{settle, unspent}
use digital_euro_wallet.Harness.Steps.{member-headroom}
use digital_euro_wallet.Harness.Payments.{members-AreReady}
use digital_euro_wallet.Harness.Play.{call}
use digital_euro_wallet.Harness.Called.{call-eq, call_refused}
use digital_euro_wallet.Harness.Endings.{Passes, reads, calls, looks}
use digital_euro_wallet.Harness.Stands.{Stands, IsMember-Stands, balance-Stands}
use digital_euro_wallet.Harness.Scenarios.{exchange, resist_replay}
use digital_euro_wallet.Harness.Scenarios.Funded.{first_funded}
use digital_euro_wallet.Harness.Scenarios.Tampered.{
  AreApart, inflated-refused, redirected-refused, replayed-refused,
}

module _ {R : Type 0} ⦃x : Crates⦄ ⦃g : Rng R⦄ (w : World R) (doc : AreDocumented x)
    (payer payee third : Wallet R) (payer_at : get_elem? w.devices 0 ≡ some payer)
    (payee_at : get_elem? w.devices 1 ≡ some payee) (third_at : get_elem? w.devices 2 ≡ some third)
    (ready : AreReady payer payee) (others : Wallet.device payee ≢ Wallet.device payer)
    (room : 600 ≤ Wallet.headroom payee) (cover : 600 ≤ Wallet.balance payer)
    (empty : Wallet.balance payee ≡ 0) (same_issuer : third.issuer ≡ payer.issuer)
    (apart : AreApart payer payee third) where
  abbrev transfer : Transfer
  transfer = signed_transfer (request_of 600 payee) payer

  abbrev asked : World R
  asked = record w { devices = set 1 (opened 600 payee) w.devices }

  abbrev debited_world : World R
  debited_world = record w { devices = set 0 (debited 600 payer) asked.devices }

  abbrev credited_world : World R
  credited_world = record w { devices = set 1 (paid 600 payee) debited_world.devices }

  payer_in : get_elem? asked.devices 0 ≡ some payer
  payer_in = get_elem?-set_ne 1 0 (opened 600 payee) w.devices (λ e. omega (arith, e)) ∙ payer_at

  payee_in : get_elem? debited_world.devices 1 ≡ some (opened 600 payee)
  payee_in =
      get_elem?-set_ne 0 1 (debited 600 payer) asked.devices (λ e. omega (arith, e))
      ∙ get_elem?-set_self 1 (opened 600 payee) payee w.devices payee_at

  third_in : get_elem? debited_world.devices 2 ≡ some third
  third_in =
      get_elem?-set_ne 0 2 (debited 600 payer) asked.devices (λ e. omega (arith, e))
      ∙ get_elem?-set_ne 1 2 (opened 600 payee) w.devices (λ e. omega (arith, e))
      ∙ third_at

  credited_in : get_elem? credited_world.devices 1 ≡ some (paid 600 payee)
  credited_in =
      get_elem?-set_self 1 (paid 600 payee) (opened 600 payee) debited_world.devices payee_in

  requested : call 1 (Wallet.request_payment 600) w ≡ some (ok (request_of 600 payee), asked)
  requested =
      call-eq 1 (Wallet.request_payment 600) w payee (opened 600 payee) (ok (request_of 600 payee))
        payee_at (request_payment_granted 600 payee (omega arith) room)

  answered : call 0 (Wallet.pay (request_of 600 payee)) asked ≡ some (ok transfer, debited_world)
  answered =
      call-eq 0 (Wallet.pay (request_of 600 payee)) asked payer (debited 600 payer) (ok transfer)
        payer_in
        (pay_granted (request_of 600 payee) payer (payee-certified doc payer payee 600 ready) others
          (omega arith) cover)

  accepted : call 1 (Wallet.receive transfer) debited_world ≡ some (ok 600, credited_world)
  accepted =
      call-eq 1 (Wallet.receive transfer) debited_world (opened 600 payee) (paid 600 payee) (ok 600)
        payee_in (receive_cannot_fail doc payer payee 600 ready (omega arith) room)

  inflated :
      call 1 (Wallet.receive (record transfer { amount_cents = 6000 })) debited_world
      ≡ some (err invalid_signature, debited_world)
  inflated =
      call_refused 1 (Wallet.receive (record transfer { amount_cents = 6000 })) debited_world
        (opened 600 payee) invalid_signature payee_in
        (inflated-refused doc payer payee third ready apart)

  redirected :
      call 2 (Wallet.receive (record transfer { payee = Wallet.device third })) debited_world
      ≡ some (err invalid_signature, debited_world)
  redirected =
      call_refused 2 (Wallet.receive (record transfer { payee = Wallet.device third }))
        debited_world third invalid_signature third_in
        (redirected-refused doc payer payee third ready apart same_issuer)

  replayed :
      call 1 (Wallet.receive transfer) credited_world ≡ some (err already_credited, credited_world)
  replayed =
      call_refused 1 (Wallet.receive transfer) credited_world (paid 600 payee) already_credited
        credited_in (replayed-refused doc payer payee third ready apart)

  -- What follows the funding.
  tampering_resisted : Passes exchange w
  tampering_resisted =
      calls _ _ (call 1 (Wallet.request_payment 600)) w asked (request_of 600 payee) requested (
        calls _ _ (call 0 (Wallet.pay (request_of 600 payee))) asked debited_world transfer answered
          (looks _ (call 1 (Wallet.receive (record transfer { amount_cents = 6000 }))) debited_world
            debited_world (err invalid_signature) inflated
            (reads _ _ debited_world (Wallet.device third) (rw third_in refl) (
              looks _ (call 2 (Wallet.receive (record transfer { payee = Wallet.device third })))
                debited_world debited_world (err invalid_signature) redirected
                (looks _ (call 1 (Wallet.receive transfer)) debited_world credited_world (ok 600)
                  accepted
                  (looks _ (call 1 (Wallet.receive transfer)) credited_world credited_world
                    (err already_credited) replayed
                    (reads _ _ credited_world 600 (rw (credited_in, empty) refl)
                      (credited_world, refl))))))))

module _ {R : Type 0} ⦃x : Crates⦄ ⦃g : Rng R⦄ {limit money : ℕ} {w : World R} where
  pub resist_replay-passes :
      (doc : AreDocumented x) (payer payee third : Wallet R)
      → 1000 ≤ limit
      → Stands 2 limit money 3 (unspent (10000 ∷ 0 ∷ 0 ∷ [])) w
      → get_elem? w.devices 0 ≡ some payer
      → get_elem? w.devices 1 ≡ some payee
      → get_elem? w.devices 2 ≡ some third
      → AreApart payer payee third
      → Passes resist_replay w
  unfolding resist_replay settle
  resist_replay-passes doc payer payee third room h payer_at payee_at third_at apart =
      let (w1, e, h1, _, moved) =
        first_funded doc 9999 1000 (0 ∷ 0 ∷ [])
          (record { balances = 1000 ∷ 0 ∷ 0 ∷ []; deposits = 9000 ∷ 0 ∷ 0 ∷ [] }) payer h payer_at
          (omega arith) room (omega arith) (ground (arith, room)) in
      let payer' = funded 1000 payer in
      let payer_in : get_elem? w1.devices 0 ≡ some payer' =
        rw moved (get_elem?-set_self 0 payer' payer w.devices payer_at) in
      let payee_in : get_elem? w1.devices 1 ≡ some payee =
        rw moved (get_elem?-set_ne 0 1 payer' w.devices (λ e. omega (arith, e)) ∙ payee_at) in
      let third_in : get_elem? w1.devices 2 ≡ some third =
        rw moved (get_elem?-set_ne 0 2 payer' w.devices (λ e. omega (arith, e)) ∙ third_at) in
      let (_, _, m) = IsMember-Stands 0 payer' h1 payer_in in
      let (_, _, n) = IsMember-Stands 1 payee h1 payee_in in
      let (_, _, o) = IsMember-Stands 2 third h1 third_in in
      let empty = balance-Stands 1 0 payee h1 payee_in refl in
      let others : Wallet.device payee ≢ Wallet.device payer' = λ same.
        omega (arith, h1.sound.members.device_once 1 0 payee payer' payee_in payer_in same) in
      calls _ _ (perform (Harness.fund 0 1000)) w w1 1000 e (
        tampering_resisted w1 doc payer' payee third payer_in payee_in third_in
          (members-AreReady m n) others (omega (arith, member-headroom n, empty, room))
          (omega (arith, balance-Stands 0 1000 payer' h1 payer_in refl)) empty
          (o.enrolled.issuer_key ∙ sym m.enrolled.issuer_key)
          (record { amounts = apart.amounts; payees = apart.payees }))
