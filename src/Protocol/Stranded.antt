-- ===== src/Protocol/Stranded.antt =====
-- The ways in which an element debits value that no one credits, when messages are altered,
-- repeated, withdrawn or overtaken between the calls of src/wallet.rs and src/issuer.rs.
use digital_euro_wallet.Prelude.{
  ℕ, ◌+◌, ◌≤◌, ◌<◌, ◌≡◌, ◌≢◌, refl, sym, ap, ◌∙◌, List, arith, ok, err, list_eq, nat_eq,
  u64_modulus, add_u64, add_u64_exact,
}
use digital_euro_wallet.HashMap.Laws.{get-insert_self}
use digital_euro_wallet.Crates.{Crates, Rng, AreDocumented}
use digital_euro_wallet.Error.{amount_mismatch, already_credited, unknown_request, replay}
use digital_euro_wallet.Id.{device_eq, account_eq}
use digital_euro_wallet.Message.{PaymentRequest}
use digital_euro_wallet.Wallet
use digital_euro_wallet.Wallet.{Wallet, ElementState, sealed, cracked, balance_after}
use digital_euro_wallet.Wallet.Credit.{
  IsAddressed, receive_repeated, receive_unrequested, receive_mismatched,
}
use digital_euro_wallet.Wallet.History.{Call, run}
use digital_euro_wallet.Wallet.Once.{run-credited}
use digital_euro_wallet.Certificate.{DeviceCertificate}
use digital_euro_wallet.Wallet.Request.{
  next_nonce, opened, request_of, paid, redrawn, cancel_opened,
}
use digital_euro_wallet.Wallet.Genuine.{
  IsGenuine, debited, signed_transfer, signed_transfer-verifies, pay_granted, signed_defunding,
  signed_defunding-verifies, defund_granted, run-identity,
}
use digital_euro_wallet.Issuer
use digital_euro_wallet.Issuer.{Issuer, DeviceRecord}
use digital_euro_wallet.Issuer.Redemptions.{cashed, defund-cashable, defund_outdated}
use digital_euro_wallet.Protocol.Payment.{AreReady, payee-certified}
use digital_euro_wallet.Protocol.Enrolled.{IsEnrolled}

module _ {R : Type 0} ⦃x : Crates⦄ where
  debited-IsGenuine :
      (amount_cents : ℕ) (w : Wallet R) → IsGenuine w → IsGenuine (debited amount_cents w)
  debited-IsGenuine amount_cents w h = record {
    certified = h.certified;
    own_key = h.own_key;
    keypair = h.keypair;
  }

  debited-covers :
      (first second : ℕ) (w : Wallet R)
      → first + second ≤ w.balance_cents
      → second ≤ (debited first w).balance_cents
  debited-covers first second w covered = ground arith

module _ {P Q : Type 0} ⦃x : Crates⦄ ⦃q : Rng Q⦄ (doc : AreDocumented x) (payer : Wallet P)
    (payee : Wallet Q) (amount_cents : ℕ) (ready : AreReady payer payee)
    (other : Wallet.device payee ≢ Wallet.device payer) where
  abbrev request : PaymentRequest
  request = request_of amount_cents payee

  -- any transfer of the payer to the payee's device is genuine, whatever the state of the payee
  signed_transfer-IsAddressed :
      (r : PaymentRequest) (from : Wallet P) (to : Wallet Q)
      → r.payee.device ≡ Wallet.device to
      → IsGenuine from
      → from.issuer ≡ to.issuer
      → IsAddressed (signed_transfer r from) to
  signed_transfer-IsAddressed r from to here genuine same = record {
    for_this_device = here;
    certified = rw (← same) genuine.certified;
    signed = signed_transfer-verifies r from doc genuine;
  }

  -- A request carries no signature of the payee. If its amount is altered on the way to another that
  -- the payer covers, the payer is debited the altered amount and the payee refuses the transfer.
  pub pay_altered_request :
      (altered : ℕ)
      → altered ≢ amount_cents
      → 0 < altered
      → altered ≤ payer.balance_cents
      → let request' : PaymentRequest = record request { amount_cents = altered } in
        (Wallet.pay request' payer ≡ (ok (signed_transfer request' payer), debited altered payer))
        × (Wallet.receive (signed_transfer request' payer) (opened amount_cents payee)
            ≡ (err (amount_mismatch amount_cents altered), opened amount_cents payee))
  pay_altered_request altered ne pos covered =
      let request' : PaymentRequest = record request { amount_cents = altered } in
      let to = opened amount_cents payee in
      (
        pay_granted request' payer (payee-certified doc payer payee amount_cents ready) other pos
            covered,
        receive_mismatched (signed_transfer request' payer) to
            (signed_transfer-IsAddressed request' payer to refl ready.payer_genuine
              ready.same_issuer)
            amount_cents ready.payee_fresh.not_credited
            (get-insert_self (next_nonce payee) amount_cents payee.incoming) ne,
      )

  -- The payer does not remember what it has paid. Given the same request once more after a payment
  -- that was credited, a payer with cover left is debited again, and the payee, whatever was asked
  -- of it in between, refuses the second transfer.
  pub pay-request_twice :
      (cs : List Call)
      → 0 < amount_cents
      → amount_cents ≤ (debited amount_cents payer).balance_cents
      → let payer' = debited amount_cents payer in
        let payee' = run cs (paid amount_cents payee) in
        (Wallet.pay request payer'
          ≡ (ok (signed_transfer request payer'), debited amount_cents payer'))
        × (Wallet.receive (signed_transfer request payer') payee' ≡ (err already_credited, payee'))
  pay-request_twice cs pos covered =
      let payer' = debited amount_cents payer in
      let payee' = run cs (paid amount_cents payee) in
      let (certificate, issuer) = run-identity cs (paid amount_cents payee) in
      let done =
        run-credited cs (next_nonce payee) (paid amount_cents payee)
          (get-insert_self {V = Unit {0}} (next_nonce payee) tt payee.credited) in
      (
        pay_granted request payer' (payee-certified doc payer payee amount_cents ready) other pos
            covered,
        receive_repeated (signed_transfer request payer') payee'
            (signed_transfer-IsAddressed request payer' payee'
              (ap (λ (c : DeviceCertificate). c.device) (sym certificate))
              (debited-IsGenuine amount_cents payer ready.payer_genuine)
              (ready.same_issuer ∙ sym issuer))
            done,
      )

  -- If the payee withdraws its request before the transfer arrives, the payer is debited all the
  -- same, and the payee refuses the transfer.
  pub pay_withdrawn_request :
      0 < amount_cents
      → amount_cents ≤ payer.balance_cents
      → let payee' = (Wallet.cancel_request (next_nonce payee) (opened amount_cents payee)).1 in
        (Wallet.pay request payer
          ≡ (ok (signed_transfer request payer), debited amount_cents payer))
        × (Wallet.receive (signed_transfer request payer) payee' ≡ (err unknown_request, payee'))
  pay_withdrawn_request pos covered =
      let withdrawn = cancel_opened amount_cents payee ready.payee_fresh in
      (
        pay_granted request payer (payee-certified doc payer payee amount_cents ready) other pos
            covered,
        rw withdrawn (
            receive_unrequested (signed_transfer request payer) (redrawn payee)
              (signed_transfer-IsAddressed request payer (redrawn payee) refl ready.payer_genuine
                ready.same_issuer)
              ready.payee_fresh.not_credited ready.payee_fresh.not_open),
      )

module _ {R : Type 0} ⦃x : Crates⦄ where
  -- The issuer refuses as a replay an order that it has never seen, if a later order of the device
  -- overtook it: an enrolled element makes two orders, the second is cashed, the first is not, and
  -- both amounts are gone from the element.
  pub defund_overtaken :
      (w : Wallet R) (i : Issuer) (entry : DeviceRecord) (balance first second : ℕ)
      → AreDocumented x
      → IsEnrolled w i entry balance
      → w.counter + 2 < u64_modulus
      → 0 < first
      → 0 < second
      → first + second ≤ w.balance_cents
      → let w' = debited first w in
        let i' = cashed (signed_defunding second w') entry balance i in
        (Wallet.defund first w ≡ (ok (signed_defunding first w), w'))
        × (Wallet.defund second w' ≡ (ok (signed_defunding second w'), debited second w'))
        × (Issuer.defund (signed_defunding second w') i ≡ (ok second, i'))
        × (Issuer.defund (signed_defunding first w) i' ≡ (err replay, i'))
  defund_overtaken w i entry balance first second doc enrolled room p q covered =
      let w' = debited first w in
      let genuine' = debited-IsGenuine first w enrolled.genuine in
      let one = add_u64_exact w.counter 1 (omega arith) in
      let two = add_u64_exact (add_u64 w.counter 1) 1 (omega (arith, one)) in
      let order = signed_defunding second w' in
      let entry' : DeviceRecord = record entry { last_defunding_counter = order.counter } in
      (
        defund_granted first w p (omega arith),
        defund_granted second w' q (debited-covers first second w covered),
        defund-cashable order entry balance i (record {
          known = enrolled.known;
          signed = rw enrolled.same_key (signed_defunding-verifies second w' doc genuine');
          newer = omega (arith, one, two, enrolled.behind);
          account_open = enrolled.account_open;
        }),
        defund_outdated (signed_defunding first w) entry' (cashed order entry balance i)
            (get-insert_self (Wallet.device w) entry' i.devices)
            (rw enrolled.same_key (signed_defunding-verifies first w doc enrolled.genuine))
            (omega (arith, one, two)),
      )
