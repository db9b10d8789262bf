-- ===== src/Harness/Counterfeit.antt =====
-- A cracked element in the world of src/main.rs, as in `cracked_element_counterfeits`.
use digital_euro_wallet.Prelude.{
  ℕ, ◌+◌, ◌≤◌, ◌<◌, ◌≡◌, ◌≢◌, ◌∙◌, refl, sym, some, arith, ok, get_elem?, set, get_elem?-set_ne,
  get_elem?-set_self, list_eq, nat_eq,
}
use digital_euro_wallet.Crates.{Crates, Rng, AreDocumented}
use digital_euro_wallet.Id.{device_eq, device_same_iff}
use digital_euro_wallet.Wallet
use digital_euro_wallet.Wallet.{Wallet, cracked}
use digital_euro_wallet.Wallet.Genuine.{debited}
use digital_euro_wallet.Wallet.Request.{paid}
use digital_euro_wallet.Protocol.Payment.{AreReady, payment, pay-eq-payment}
use digital_euro_wallet.Harness
use digital_euro_wallet.Harness.{World, perform}
use digital_euro_wallet.Harness.Supply.{held, held-set}
use digital_euro_wallet.Harness.Payments.{perform-pay}

module _ {R : Type 0} ⦃x : Crates⦄ ⦃g : Rng R⦄ (doc : AreDocumented x) (w : World R)
    (a b amount : ℕ) (d e : Wallet R) (ready : AreReady d e) (a_ne_b : a ≢ b)
    (payer_at : get_elem? w.devices a ≡ some d) (payee_at : get_elem? w.devices b ≡ some e)
    (others : Wallet.device e ≢ Wallet.device d) (is_cracked : d.state ≡ cracked)
    (positive : 0 < amount) (room : amount ≤ Wallet.headroom e)
    (shown : amount ≤ Wallet.balance d) where
  accepted : payment d e amount ≡ (ok amount, debited amount d, paid amount e)
  accepted =
      ground
        (arith, positive, room, shown, others, device_same_iff (Wallet.device e) (Wallet.device d))

  abbrev pub inflated : World R
  inflated = record w { devices = set b (paid amount e) (set a (debited amount d) w.devices) }

  inflated-held : held inflated.devices ≡ held w.devices + amount
  inflated-held =
      let kept : (debited amount d).balance_cents ≡ d.balance_cents = ground (arith, is_cracked) in
      let still = get_elem?-set_ne a b (debited amount d) w.devices a_ne_b ∙ payee_at in
      omega (
        arith,
        kept,
        held-set a d (debited amount d) w.devices payer_at,
        held-set b e (paid amount e) (set a (debited amount d) w.devices) still,
      )

  pub perform-inflated : perform (Harness.pay a b amount) w ≡ some (ok amount, inflated)
  perform-inflated =
      rw (perform-pay a b amount w d e a_ne_b payer_at payee_at)
        (rw (pay-eq-payment doc d e amount ready) (rw accepted refl))

  inflated-kept : (c : ℕ) → c ≢ a → c ≢ b → get_elem? inflated.devices c ≡ get_elem? w.devices c
  inflated-kept c c_ne_a c_ne_b =
      get_elem?-set_ne b c (paid amount e) (set a (debited amount d) w.devices)
        (λ s. c_ne_b (sym s))
      ∙ get_elem?-set_ne a c (debited amount d) w.devices (λ s. c_ne_a (sym s))

  -- A cracked element pays another device any positive amount that it shows and that the other has
  -- room for under its limit, between genuine wallets of one issuer with a fresh nonce: the payee's
  -- balance grows by the amount, the payer still shows its balance, every other device and the issuer
  -- are as they were, and the value on the devices has grown by the amount.
  pub pay_counterfeits :
      (w' : World R) × (perform (Harness.pay a b amount) w ≡ some (ok amount, w'))
      × (get_elem? w'.devices a ≡ some (debited amount d))
      × (Wallet.balance (debited amount d) ≡ Wallet.balance d)
      × (get_elem? w'.devices b ≡ some (paid amount e))
      × (Wallet.balance (paid amount e) ≡ Wallet.balance e + amount)
      × ((c : ℕ) → c ≢ a → c ≢ b → get_elem? w'.devices c ≡ get_elem? w.devices c)
      × (w'.issuer ≡ w.issuer)
      × (held w'.devices ≡ held w.devices + amount)
  pay_counterfeits = (
    inflated,
    perform-inflated,
    get_elem?-set_ne b a (paid amount e) (set a (debited amount d) w.devices) (λ s. a_ne_b (sym s))
        ∙ get_elem?-set_self a (debited amount d) d w.devices payer_at,
    ground (arith, is_cracked),
    get_elem?-set_self b (paid amount e) e (set a (debited amount d) w.devices)
        (get_elem?-set_ne a b (debited amount d) w.devices a_ne_b ∙ payee_at),
    refl,
    inflated-kept,
    refl,
    inflated-held,
  )
