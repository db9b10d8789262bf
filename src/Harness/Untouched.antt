-- ===== src/Harness/Untouched.antt =====
-- What an operation of src/main.rs leaves of the pseudonyms, and of the nonces of other devices.
use digital_euro_wallet.Prelude.{
  ℕ, ◌≡◌, ◌≢◌, ◌⊎◌, ◌∙◌, refl, sym, ap, Bytes, ok, err, arith, inl, inr, pair_eq, list_eq, nat_eq,
}
use digital_euro_wallet.HashMap
use digital_euro_wallet.HashMap.Laws.{get-insert_ne}
use digital_euro_wallet.Crates.{Crates, Rng}
use digital_euro_wallet.Id.{DeviceId, device_eq}
use digital_euro_wallet.Error.{Error, Result}
use digital_euro_wallet.Message.FundingRequest.{FundingRequest}
use digital_euro_wallet.Wallet
use digital_euro_wallet.Wallet.{Wallet}
use digital_euro_wallet.Wallet.History
use digital_euro_wallet.Wallet.History.{Call, step}
use digital_euro_wallet.Wallet.Genuine.{step-identity}
use digital_euro_wallet.Issuer
use digital_euro_wallet.Issuer.{Issuer}
use digital_euro_wallet.Protocol

result-cases : {T : Type 0} (r : Result T) → ((t : T) × (r ≡ ok t)) ⊎ ((e : Error) × (r ≡ err e))
result-cases (ok t) = inl (t, refl)
result-cases (err e) = inr (e, refl)

granted_nonces :
    ⦃x : Crates⦄ (request : FundingRequest) (i : Issuer) (id : DeviceId) (nonce : Bytes)
    → request.device ≢ id
    → HashMap.get (id, nonce) (Issuer.fund request i).1.funding_nonces
      ≡ HashMap.get (id, nonce) i.funding_nonces
unfolding Issuer.fund
granted_nonces request i id nonce other = ground (
  arith,
  get-insert_ne (request.device, request.nonce) (id, nonce) tt i.funding_nonces
      (λ e. other (ap (λ p. p.0) e)),
)

module _ {R : Type 0} ⦃x : Crates⦄ ⦃g : Rng R⦄ where
  same_device : (c : Call) (d : Wallet R) → Wallet.device (step c d) ≡ Wallet.device d
  same_device c d = ap (λ c. c.device) (step-identity c d).0

  requested_device :
      (amount : ℕ) (d : Wallet R) (request : FundingRequest)
      → (Wallet.request_funding amount d).0 ≡ ok request
      → request.device ≡ Wallet.device d
  unfolding Wallet.request_funding
  requested_device amount d request e = ground (arith, e)

  pub fund-device :
      (d : Wallet R) (i : Issuer) (amount : ℕ)
      → Wallet.device (Protocol.fund d i amount).1 ≡ Wallet.device d
  unfolding Protocol.fund step
  fund-device d i amount =
      let d' = (Wallet.request_funding amount d).1 in
      let asked = same_device (History.request_funding amount) d in
      elim (result-cases (Wallet.request_funding amount d).0) [
        | inr (error, e) ↦ ground (arith, e, asked)
        | inl (request, e) ↦ elim (result-cases (Issuer.fund request i).0) [
          | inl (funding, f) ↦
              ground (arith, e, f, asked, same_device (History.apply_funding funding) d')
          | inr (error, f) ↦
              ground (arith, e, f, asked, same_device (History.cancel_funding request.nonce) d')
        ]
      ]

  pub fund-nonces :
      (d : Wallet R) (i : Issuer) (amount : ℕ) (id : DeviceId) (nonce : Bytes)
      → Wallet.device d ≢ id
      → HashMap.get (id, nonce) (Protocol.fund d i amount).2.funding_nonces
        ≡ HashMap.get (id, nonce) i.funding_nonces
  unfolding Protocol.fund
  fund-nonces d i amount id nonce other = elim (result-cases (Wallet.request_funding amount d).0) [
    | inr (error, e) ↦ ground (arith, e)
    | inl (request, e) ↦
        let own = requested_device amount d request e in
        let kept = granted_nonces request i id nonce (λ s. other (sym own ∙ s)) in
        ground (arith, e, kept)
  ]

  pub defund-device :
      (d : Wallet R) (i : Issuer) (amount : ℕ)
      → Wallet.device (Protocol.defund d i amount).1 ≡ Wallet.device d
  unfolding Protocol.defund step
  defund-device d i amount = ground (arith, same_device (History.defund amount) d)

  pub defund-nonces :
      (d : Wallet R) (i : Issuer) (amount : ℕ)
      → (Protocol.defund d i amount).2.funding_nonces ≡ i.funding_nonces
  unfolding Protocol.defund Issuer.defund
  defund-nonces d i amount = ground arith

  pub pay-device :
      (d e : Wallet R) (amount : ℕ)
      → (Wallet.device (Protocol.pay d e amount).1 ≡ Wallet.device d)
        × (Wallet.device (Protocol.pay d e amount).2 ≡ Wallet.device e)
  unfolding Protocol.pay step
  pay-device d e amount =
      let e' = (Wallet.request_payment amount e).1 in
      let asked = same_device (History.request_payment amount) e in
      elim (result-cases (Wallet.request_payment amount e).0) [
        | inr (error, f) ↦ ground (arith, f, asked)
        | inl (request, f) ↦
            let paid = same_device (History.pay request) d in
            elim (result-cases (Wallet.pay request d).0) [
              | inl (transfer, h) ↦
                  ground (arith, f, h, asked, paid, same_device (History.receive transfer) e')
              | inr (error, h) ↦
                  ground (
                    arith,
                    f,
                    h,
                    asked,
                    paid,
                    same_device (History.cancel_request request.nonce) e',
                  )
            ]
      ]
