-- ===== src/Issuer/GrantedOnce.antt =====
-- Each funding request is granted once, over any sequence of calls.
use digital_euro_wallet.Prelude.{
  ◌≡◌, ◌≢◌, ap, some, List, [], ◌∷◌, Bytes, arith, ok, nat_eq, list_eq, pair_eq,
}
use digital_euro_wallet.HashMap
use digital_euro_wallet.HashMap.Laws.{get-insert}
use digital_euro_wallet.Crates.{Crates, Rng}
use digital_euro_wallet.Id.{DeviceId, device_eq, account_eq}
use digital_euro_wallet.Message.FundingRequest.{FundingRequest}
use digital_euro_wallet.Message.Funding.{Funding}
use digital_euro_wallet.Issuer
use digital_euro_wallet.Issuer.{Issuer}
use digital_euro_wallet.Issuer.Grants.{fund-IsGrantable, fund-nonces}
use digital_euro_wallet.Issuer.History.{Call, open_account, certify_device, fund, defund, step, run}

module _ {G : Type 0} ⦃x : Crates⦄ ⦃g : Rng G⦄ where
  -- A nonce that a device has used stays used.
  step-nonces :
      (c : Call) (s : Issuer × G) (used : DeviceId × Bytes)
      → HashMap.get used s.0.funding_nonces ≡ some tt
      → HashMap.get used (step c s).0.funding_nonces ≡ some tt
  unfolding step Issuer.open_account Issuer.certify_device Issuer.fund Issuer.defund
  step-nonces (open_account account balance) s used h = ground arith
  step-nonces (certify_device account key limit) s used h = ground arith
  step-nonces (fund r) s used h =
      ground (arith, get-insert (r.device, r.nonce) used tt s.0.funding_nonces)
  step-nonces (defund order) s used h = ground arith

  run-nonces :
      (cs : List Call) (s : Issuer × G) (used : DeviceId × Bytes)
      → HashMap.get used s.0.funding_nonces ≡ some tt
      → HashMap.get used (run cs s).0.funding_nonces ≡ some tt
  unfolding run
  run-nonces [] s used h = h
  run-nonces (c ∷ cs) s used h = run-nonces cs (step c s) used (step-nonces c s used h)

  -- Once a funding request has been granted, then after any further calls no request with its
  -- device and nonce is granted: the account is debited once.
  pub granted_once :
      (request request' : FundingRequest) (i i' : Issuer) (rng : G) (f f' : Funding)
      (cs : List Call)
      → Issuer.fund request i ≡ (ok f, i')
      → request'.device ≡ request.device
      → request'.nonce ≡ request.nonce
      → (Issuer.fund request' (run cs (i', rng)).0).0 ≢ ok f'
  granted_once request request' i i' rng f f' cs e same_device same_nonce again =
      let after = (run cs (i', rng)).0 in
      let later = (Issuer.fund request' after).1 in
      let (_, _, h) = fund-IsGrantable request' after later f' (ap (λ r. (r, later)) again) in
      let used =
        run-nonces cs (i', rng) (request.device, request.nonce) (fund-nonces request i i' f e) in
      cc (used, h.unused, same_device, same_nonce)
