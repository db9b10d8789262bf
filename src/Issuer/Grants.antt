-- ===== src/Issuer/Grants.antt =====
-- When the issuer grants a funding, what it then does, and that it grants each request once.
use digital_euro_wallet.Prelude.{
  ℕ, ◌-◌, ◌≤◌, ◌<◌, ◌≡◌, true, none, some, arith, ok, err, nat_eq, list_eq, pair_eq, Option-cases,
  inl, inr,
}
use digital_euro_wallet.Prelude.Int.{pos, add_i128}
use digital_euro_wallet.HashMap
use digital_euro_wallet.HashMap.{HashMap, HashSet}
use digital_euro_wallet.HashMap.Laws.{get-insert_self}
use digital_euro_wallet.Crates.{Crates}
use digital_euro_wallet.Error.{Error}
use digital_euro_wallet.Id.{account_eq, device_eq}
use digital_euro_wallet.Signature
use digital_euro_wallet.Message.FundingRequest
use digital_euro_wallet.Message.FundingRequest.{FundingRequest}
use digital_euro_wallet.Message.Funding
use digital_euro_wallet.Message.Funding.{Funding}
use digital_euro_wallet.Issuer
use digital_euro_wallet.Issuer.{Issuer, DeviceRecord}

module _ ⦃x : Crates⦄ where
  -- What a request needs to be granted, against the issuer's entry for its device and the balance
  -- of the account behind it.
  pub record IsGrantable (request : FundingRequest) (entry : DeviceRecord) (balance : ℕ)
      (i : Issuer) : Type 0 where
    pub known : HashMap.get request.device i.devices ≡ some entry
    pub signed :
        Signature.verify entry.public_key (FundingRequest.digest request) request.signature ≡ true
    pub nonzero : 0 < request.amount_cents
    pub unused : HashMap.get (request.device, request.nonce) i.funding_nonces ≡ none
    pub account_open : HashMap.get entry.account i.accounts ≡ some balance
    pub covered : request.amount_cents ≤ balance

  abbrev pub unsigned_funding : FundingRequest → Funding
  unsigned_funding request = record {
    device = request.device;
    amount_cents = request.amount_cents;
    nonce = request.nonce;
    signature = 0;
  }

  abbrev pub signed_funding : FundingRequest → Issuer → Funding
  signed_funding request i =
      let f = unsigned_funding request in
      record f { signature = Signature.sign i.keypair (Funding.digest f) }

  -- the issuer's books after a funding
  abbrev pub granted : FundingRequest → DeviceRecord → ℕ → Issuer → Issuer
  granted request entry balance i = record i {
    accounts = HashMap.insert entry.account (balance - request.amount_cents) i.accounts;
    offline_float = add_i128 i.offline_float (pos request.amount_cents);
    funding_nonces = HashMap.insert (request.device, request.nonce) tt i.funding_nonces;
  }

  pub fund-grantable :
      (request : FundingRequest) (entry : DeviceRecord) (balance : ℕ) (i : Issuer)
      → IsGrantable request entry balance i
      → Issuer.fund request i ≡ (ok (signed_funding request i), granted request entry balance i)
  unfolding Issuer.fund
  fund-grantable request entry balance i h = ground (arith, h)

  -- A request that is not refused was grantable.
  pub fund-IsGrantable :
      (request : FundingRequest) (i i' : Issuer) (funding : Funding)
      → Issuer.fund request i ≡ (ok funding, i')
      → (entry : DeviceRecord) × (balance : ℕ) × IsGrantable request entry balance i
  unfolding Issuer.fund
  fund-IsGrantable request i i' funding e =
      elim (Option-cases (HashMap.get request.device i.devices)) [
        | inl unknown ↦ absurd (ground arith)
        | inr (entry, known) ↦ elim (Option-cases (HashMap.get entry.account i.accounts)) [
          | inl closed ↦ absurd (ground arith)
          | inr (balance, account_open) ↦ (entry, balance, ground arith)
        ]
      ]

  -- A refusal leaves the issuer's books as they were.
  pub fund_refused :
      (request : FundingRequest) (i : Issuer) (error : Error)
      → (Issuer.fund request i).0 ≡ err error
      → (Issuer.fund request i).1 ≡ i
  unfolding Issuer.fund
  fund_refused request i error e = ground arith

  -- A granted request leaves its nonce behind.
  pub fund-nonces :
      (request : FundingRequest) (i i' : Issuer) (f : Funding)
      → Issuer.fund request i ≡ (ok f, i')
      → HashMap.get (request.device, request.nonce) i'.funding_nonces ≡ some tt
  fund-nonces request i i' f e =
      let (entry, balance, h) = fund-IsGrantable request i i' f e in
      cc (
        fund-grantable request entry balance i h,
        get-insert_self {V = Unit {0}} (request.device, request.nonce) tt i.funding_nonces,
      )
