-- ===== src/Tests/Issuers.antt =====
-- The properties of the issuer, at concrete inputs.
use digital_euro_wallet.Prelude.{
  ℕ, ◌+◌, ◌≡◌, ◌≢◌, refl, List, [], ◌∷◌, arith, ok, replicate, list_eq, nat_eq, pair_eq,
}
use digital_euro_wallet.HashMap
use digital_euro_wallet.HashMap.Sums.{total}
use digital_euro_wallet.Prelude.Int.{pos_part, neg_part}
use digital_euro_wallet.Id.{account_eq, device_eq}
use digital_euro_wallet.Message.FundingRequest.{FundingRequest}
use digital_euro_wallet.Message.Defunding.{Defunding}
use digital_euro_wallet.Wallet.Genuine.{signed_defunding, signed_defunding-verifies}
use digital_euro_wallet.Wallet.Topup.{signed_request, signed_request-verifies}
use digital_euro_wallet.Issuer
use digital_euro_wallet.Issuer.{Issuer}
use digital_euro_wallet.Issuer.Grants.{IsGrantable, signed_funding, granted, fund-grantable}
use digital_euro_wallet.Issuer.Redemptions.{IsCashable, cashed, defund-cashable}
use digital_euro_wallet.Issuer.History.{Call, step, run}
use digital_euro_wallet.Issuer.Books.{OpensNew, books-balance}
use digital_euro_wallet.Issuer.GrantedOnce.{granted_once}
use digital_euro_wallet.Issuer.CashedOnce.{Avoids, cashed_once}
use digital_euro_wallet.Tests.Toy.{toy, toy-AreDocumented, counting, device_key, issuer_key}
use digital_euro_wallet.Tests.Parties.{Signing, alice, bank, entry_of, alice-IsGenuine}

abbrev request : FundingRequest
request = signed_request 700 alice

request-IsGrantable : IsGrantable request (entry_of 11) 5000 bank
unfolding HashMap.get
request-IsGrantable = record {
  known = refl;
  signed = signed_request-verifies 700 alice toy-AreDocumented alice-IsGenuine;
  nonzero = omega arith;
  unused = refl;
  account_open = refl;
  covered = omega arith;
}

-- the account is topped up, a device is certified, and an order is cashed
abbrev calls : List Call
calls =
    Call.open_account (record { bytes = replicate 16 11 }) 9000
    ∷ Call.certify_device (record { bytes = replicate 16 12 }) device_key.public 100
    ∷ Call.defund (signed_defunding 5 alice)
    ∷ []

granted_once_example :
    (Issuer.fund request (run {G = ℕ} calls (granted request (entry_of 11) 5000 bank, 90)).0).0
    ≢ ok (signed_funding request bank)
granted_once_example =
    granted_once request request bank (granted request (entry_of 11) 5000 bank) 90
      (signed_funding request bank) (signed_funding request bank) calls
      (fund-grantable request (entry_of 11) 5000 bank request-IsGrantable) refl refl

abbrev order : Defunding
order = signed_defunding 400 alice

order-IsCashable : IsCashable order (entry_of 11) 5000 bank
unfolding HashMap.get Signing
order-IsCashable = record {
  known = refl;
  signed = signed_defunding-verifies 400 alice toy-AreDocumented alice-IsGenuine;
  newer = omega arith;
  account_open = refl;
}

abbrev bank' : Issuer
bank' = cashed order (entry_of 11) 5000 bank

calls-Avoids : Avoids {G = ℕ} order.device calls (bank', 90)
unfolding step
calls-Avoids = ((λ e. ground arith), tt)

cashed_once_example : (Issuer.defund order (run {G = ℕ} calls (bank', 90)).0).0 ≢ ok 400
cashed_once_example =
    cashed_once order order bank bank' 90 400 400 calls
      (defund-cashable order (entry_of 11) 5000 bank order-IsCashable) calls-Avoids refl
      (omega arith)

-- two accounts, the device of one, its funding, and an order
abbrev business : List Call
business =
    Call.open_account (record { bytes = replicate 16 11 }) 5000
    ∷ Call.open_account (record { bytes = replicate 16 12 }) 200
    ∷ Call.certify_device (record { bytes = replicate 16 11 }) device_key.public 1000
    ∷ Call.fund request
    ∷ Call.defund order
    ∷ []

business-OpensNew : OpensNew {G = ℕ} business (Issuer.new issuer_key, 1)
unfolding Issuer.new Issuer.open_account step HashMap.get HashMap.insert
business-OpensNew = (refl, (refl, tt))

books-balance_example :
    let i = (run {G = ℕ} business (Issuer.new issuer_key, 1)).0 in
    total i.accounts + pos_part i.offline_float ≡ 5200 + neg_part i.offline_float
books-balance_example = books-balance issuer_key business 1 business-OpensNew (omega arith)
