-- ===== src/Tests/Wallets.antt =====
-- The properties of a wallet, at concrete inputs.
use digital_euro_wallet.Prelude.{
  ℕ, ◌+◌, ◌≡◌, ◌↔◌, refl, List, [], ◌∷◌, arith, ok, replicate, list_eq, nat_eq,
}
use digital_euro_wallet.HashMap
use digital_euro_wallet.Error.{not_for_this_device}
use digital_euro_wallet.Message.Transfer.{Transfer}
use digital_euro_wallet.Message.Funding.{Funding}
use digital_euro_wallet.Wallet
use digital_euro_wallet.Wallet.{Wallet, sealed}
use digital_euro_wallet.Wallet.Accounting.{IsWellFormed}
use digital_euro_wallet.Wallet.History.{Call, run, step, run-within_limit}
use digital_euro_wallet.Wallet.Atomic.{refused-unchanged, refusal}
use digital_euro_wallet.Wallet.Request.{opened, request_of}
use digital_euro_wallet.Wallet.Genuine.{signed_transfer, signed_transfer-verifies}
use digital_euro_wallet.Wallet.Credit.{IsCreditable, credit, receive-creditable, receive_iff}
use digital_euro_wallet.Wallet.Topup.{IsApplicable, apply_funding_iff}
use digital_euro_wallet.Wallet.Once.{Credit, IsRefused, credited_once}
use digital_euro_wallet.Tests.Toy.{toy, toy-AreDocumented, counting, issuer_key, device_key}
use digital_euro_wallet.Tests.Parties.{
  Signing, alice_certificate, wallet_of, alice, bakery, alice-IsGenuine,
}

-- every kind of call, some of them refused
abbrev calls : List Call
calls =
    Call.request_payment 600
    ∷ Call.request_funding 60000
    ∷ Call.request_funding 700
    ∷ Call.defund 5
    ∷ Call.cancel_request (replicate 16 40)
    ∷ Call.crack_secure_element
    ∷ []

abbrev fresh_alice : Wallet ℕ
fresh_alice = record (wallet_of alice_certificate 0 40) { counter = 0 }

fresh_alice-new : Wallet.new alice_certificate device_key issuer_key.public 40 ≡ ok fresh_alice
unfolding Signing Wallet.new
fresh_alice-new = refl

run-within_limit_example :
    let w = run calls fresh_alice in
    Wallet.balance w + Wallet.reserved w + Wallet.headroom w ≡ Wallet.holding_limit w
run-within_limit_example =
    run-within_limit alice_certificate device_key issuer_key.public 40 fresh_alice (omega arith)
      fresh_alice-new calls

-- Alice's answer to the bakery's request for 6 €
abbrev bread : Transfer
bread = signed_transfer (request_of 600 bakery) alice

abbrev waiting_bakery : Wallet ℕ
waiting_bakery = opened 600 bakery

waiting_bakery-IsWellFormed : IsWellFormed waiting_bakery
unfolding HashMap.insert HashMap.get
waiting_bakery-IsWellFormed = record {
  within = omega arith;
  limit_fits = omega arith;
  incoming_unique = (refl, tt);
  pending_unique = tt;
}

bread-IsCreditable : IsCreditable bread waiting_bakery
unfolding HashMap.insert HashMap.get
bread-IsCreditable = record {
  for_this_device = refl;
  certified = alice-IsGenuine.certified;
  signed = signed_transfer-verifies (request_of 600 bakery) alice toy-AreDocumented alice-IsGenuine;
  not_credited = refl;
  requested = refl;
}

bread-credited : Wallet.receive bread waiting_bakery ≡ (ok 600, credit bread waiting_bakery)
bread-credited =
    receive-creditable bread waiting_bakery waiting_bakery-IsWellFormed bread-IsCreditable

receive_iff_example :
    ((Wallet.receive bread waiting_bakery).0 ≡ ok 600)
    ↔ (IsCreditable bread waiting_bakery × (◌≡◌ {A = ℕ} 600 600))
receive_iff_example = receive_iff bread waiting_bakery 600 waiting_bakery-IsWellFormed

refused-unchanged_example : step (Call.receive bread) alice ≡ alice
unfolding refusal Wallet.receive
refused-unchanged_example = refused-unchanged (Call.receive bread) alice not_for_this_device refl

credited_once_example : IsRefused (Credit.transfer bread) (run calls (credit bread waiting_bakery))
credited_once_example =
    credited_once (Credit.transfer bread) (Credit.transfer bread) waiting_bakery
      (credit bread waiting_bakery) 600 calls bread-credited refl

abbrev waiting_alice : Wallet ℕ
waiting_alice = record alice { pending_funding = (replicate 16 40, 700) ∷ [] }

abbrev refill : Funding
refill = record {
  device = alice_certificate.device;
  amount_cents = 700;
  nonce = replicate 16 40;
  signature = 0;
}

waiting_alice-IsWellFormed : IsWellFormed waiting_alice
unfolding HashMap.get
waiting_alice-IsWellFormed = record {
  within = omega arith;
  limit_fits = omega arith;
  incoming_unique = tt;
  pending_unique = (refl, tt);
}

apply_funding_iff_example :
    ((Wallet.apply_funding refill waiting_alice).0 ≡ ok 700)
    ↔ (IsApplicable refill waiting_alice × (◌≡◌ {A = ℕ} 700 700))
apply_funding_iff_example = apply_funding_iff refill waiting_alice 700 waiting_alice-IsWellFormed
