-- ===== src/Harness/Scenarios.antt =====
-- src/main.rs: the acceptance scenarios, without the notes that they print.
pub mod Halves
pub mod Passing
pub mod Refused
pub mod Funded
pub mod Tampered
pub mod Replayed
pub mod Cracked
pub mod Spent
use Prim.Native.Nat.{bit_xor}
use digital_euro_wallet.Prelude.{
  ℕ, suc, ◌-◌, ◌+◌, ◌/◌, ◌%◌, u64_modulus, Bool, true, false, Option, none, some, List, [], ◌∷◌,
  ◌++◌, ◌==◌, nat_eq, option_eq, StdResult, ok, err, add_u64, sum_u64, map, codes, replicate,
  get_elem?, set,
}
use digital_euro_wallet.Prelude.Int.{ℤ, pos, negsuc, int_eq}
use digital_euro_wallet.Text.{Text, decimal, decimal02}
use digital_euro_wallet.Crates.{Crates, KeyCrates, Rng, BigRng, SeedableRng}
use digital_euro_wallet.Id.{AccountId}
use digital_euro_wallet.Error.{
  Error, Result, display, invalid_certificate, invalid_signature, already_credited,
  insufficient_funds, holding_limit_exceeded, replay,
}
use digital_euro_wallet.Certificate.{DeviceCertificate}
use digital_euro_wallet.Message.{PaymentRequest}
use digital_euro_wallet.Message.Transfer.{Transfer}
use digital_euro_wallet.Signature.Generation.{generate}
use digital_euro_wallet.Wallet
use digital_euro_wallet.Wallet.{Wallet}
use digital_euro_wallet.Issuer
use digital_euro_wallet.Issuer.{Issuer}
use digital_euro_wallet.Harness
use digital_euro_wallet.Harness.{World, perform, pair, and_then}
use digital_euro_wallet.Harness.Opening.{Config, world}
use digital_euro_wallet.Harness.Play.{
  Reason, text, got, got_transfer, Verdict, Play, ◌>>=◌, ◌>>◌, kept, or_fail, to_string, pass, fail,
  ensure, see, balance_at, seen, call, call_issuer, verdict,
}

unfoldable pub euros : ℕ → Text
euros cents = decimal (cents / 100) ++ (codes "." ++ (decimal02 (cents % 100) ++ codes " €"))

abbrev because : Text → Error → Reason
because prefix e = text (prefix ++ display e)

-- the arms of the `match`es, and of the `==`s with an error
abbrev is_insufficient : Result ℕ → Bool
is_insufficient (err (insufficient_funds _ _)) = true
is_insufficient _ = false

abbrev is_invalid_certificate : {A : Type 0} → Result A → Bool
is_invalid_certificate (err invalid_certificate) = true
is_invalid_certificate _ = false

abbrev is_invalid_signature : Result ℕ → Bool
is_invalid_signature (err invalid_signature) = true
is_invalid_signature _ = false

abbrev is_already_credited : Result ℕ → Bool
is_already_credited (err already_credited) = true
is_already_credited _ = false

abbrev is_replay : Result ℕ → Bool
is_replay (err replay) = true
is_replay _ = false

abbrev is_ok : ℕ → Result ℕ → Bool
is_ok v (ok u) = u == v
is_ok v (err _) = false

-- `{}` of an `i128`
abbrev decimal_int : ℤ → Text
decimal_int (pos n) = decimal n
decimal_int (negsuc n) = codes "-" ++ decimal (suc n)

-- `{:?}` of an `Option<u64>`
abbrev debug_option : Option ℕ → Text
debug_option none = codes "None"
debug_option (some n) = codes "Some(" ++ (decimal n ++ codes ")")

-- `a - b` on `u64`
abbrev pub sub_u64 : ℕ → ℕ → ℕ
sub_u64 a b = (a + (u64_modulus - b)) % u64_modulus

module _ {S : Type 0} where
  -- `match` on a payment that should exceed the room of 1 €
  abbrev expect_headroom : Result ℕ → Play S (Unit {0})
  expect_headroom (err (holding_limit_exceeded requested headroom)) =
      ensure (headroom == 100) (text (codes "headroom reported as " ++ decimal headroom))
  expect_headroom other = fail (got (codes "expected HoldingLimitExceeded, got ") other)

  -- `w.devices.clear()`
  abbrev drop_devices : Play S (Unit {0})
  drop_devices w = some (ok tt, record w { devices = [] })

  -- `w.devices[a].crack_secure_element()`
  abbrev pub crack : ℕ → Play S (Unit {0})
  crack a w = elim (get_elem? w.devices a) [
    | none ↦ none
    | some d ↦ some (ok tt, record w { devices = set a (Wallet.crack_secure_element d) w.devices })
  ]

module _ {S : Type 0} ⦃x : Crates⦄ ⦃q : Rng S⦄ where
  -- the scenarios, each from the world that it opens on

  unfoldable pub partial_payment : Play S (Unit {0})
  partial_payment = do
    or_fail to_string (perform (Harness.fund 0 1000))
    or_fail (because (codes "6 € payment failed: ")) (perform (Harness.pay 0 1 600))
    alice ← see (balance_at 0)
    ensure (alice == 400) (text (codes "Alice should keep 4 €, has " ++ euros alice))
    bakery ← see (balance_at 1)
    ensure (bakery == 600) (text (codes "bakery should hold 6 €"))
    or_fail (because (codes "spending the 4 € left failed: ")) (perform (Harness.pay 0 2 400))
    alice ← see (balance_at 0)
    ensure (alice == 0) (text (codes "Alice should be empty"))
    kiosk ← see (balance_at 2)
    ensure (kiosk == 400) (text (codes "kiosk should hold 4 €"))

  unfoldable pub received_value : Play S (Unit {0})
  received_value = do
    or_fail to_string (perform (Harness.fund 0 1000))
    float ← see (λ w. some w.issuer.offline_float)
    or_fail to_string (perform (Harness.pay 0 1 600))
    or_fail (because (codes "bakery could not re-spend: ")) (perform (Harness.pay 1 2 500))
    or_fail (because (codes "supplier could not re-spend: ")) (perform (Harness.pay 2 0 200))
    total ← see (λ w. some (sum_u64 (map (λ d. Wallet.balance d) w.devices)))
    ensure (total == 1000)
        (text (codes "value not conserved: " ++ (euros total ++ codes " on devices")))
    later ← see (λ w. some w.issuer.offline_float)
    ensure (later == float) (text (codes "the issuer's view changed during offline payments"))

  unfoldable pub holding_limit : ℕ → Play S (Unit {0})
  holding_limit limit = do
    or_fail to_string (perform (Harness.fund 0 limit))
    or_fail to_string (perform (Harness.fund 1 (sub_u64 limit 100)))
    refused ← kept (perform (Harness.pay 0 1 200))
    expect_headroom refused
    alice ← see (balance_at 0)
    ensure (alice == limit) (text (codes "payer was debited anyway"))
    or_fail (because (codes "payment within headroom refused: ")) (perform (Harness.pay 0 1 100))
    bakery ← see (balance_at 1)
    ensure (bakery == limit) (text (codes "bakery should now be exactly at its limit"))

  -- what follows the funding of the next scenario
  abbrev pub exchange : Play S (Unit {0})
  exchange = do
    request ← or_fail to_string (call 1 (Wallet.request_payment 600))
    transfer ← or_fail to_string (call 0 (Wallet.pay request))
    inflated ← kept (call 1 (Wallet.receive (record transfer { amount_cents = 6000 })))
    ensure (is_invalid_signature inflated) (text (codes "an inflated transfer was not rejected"))
    other ← see (λ w. seen (λ d. Wallet.device d) (get_elem? w.devices 2))
    redirected ← kept (call 2 (Wallet.receive (record transfer { payee = other })))
    ensure (is_invalid_signature redirected) (text (codes "a redirected transfer was not rejected"))
    genuine ← kept (call 1 (Wallet.receive transfer))
    ensure (is_ok 600 genuine) (text (codes "the genuine transfer was not credited"))
    replayed ← kept (call 1 (Wallet.receive transfer))
    ensure (is_already_credited replayed) (text (codes "a replayed transfer was not refused"))
    payee ← see (balance_at 1)
    ensure (payee == 600) (text (codes "payee credited more than once"))

  unfoldable pub resist_replay : Play S (Unit {0})
  resist_replay = do or_fail to_string (perform (Harness.fund 0 1000)); exchange

  unfoldable pub round_trip : Play S (Unit {0})
  round_trip = do
    account ← see (λ w. get_elem? w.accounts 0)
    or_fail to_string (perform (Harness.fund 0 3000))
    order ← or_fail to_string (call 0 (Wallet.defund 1200))
    cashed ← kept (call_issuer (Issuer.defund order))
    ensure (is_ok 1200 cashed) (text (codes "defunding refused"))
    again ← kept (call_issuer (Issuer.defund order))
    ensure (is_replay again) (text (codes "a defunding order was cashed twice"))
    held ← see (λ w. some (Issuer.balance_of account w.issuer))
    ensure (held == some 8200)
        (text (codes "account should hold 82 €, holds " ++ debug_option held))
    float ← see (λ w. some w.issuer.offline_float)
    ensure (float == pos 1800) (text (codes "float should be 18 €"))

  unfoldable pub lost_device : Play S (Unit {0})
  lost_device = do
    account ← see (λ w. get_elem? w.accounts 0)
    or_fail to_string (perform (Harness.fund 0 4000))
    drop_devices
    held ← see (λ w. some (Issuer.balance_of account w.issuer))
    ensure (held == some 6000) (text (codes "the account was made whole"))
    float ← see (λ w. some w.issuer.offline_float)
    ensure (float == pos 4000) (text (codes "the lost value should stay counted as offline"))

  -- what follows the funding of the next scenario
  abbrev pub break_and_spend : Play S (Unit {0})
  break_and_spend = do
    crack 0
    or_fail (because (codes "payee 1 refused a genuine-looking transfer: "))
        (perform (Harness.pay 0 1 1000))
    or_fail (because (codes "payee 2 refused a genuine-looking transfer: "))
        (perform (Harness.pay 0 2 1000))
    first ← see (balance_at 1)
    second ← see (balance_at 2)
    ensure (add_u64 first second == 2000)
        (text (codes "expected 20 € in circulation from 10 € funded"))
    or_fail (because (codes "defunding refused: ")) (perform (Harness.defund 1 1000))
    or_fail (because (codes "defunding refused: ")) (perform (Harness.defund 2 1000))
    float ← see (λ w. some w.issuer.offline_float)
    ensure (float == negsuc 999) (text (codes "float should be -10 €, is " ++ decimal_int float))
    shown ← see (balance_at 0)
    ensure (shown == 1000) (text (codes "the cracked element should still show its 10 €"))

  unfoldable pub cracked_element : Play S (Unit {0})
  cracked_element = do or_fail to_string (perform (Harness.fund 0 1000)); break_and_spend

  unfoldable pub refused_payment : Option DeviceCertificate → Play S (Unit {0})
  refused_payment rogue_certificate = do
    or_fail to_string (perform (Harness.fund 0 500))
    refused ← kept (perform (Harness.pay 0 1 600))
    ensure (is_insufficient refused) (got (codes "expected InsufficientFunds, got ") refused)
    alice ← see (balance_at 0)
    ensure (alice == 500) (text (codes "payer was debited for a refused payment"))
    reserved ← see (λ w. seen (λ d. Wallet.reserved d) (get_elem? w.devices 1))
    ensure (reserved == 0) (text (codes "payee kept a reservation for a dead request"))
    request ← or_fail to_string (call 1 (Wallet.request_payment 100))
    rogue ← see (λ _. rogue_certificate)
    paid ← kept (call 0 (Wallet.pay (record request { payee = rogue })))
    ensure (is_invalid_certificate paid)
        (got_transfer (codes "expected InvalidCertificate, got ") paid)
    alice ← see (balance_at 0)
    ensure (alice == 500) (text (codes "payer paid an uncertified device"))
