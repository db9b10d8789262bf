-- ===== src/OfflinePayment.antt =====
-- examples/offline_payment.rs: the narrated run, with the lines that it prints.
pub mod Telling
pub mod Printing
pub mod Transcript
pub mod Counterfeit
pub mod Worlds
pub mod Whole
pub mod FourthDevice
use digital_euro_wallet.Prelude.{
  ℕ, suc, ◌+◌, ◌-◌, ◌/◌, ◌%◌, u64_modulus, add_u64, Option, none, some, List, [], ◌∷◌, ◌++◌, ok,
  err, codes, replicate, get_elem?, set,
}
use digital_euro_wallet.Prelude.Int.{ℤ, pos, negsuc, neg_part, pos_part, sub_i128, wrap_i128}
use digital_euro_wallet.Text.{Text, decimal, decimal02}
use digital_euro_wallet.Crates.{Crates, KeyCrates, Rng, BigRng, SeedableRng}
use digital_euro_wallet.Id
use digital_euro_wallet.Id.{AccountId}
use digital_euro_wallet.Error.{Result, display}
use digital_euro_wallet.Signature.Generation.{generate}
use digital_euro_wallet.Wallet
use digital_euro_wallet.Wallet.{Wallet}
use digital_euro_wallet.Issuer
use digital_euro_wallet.Issuer.{Issuer}
use digital_euro_wallet.Protocol
use digital_euro_wallet.Harness
use digital_euro_wallet.Harness.{World, perform, and_then}
use digital_euro_wallet.Harness.Opening.{expect, pushed}
use digital_euro_wallet.Harness.Play.{seen, balance_at}
use digital_euro_wallet.OfflinePayment.Telling.{
  Walk, ◌>>=◌, ◌>>◌, print, heading, expecting, looking, see, account, float, refusal, as_u64,
  euros, signed_euros,
}

abbrev pub key_bits : ℕ
key_bits = 2048

abbrev pub holding_limit : ℕ
holding_limit = 50000

-- what `main` prints before it generates a key
abbrev pub title : Text
title = codes "── the Eurosystem and three accounts"

-- the devices, in the order of their enrolment
abbrev pub alice : ℕ
alice = 0

abbrev pub bakery : ℕ
bakery = 1

abbrev pub mill : ℕ
mill = 2

abbrev pub mallory : ℕ
mallory = 3

module _ {R : Type 0} ⦃x : Crates⦄ ⦃g : Rng R⦄ where
  -- from the payment that is refused to the lost phone; `drop(alice)` leaves a device that is used no
  -- more
  abbrev pub overdrawing : AccountId → AccountId → Walk R (Unit {0})
  overdrawing alice_account mill_account = do
    heading (codes "── offline: Alice tries to spend 6 € again, with 4 € left")
    refused ← looking (perform (Harness.pay alice bakery 600))
    refusal refused
    held ← see (balance_at alice)
    print (codes "   phone still " ++ (euros held ++ codes ", nothing lost"))
    heading (codes "── offline: she spends the 4 € at the mill instead")
    expecting (perform (Harness.pay alice mill 400))
    held ← see (balance_at alice)
    ground ← see (balance_at mill)
    print (codes "   phone " ++ (euros held ++ (codes ", mill " ++ euros ground)))
    heading (codes "── defunding: the mill moves its takings back online")
    expecting (perform (Harness.defund mill 900))
    stored ← see (account mill_account)
    issued ← see float
    print
        (codes "   mill's account " ++ (euros stored ++ (codes ", float " ++ signed_euros issued)))
    heading (codes "── a lost phone")
    expecting (perform (Harness.fund alice 2000))
    print (codes "   20 € funded, then the phone is lost. There is no recovery:")
    stored ← see (account alice_account)
    issued ← see float
    print (
        codes "   Alice's account stays at "
        ++ (euros stored
            ++ (codes "; the 20 € stay counted in the float, now " ++ signed_euros issued)))

  -- from the first funding to the lost phone
  unfoldable pub honest : AccountId → AccountId → Walk R (Unit {0})
  honest alice_account mill_account = do
    heading (codes "── funding: Alice moves 10 € from her account onto her phone (online)")
    expecting (perform (Harness.fund alice 1000))
    stored ← see (account alice_account)
    held ← see (balance_at alice)
    print (codes "   account " ++ (euros stored ++ (codes ", phone " ++ euros held)))
    heading (codes "── offline: Alice buys bread for 6 €")
    expecting (perform (Harness.pay alice bakery 600))
    held ← see (balance_at alice)
    taken ← see (balance_at bakery)
    print (codes "   phone " ++ (euros held ++ (codes ", bakery " ++ euros taken)))
    print (codes "   nothing split, nothing sent back: 4 € simply stay on the phone")
    heading (codes "── offline: the bakery pays the mill 5 € out of what it just received")
    expecting (perform (Harness.pay bakery mill 500))
    taken ← see (balance_at bakery)
    ground ← see (balance_at mill)
    print (codes "   bakery " ++ (euros taken ++ (codes ", mill " ++ euros ground)))
    issued ← see float
    print (codes "   the issuer has seen none of this; its float is still " ++ signed_euros issued)
    overdrawing alice_account mill_account

  -- `mallory.crack_secure_element()`
  abbrev pub crack_mallory : Walk R (Unit {0})
  crack_mallory w = elim (get_elem? w.devices mallory) [
    | none ↦ none
    | some d ↦
        some (tt, [], record w { devices = set mallory (Wallet.crack_secure_element d) w.devices })
  ]

  -- from the cracking of the funded element to the end
  abbrev pub spend_twice : Walk R (Unit {0})
  spend_twice = do
    crack_mallory
    expecting (perform (Harness.pay mallory bakery 1000))
    expecting (perform (Harness.pay mallory mill 1000))
    print (codes "   10 € funded, paid out twice; both payees accepted genuine signatures")
    shown ← see (balance_at mallory)
    print (codes "   Mallory's phone still shows " ++ euros shown)
    takings ← see (balance_at bakery)
    expecting (perform (Harness.defund bakery takings))
    takings ← see (balance_at mill)
    expecting (perform (Harness.defund mill takings))
    left ← see (balance_at mallory)
    issued ← see float
    print (
        codes "   after the payees defund, the issuer's float is "
        ++ (signed_euros issued ++ codes " — positive, so"))
    print (codes "   from the issuer's side nothing looks wrong")
    print (
        codes "   but devices still hold "
        ++ (euros (add_u64 2000 left) ++ codes " (Alice's lost phone + Mallory's)"))
    print (
        codes "   "
        ++ (euros (as_u64 (sub_i128 (pos (add_u64 2000 left)) issued))
            ++ codes " was created out of nothing, and nothing on record says which"))
    print (codes "   device minted it: payments were never reported to anyone.")

  -- from the funding of the element that is then cracked to the end
  unfoldable pub spend_cracked : Walk R (Unit {0})
  spend_cracked = do expecting (perform (Harness.fund mallory 1000)); spend_twice

module _ {S : Type 0} ⦃x : Crates⦄ ⦃y : KeyCrates⦄ ⦃q : Rng S⦄ ⦃b : BigRng S⦄ ⦃s : SeedableRng S⦄
    (fuel tries : ℕ) where
  -- the closure `device` of `main`, and `new_mallory` after its account
  abbrev pub enrolled : AccountId → ℕ → World S → S → Option (Result (Wallet S) × Issuer × S)
  enrolled account seed w rng =
      Protocol.enrol fuel tries w.issuer account holding_limit key_bits (s.seed_from_u64 seed) rng

  -- the three accounts, and then their devices
  unfoldable pub three_accounts : AccountId → AccountId → AccountId → Option (World S)
  three_accounts a b m =
      and_then (generate fuel tries key_bits (s.seed_from_u64 2026)) (λ (key, rng).
        let issuer =
          Issuer.open_account m 0
            (Issuer.open_account b 0 (Issuer.open_account a 5000 (Issuer.new key))) in
        let w : World S = record { issuer = issuer; accounts = []; devices = [] } in
        expect (enrolled a 1 w rng) (λ phone issuer rng.
          let w = pushed w a phone issuer in
          expect (enrolled b 2 w rng) (λ till issuer rng.
            let w = pushed w b till issuer in
            expect (enrolled m 3 w rng) (λ device issuer rng. some (pushed w m device issuer)))))

  -- the three pseudonyms and the limit
  unfoldable pub introduction : Walk S (Unit {0})
  introduction = do
    phone ← see (λ w. seen (λ d. Wallet.device d) (get_elem? w.devices alice))
    till ← see (λ w. seen (λ d. Wallet.device d) (get_elem? w.devices bakery))
    third ← see (λ w. seen (λ d. Wallet.device d) (get_elem? w.devices mill))
    print (codes "   Alice's phone: device " ++ Id.short phone.bytes)
    print (codes "   bakery till:   device " ++ Id.short till.bytes)
    print (codes "   flour mill:    device " ++ Id.short third.bytes)
    print (codes "   holding limit: " ++ (euros holding_limit ++ codes " per device"))

  unfoldable pub new_mallory : Walk S (Unit {0})
  new_mallory w =
      let id : AccountId = record { bytes = replicate 16 0xdd } in
      let w = record w { issuer = Issuer.open_account id 1000 w.issuer } in
      expect (enrolled id 4 w (s.seed_from_u64 666))
        (λ device issuer rng. some (tt, [], pushed w id device issuer))

  -- `main`, from the devices on
  unfoldable pub narrated : AccountId → AccountId → Walk S (Unit {0})
  narrated alice_account mill_account = do
    introduction
    honest alice_account mill_account
    heading (codes "── a cracked secure element")
    new_mallory
    spend_cracked

  -- `main`: what it prints, and the world at its end; the title stands before the enrolments, and a
  -- panic leaves no lines
  unfoldable pub offline_payment : Option (List Text × World S)
  offline_payment =
      let a : AccountId = record { bytes = replicate 16 0xa1 } in
      let b : AccountId = record { bytes = replicate 16 0xb2 } in
      let m : AccountId = record { bytes = replicate 16 0xc3 } in
      and_then (three_accounts a b m)
        (λ w. and_then (narrated a m w) (λ (_, lines, w). some (title ∷ lines, w)))
