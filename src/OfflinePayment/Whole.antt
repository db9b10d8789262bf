-- ===== src/OfflinePayment/Whole.antt =====
-- examples/offline_payment.rs as a whole: all that `main` prints.
use digital_euro_wallet.Prelude.{
  some-injective, ℕ, zero, suc, pair_eq, list_eq, nat_eq, ◌<◌, ◌≡◌, ◌≢◌, ◌∙◌, refl, ap, List, [],
  ◌∷◌, ◌++◌, some, arith, codes, get_elem?, replicate, sum,
}
use digital_euro_wallet.Crates.{Crates, KeyCrates, Rng, BigRng, SeedableRng, AreDocumented}
use digital_euro_wallet.Text
use digital_euro_wallet.Text.{Text}
use digital_euro_wallet.Id
use digital_euro_wallet.Id.{AccountId, DeviceId, device_eq}
use digital_euro_wallet.HashMap
use digital_euro_wallet.Signature.{Keypair}
use digital_euro_wallet.Signature.Generation.{generate}
use digital_euro_wallet.Signature.Generated.{IsKeySource}
use digital_euro_wallet.Wallet
use digital_euro_wallet.Wallet.{Wallet}
use digital_euro_wallet.Harness.{World}
use digital_euro_wallet.Harness.Members.{nonce_at}
use digital_euro_wallet.Harness.Kept.{IsStranger, IsStranger-kept}
use digital_euro_wallet.Harness.Stands.{device-Stands}
use digital_euro_wallet.Harness.Grown.{IsWellDrawn}
use digital_euro_wallet.Harness.Enlarged.{IsOpening-Stands}
use digital_euro_wallet.OfflinePayment.Telling.{Walk, ◌>>◌, heading, euros}
use digital_euro_wallet.OfflinePayment.{
  holding_limit, key_bits, title, three_accounts, introduction, new_mallory, honest, spend_cracked,
  narrated, offline_payment,
}
use digital_euro_wallet.OfflinePayment.Printing.{Prints, Left, prints, heads, reads, ends, follows}
use digital_euro_wallet.OfflinePayment.Transcript.{honest_lines, honest-Prints}
use digital_euro_wallet.OfflinePayment.Counterfeit.{cracked_lines, Minted, spend_cracked-Prints}
use digital_euro_wallet.OfflinePayment.Worlds.{three_accounts-IsOpening}
use digital_euro_wallet.OfflinePayment.FourthDevice.{mallory_account, new_mallory-Stands}

abbrev pub alice_account : AccountId
alice_account = record { bytes = replicate 16 0xa1 }

abbrev pub bakery_account : AccountId
bakery_account = record { bytes = replicate 16 0xb2 }

abbrev pub mill_account : AccountId
mill_account = record { bytes = replicate 16 0xc3 }

bytes_differ : {a c : AccountId} → a ≡ c → sum a.bytes ≡ sum c.bytes
bytes_differ e = ap (λ (a : AccountId). sum a.bytes) e

mallory_unlisted :
    (a : ℕ)
    → get_elem? (alice_account ∷ bakery_account ∷ mill_account ∷ []) a ≢ some mallory_account
mallory_unlisted zero e = omega (arith, bytes_differ (some-injective e))
mallory_unlisted (suc zero) e = omega (arith, bytes_differ (some-injective e))
mallory_unlisted (suc (suc zero)) e = omega (arith, bytes_differ (some-injective e))
mallory_unlisted (suc (suc (suc a))) e = ground (arith, e)

-- what `main` prints between the enrolments and the first funding
abbrev joined : DeviceId → DeviceId → DeviceId → List Text
joined phone till mill =
    (codes "   Alice's phone: device " ++ Id.short phone.bytes)
    ∷ (codes "   bakery till:   device " ++ Id.short till.bytes)
    ∷ (codes "   flour mill:    device " ++ Id.short mill.bytes)
    ∷ codes "   holding limit: 500.00 € per device"
    ∷ []

-- what `main` prints before the first funding
abbrev pub introduced : DeviceId → DeviceId → DeviceId → List Text
introduced phone till mill = codes "── the Eurosystem and three accounts" ∷ joined phone till mill

-- what it prints from there on
abbrev pub told : List Text
told = honest_lines ++ ([] ∷ codes "── a cracked secure element" ∷ cracked_lines)

module _ {S : Type 0} ⦃x : Crates⦄ ⦃y : KeyCrates⦄ ⦃q : Rng S⦄ ⦃b : BigRng S⦄ ⦃s : SeedableRng S⦄
    (fuel tries : ℕ) where
  introduction-Prints :
      (w : World S) (d e f : Wallet S)
      → get_elem? w.devices 0 ≡ some d
      → get_elem? w.devices 1 ≡ some e
      → get_elem? w.devices 2 ≡ some f
      → Prints
          (λ w'. w' ≡ w)
          (introduction {S = S} fuel tries)
          w
          (joined (Wallet.device d) (Wallet.device e) (Wallet.device f))
  unfolding introduction euros Text.decimal Text.decimal02 Text.digits
  introduction-Prints w d e f d_at e_at f_at = reads _ _ (Wallet.device d) (rw d_at refl) (
      reads _ _ (Wallet.device e) (rw e_at refl) (
        reads _ _ (Wallet.device f) (rw f_at refl)
          (prints _ _ _ refl (prints _ _ _ refl (prints _ _ _ refl (ends _ _ _ refl refl))))))

  -- The walk after the devices, from what its parts do.
  narrated-Prints :
      (w w1 w2 : World S) (d e f : Wallet S)
      → get_elem? w.devices 0 ≡ some d
      → get_elem? w.devices 1 ≡ some e
      → get_elem? w.devices 2 ≡ some f
      → honest alice_account mill_account w ≡ some (tt, honest_lines, w1)
      → new_mallory fuel tries w1 ≡ some (tt, [], w2)
      → Prints Minted spend_cracked w2 cracked_lines
      → Prints Minted
          (narrated fuel tries alice_account mill_account)
          w
          (joined (Wallet.device d) (Wallet.device e) (Wallet.device f) ++ told)
  unfolding narrated
  narrated-Prints w w1 w2 d e f d_at e_at f_at went joins rest =
      let (w', introduces, same) = introduction-Prints w d e f d_at e_at f_at in
      let starts : introduction fuel tries w
          ≡ some (tt, joined (Wallet.device d) (Wallet.device e) (Wallet.device f), w) =
        rw same at introduces in
      let last : Walk S (Unit {0}) = new_mallory fuel tries >> spend_cracked in
      let cracking : Walk S (Unit {0}) = heading (codes "── a cracked secure element") >> last in
      follows {w = w} (introduction fuel tries) (honest alice_account mill_account >> cracking) w _
        starts
        (follows {w = w} (honest alice_account mill_account) cracking w1 honest_lines went (
          heads {w = w1} (codes "── a cracked secure element") last
            (follows {w = w1} (new_mallory fuel tries) spend_cracked w2 [] joins rest)))

  runs :
      (w w3 : World S) (lines : List Text)
      → three_accounts fuel tries alice_account bakery_account mill_account ≡ some w
      → narrated fuel tries alice_account mill_account w ≡ some (tt, lines, w3)
      → offline_payment fuel tries ≡ some (title ∷ lines, w3)
  unfolding offline_payment
  runs w w3 lines opens tells = rw (opens, tells) refl

  -- The narrated run as a whole: once the three devices are enrolled and the key of the fourth is
  -- generated, with primes from the search for primes, no account, pseudonym or nonce drawn twice, and
  -- the pseudonym and the nonces of the fourth new too, `main` panics nowhere, prints the introduction
  -- with the devices' pseudonyms and then exactly `told`, and ends with a float of 10 €, 20 € still
  -- shown by the phone of Alice and 10 € by the cracked one.
  pub offline_payment-Prints :
      (doc : AreDocumented x) (source : IsKeySource S tries) (w : World S) (key : Keypair) (rng : S)
      → three_accounts fuel tries alice_account bakery_account mill_account ≡ some w
      → IsWellDrawn 11 w
      → generate fuel tries key_bits (s.seed_from_u64 666) ≡ some (key, rng)
      → IsStranger (record { bytes = (q.gen_bytes16 rng).0 }) w
      → ((a c : ℕ)
          → a < 4
          → c < 4
          → nonce_at a (s.seed_from_u64 4) ≡ nonce_at c (s.seed_from_u64 4)
          → a ≡ c)
      → (d : Wallet S) × (e : Wallet S) × (f : Wallet S) × (w' : World S) × (get_elem? w.devices 0
          ≡ some d)
        × (get_elem? w.devices 1 ≡ some e)
        × (get_elem? w.devices 2 ≡ some f)
        × (offline_payment fuel tries
            ≡ some (introduced (Wallet.device d) (Wallet.device e) (Wallet.device f) ++ told, w'))
        × Minted w'
  unfolding HashMap.get
  offline_payment-Prints doc source w key rng opens drawn made stranger nonces =
      let id : DeviceId = record { bytes = (q.gen_bytes16 rng).0 } in
      let (opening, accounts) =
        three_accounts-IsOpening fuel tries doc source 11 (omega arith) alice_account bakery_account
          mill_account w (λ same. omega (arith, bytes_differ same))
          (λ same. omega (arith, bytes_differ same)) (λ same. omega (arith, bytes_differ same))
          opens drawn in
      let h : Left holding_limit 5000 11 (0 ∷ 0 ∷ 0 ∷ []) (5000 ∷ 0 ∷ 0 ∷ []) w =
        IsOpening-Stands opening (omega arith) in
      let (d, _, d_at, _, _) = device-Stands 0 h (omega arith) in
      let (e, _, e_at, _, _) = device-Stands 1 h (omega arith) in
      let (f, _, f_at, _, _) = device-Stands 2 h (omega arith) in
      let (w1, goes, (h1, kept)) =
        honest-Prints {k = 4} {w = w} doc alice_account mill_account (omega arith)
          (ap (λ l. get_elem? l 0) accounts) (ap (λ l. get_elem? l 2) accounts) h in
      let (w2, joins, h2) =
        new_mallory-Stands fuel tries doc source w1 (omega arith) (omega arith)
          (rw kept.keypair opening.issuer_key) h1 key rng made
          (IsStranger-kept w w1 id kept.pseudonyms stranger)
          (λ a. rw (kept.accounts, accounts) (mallory_unlisted a)) nonces
          (λ nonce.
            kept.other_nonces id nonce stranger
            ∙ ap (λ m. HashMap.get (id, nonce) m) opening.no_nonces) in
      let (w3, tells, minted) =
        narrated-Prints w w1 w2 d e f d_at e_at f_at goes joins
          (spend_cracked-Prints doc (omega arith) h2) in
      (d, e, f, w3, d_at, e_at, f_at, runs w w3 _ opens tells, minted)
