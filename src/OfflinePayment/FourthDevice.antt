-- ===== src/OfflinePayment/FourthDevice.antt =====
-- The fourth device of examples/offline_payment.rs, `new_mallory`.
use digital_euro_wallet.Prelude.{
  ℕ, suc, ◌+◌, ◌<◌, ◌≡◌, ◌≢◌, ◌∙◌, refl, ap, [], none, some, ok, arith, get_elem?, u64_modulus,
  replicate,
}
use digital_euro_wallet.Crates.{Crates, KeyCrates, Rng, BigRng, SeedableRng, AreDocumented}
use digital_euro_wallet.Id.{AccountId}
use digital_euro_wallet.Signature.{Keypair}
use digital_euro_wallet.Protocol.Enrolment.{new_wallet, registered, install_known}
use digital_euro_wallet.HashMap
use digital_euro_wallet.HashMap.Laws.{get-insert_self}
use digital_euro_wallet.Id.{account_eq, device_eq}
use digital_euro_wallet.Prelude.{Bytes, pair_eq, list_eq, nat_eq}
use digital_euro_wallet.Signature.Generation.{generate}
use digital_euro_wallet.Harness.Kept.{IsStranger}
use digital_euro_wallet.Harness.Stranger.{pushed-IsWellDrawn}
use digital_euro_wallet.Signature.RoundTrip.{IsKeypair}
use digital_euro_wallet.Signature.Generated.{IsKeySource}
use digital_euro_wallet.Wallet.{Wallet}
use digital_euro_wallet.Issuer
use digital_euro_wallet.Issuer.{Issuer}
use digital_euro_wallet.Harness.{World}
use digital_euro_wallet.Harness.Opening.{pushed}
use digital_euro_wallet.Harness.Ledger.{Ledger}
use digital_euro_wallet.Harness.Members.{nonce_at, AreUnused}
use digital_euro_wallet.Harness.Stands.{Stands}
use digital_euro_wallet.Harness.Grown.{IsWellDrawn, joined, opened, opened-stored}
use digital_euro_wallet.Harness.Enlarged.{opened-Stands}
use digital_euro_wallet.Harness.Joins.{enrol-Stands}
use digital_euro_wallet.Harness.Turns.{generated-installs, last-unlisted}
use digital_euro_wallet.OfflinePayment.{holding_limit, key_bits, enrolled, new_mallory}

abbrev pub mallory_account : AccountId
mallory_account = record { bytes = replicate 16 0xdd }

module _ {S : Type 0} ⦃x : Crates⦄ ⦃y : KeyCrates⦄ ⦃q : Rng S⦄ ⦃b : BigRng S⦄ ⦃s : SeedableRng S⦄
    (fuel tries : ℕ) where
  module _ (doc : AreDocumented x) (w : World S) (issuer_key : IsKeypair w.issuer.keypair)
      (key : Keypair) (rng : S)
      (made : generate fuel tries key_bits (s.seed_from_u64 666) ≡ some (key, rng)) where
    abbrev account_opened : World S
    account_opened = record w { issuer = Issuer.open_account mallory_account 1000 w.issuer }

    abbrev pub mallory_wallet : Wallet S
    mallory_wallet =
        new_wallet key account_opened.issuer mallory_account holding_limit (s.seed_from_u64 4) rng

    abbrev pub issuer_after : Issuer
    issuer_after =
        registered key account_opened.issuer mallory_account holding_limit (s.seed_from_u64 4) rng

    enrols :
        enrolled fuel tries mallory_account 4 account_opened (s.seed_from_u64 666)
        ≡ some (ok mallory_wallet, issuer_after, (q.gen_bytes16 rng).1)
    unfolding Issuer.open_account
    enrols =
        let issuer = account_opened.issuer in
        generated-installs fuel tries holding_limit key_bits issuer mallory_account
          (s.seed_from_u64 4) (s.seed_from_u64 666) rng key made
        ∙ ap some (
            install_known key issuer mallory_account holding_limit (s.seed_from_u64 4) rng doc
              issuer_key 1000 (get-insert_self mallory_account 1000 w.issuer.accounts))

    pub new_mallory-joins :
        new_mallory fuel tries w
        ≡ some (tt, [], pushed w mallory_account mallory_wallet issuer_after)
    unfolding new_mallory
    new_mallory-joins = rw enrols refl

  module _ (doc : AreDocumented x) (source : IsKeySource S tries) where
    module _ {k money n : ℕ} {l : Ledger} (w : World S) (k_fits : k < u64_modulus)
        (fits : money + 1000 < u64_modulus) (issuer_key : IsKeypair w.issuer.keypair)
        (h : Stands k holding_limit money n l w) where
      enrolled-Stands :
          (d : Wallet S) (i : Issuer) (g : S)
          → enrolled fuel tries mallory_account 4
              (record w { issuer = Issuer.open_account mallory_account 1000 w.issuer })
              (s.seed_from_u64 666)
            ≡ some (ok d, i, g)
          → IsWellDrawn k (pushed w mallory_account d i)
          → AreUnused k d w.issuer
          → Stands k holding_limit
              (money + 1000)
              (suc n)
              (joined 1000 l)
              (pushed w mallory_account d i)
      unfolding Issuer.open_account
      enrolled-Stands d i g made distinct unused =
          let unlisted = last-unlisted w mallory_account d i distinct in
          enrol-Stands tries doc source fuel holding_limit key_bits k (omega arith) k_fits
            (opened w mallory_account 1000 unlisted) mallory_account 1000
            (opened-stored w mallory_account 1000 unlisted) (s.seed_from_u64 4)
            (s.seed_from_u64 666) g d i made issuer_key distinct
            (opened-Stands w mallory_account 1000 unlisted h) fits unused

      -- It enrols, when its key is generated and neither its pseudonym nor its account nor one of its
      -- next nonces is there already.
      pub new_mallory-Stands :
          (key : Keypair) (rng : S)
          → generate fuel tries key_bits (s.seed_from_u64 666) ≡ some (key, rng)
          → IsStranger (record { bytes = (q.gen_bytes16 rng).0 }) w
          → ((a : ℕ) → get_elem? w.accounts a ≢ some mallory_account)
          → ((a c : ℕ)
              → a < k
              → c < k
              → nonce_at a (s.seed_from_u64 4) ≡ nonce_at c (s.seed_from_u64 4)
              → a ≡ c)
          → ((nonce : Bytes)
              → HashMap.get
                  (record { bytes = (q.gen_bytes16 rng).0 }, nonce)
                  w.issuer.funding_nonces
                ≡ none)
          → (w' : World S) × (new_mallory fuel tries w ≡ some (tt, [], w'))
            × Stands k holding_limit (money + 1000) (suc n) (joined 1000 l) w'
      new_mallory-Stands key rng made stranger unlisted nonces unused =
          let d = mallory_wallet doc w issuer_key key rng made in
          let i = issuer_after doc w issuer_key key rng made in
          let drawn =
            pushed-IsWellDrawn w mallory_account d i h.sound.members stranger unlisted nonces in
          (
            pushed w mallory_account d i,
            new_mallory-joins doc w issuer_key key rng made,
            enrolled-Stands d i (q.gen_bytes16 rng).1 (enrols doc w issuer_key key rng made) drawn
                (λ j _. unused (nonce_at j d.rng)),
          )
