-- ===== src/Harness/Joins.antt =====
-- A sound world of src/main.rs once `enrol` has made one more device for it.
use digital_euro_wallet.Prelude.{
  ℕ, suc, ◌+◌, ◌<◌, ◌≡◌, ◌∙◌, ap, sym, List, [], ◌∷◌, ◌++◌, some, ok, arith, u64_modulus, pair_eq,
  list_eq, nat_eq,
}
use mathlib.Core.Path.{subst}
use digital_euro_wallet.HashMap
use digital_euro_wallet.Crates.{Crates, KeyCrates, Rng, BigRng, AreDocumented}
use digital_euro_wallet.Id.{AccountId, account_eq, device_eq}
use digital_euro_wallet.Error.{Result}
use digital_euro_wallet.Signature.RoundTrip.{IsKeypair}
use digital_euro_wallet.Signature.Generated.{IsKeySource, generate-IsKeypair}
use digital_euro_wallet.Wallet.{Wallet}
use digital_euro_wallet.Issuer.{Issuer}
use digital_euro_wallet.Protocol
use digital_euro_wallet.Protocol.Enrolment.{new_wallet, install_known}
use digital_euro_wallet.Harness.{World}
use digital_euro_wallet.Harness.Opening.{pushed}
use digital_euro_wallet.Harness.Members.{AreUnused}
use digital_euro_wallet.Harness.Ledger.{Ledger}
use digital_euro_wallet.Harness.Stands.{Stands}
use digital_euro_wallet.Harness.Grown.{IsWellDrawn, joined, grown}
use digital_euro_wallet.Harness.Enlarged.{IsOpening, grown-IsOpening, grown-Stands}
use digital_euro_wallet.Harness.Turns.{pushed-eq, enrol-installs}

wallet-eq :
    {S : Type 0} (d d' : Wallet S) (i i' : Issuer) (g g' : S)
    → Path (Result (Wallet S) × Issuer × S) (ok d, i, g) (ok d', i', g')
    → d ≡ d'
wallet-eq d d' i i' g g' e = ground (arith, e)

issuer-eq :
    {S : Type 0} (d d' : Wallet S) (i i' : Issuer) (g g' : S)
    → Path (Result (Wallet S) × Issuer × S) (ok d, i, g) (ok d', i', g')
    → i ≡ i'
issuer-eq d d' i i' g g' e = ground (arith, e)

module _ {S : Type 0} ⦃x : Crates⦄ ⦃y : KeyCrates⦄ ⦃q : Rng S⦄ ⦃b : BigRng S⦄ (tries : ℕ)
    (doc : AreDocumented x) (source : IsKeySource S tries) where
  module _ (fuel limit key_bits k : ℕ) (limit_fits : limit < u64_modulus) (k_fits : k < u64_modulus)
      (w : World S) (account : AccountId) (balance : ℕ)
      (known : HashMap.get account w.issuer.accounts ≡ some balance) (device_rng rng g : S)
      (d : Wallet S) (i : Issuer)
      (enrolled : Protocol.enrol fuel tries w.issuer account limit key_bits device_rng rng
        ≡ some (ok d, i, g)) where
    -- No account changes.
    pub enrol-accounts : IsKeypair w.issuer.keypair → i.accounts ≡ w.issuer.accounts
    enrol-accounts issuer_key =
        let (key, rng_k, made, installed) =
          enrol-installs fuel tries limit key_bits w.issuer i account device_rng rng g d enrolled in
        let done =
          install_known key w.issuer account limit device_rng rng_k doc issuer_key balance known in
        ap (λ i. i.accounts) (issuer-eq _ _ _ _ _ _ (sym installed ∙ done))

    pub enrol-IsOpening :
        {deposits : List ℕ}
        → IsWellDrawn k (pushed w account d i)
        → IsOpening k limit deposits w
        → IsOpening k limit (deposits ++ (balance ∷ [])) (pushed w account d i)
    enrol-IsOpening distinct h =
        let (key, rng_k, made, installed) =
          enrol-installs fuel tries limit key_bits w.issuer i account device_rng rng g d enrolled in
        let done =
          install_known key w.issuer account limit device_rng rng_k doc h.issuer_key balance
            known in
        let (own_key, _, _) = generate-IsKeypair tries source fuel key_bits rng key rng_k made in
        let w' =
          grown k limit w doc h.issuer_key key account balance device_rng rng_k own_key limit_fits
            k_fits known in
        let same : pushed w account d i ≡ w' =
          pushed-eq w account _ _ _ _ _ _ (sym installed ∙ done) in
        rw same (
          grown-IsOpening k limit w doc h.issuer_key key account balance device_rng rng_k own_key
            limit_fits k_fits known h (rw (← same) distinct))

    -- Also where value is on the devices, when no nonce of the new device was used.
    pub enrol-Stands :
        {money n : ℕ} {l : Ledger} (issuer_key : IsKeypair w.issuer.keypair)
        → IsWellDrawn k (pushed w account d i)
        → Stands k limit money n l w
        → money + balance < u64_modulus
        → AreUnused k d w.issuer
        → Stands k limit (money + balance) (suc n) (joined balance l) (pushed w account d i)
    enrol-Stands issuer_key distinct h fits unused =
        let (key, rng_k, made, installed) =
          enrol-installs fuel tries limit key_bits w.issuer i account device_rng rng g d enrolled in
        let done =
          install_known key w.issuer account limit device_rng rng_k doc issuer_key balance known in
        let (own_key, _, _) = generate-IsKeypair tries source fuel key_bits rng key rng_k made in
        let w' =
          grown k limit w doc issuer_key key account balance device_rng rng_k own_key limit_fits
            k_fits known in
        let newest : Wallet S = new_wallet key w.issuer account limit device_rng rng_k in
        let same_device : d ≡ newest = wallet-eq _ _ _ _ _ _ (sym installed ∙ done) in
        let same : pushed w account d i ≡ w' =
          pushed-eq w account _ _ _ _ _ _ (sym installed ∙ done) in
        rw same (
          grown-Stands k limit w doc issuer_key key account balance device_rng rng_k own_key
            limit_fits k_fits known h fits (rw (← same) distinct)
            (subst (λ d. AreUnused k d w.issuer) same_device unused))
