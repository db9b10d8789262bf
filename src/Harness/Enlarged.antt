-- ===== src/Harness/Enlarged.antt =====
-- A sound world of src/main.rs once an account is opened, and once a device is enrolled for it.
use digital_euro_wallet.Prelude.{
  ℕ, suc, ◌+◌, ◌<◌, ◌≡◌, ◌≢◌, ◌∙◌, refl, ap, sym, List, [], ◌∷◌, ◌++◌, some, arith, sum, map,
  length, length-append, get_elem?, u64_modulus, pair_eq, list_eq, nat_eq,
}
use digital_euro_wallet.Prelude.Int.{pos}
use digital_euro_wallet.HashMap
use digital_euro_wallet.Crates.{Crates, Rng, AreDocumented}
use digital_euro_wallet.Id.{AccountId, account_eq, device_eq}
use digital_euro_wallet.Signature.{Keypair}
use digital_euro_wallet.Signature.RoundTrip.{IsKeypair}
use digital_euro_wallet.Wallet
use digital_euro_wallet.Wallet.{Wallet}
use digital_euro_wallet.Protocol.Enrolment.{new_wallet}
use digital_euro_wallet.Harness.{World}
use digital_euro_wallet.Harness.Members.{AreUnused}
use digital_euro_wallet.Harness.Membership.{AreMembers}
use digital_euro_wallet.Harness.Ledger.{Ledger, ledger_of, unspent}
use digital_euro_wallet.Harness.Stands.{Stands}
use digital_euro_wallet.Harness.Grown.{
  IsWellDrawn, joined, opened, opened-AreMembers, opened-ledger, grown, grown-ledger,
  grown-AreMembers,
}
use mathlib.Core.List.{map-append}

sum-joined : (vs : List ℕ) (v : ℕ) → sum (vs ++ (v ∷ [])) ≡ sum vs + v
sum-joined [] v = omega arith
sum-joined (u ∷ us) v = omega (arith, sum-joined us v)

sum_of_zeros : (vs : List ℕ) → sum (map (λ _. 0) vs) ≡ 0
sum_of_zeros [] = refl
sum_of_zeros (v ∷ vs) = omega (arith, sum_of_zeros vs)

length-map {ℓ κ} :
    {T : Type ℓ} {U : Type κ} (f : T → U) (xs : List T) → length (map f xs) ≡ length xs
length-map f [] = refl
length-map f (x ∷ xs) = omega (arith, length-map f xs)

joined-unspent :
    (deposits : List ℕ) (balance : ℕ)
    → joined balance (unspent deposits) ≡ unspent (deposits ++ (balance ∷ []))
joined-unspent deposits balance =
    let zero_of : ℕ → ℕ = λ _. 0 in cc (map-append zero_of deposits (balance ∷ []))

module _ {S : Type 0} ⦃x : Crates⦄ ⦃q : Rng S⦄ where
  -- Before any operation: all members, nothing on a device, `deposits` in the accounts.
  pub record IsOpening (k limit : ℕ) (deposits : List ℕ) (w : World S) : Type 0 where
    pub members : AreMembers k limit w.issuer w.accounts w.devices
    pub float : w.issuer.offline_float ≡ pos 0
    pub ledger : ledger_of w ≡ unspent deposits
    pub no_nonces : w.issuer.funding_nonces ≡ []
    pub issuer_key : IsKeypair w.issuer.keypair

  pub IsOpening-Stands :
      {k limit : ℕ} {deposits : List ℕ} {w : World S}
      → IsOpening k limit deposits w
      → sum deposits < u64_modulus
      → Stands k limit (sum deposits) (length deposits) (unspent deposits) w
  IsOpening-Stands {deposits} {w} h fits =
      let empty : sum (ledger_of w).balances ≡ 0 =
        ap (λ l. sum l.balances) h.ledger ∙ sum_of_zeros deposits in
      let supply : sum (ledger_of w).deposits ≡ sum deposits = ap (λ l. sum l.deposits) h.ledger in
      let size : length (map (λ d. Wallet.balance d) w.devices) ≡ length deposits =
        ap (λ l. length l.balances) h.ledger ∙ length-map (λ _. 0) deposits in
      record {
        sound = record {
          members = h.members;
          float = h.float ∙ ap pos (sym empty);
          supply = omega (arith, supply, empty);
          money_fits = fits;
        };
        size = sym (length-map (λ d. Wallet.balance d) w.devices) ∙ size;
        ledger = h.ledger;
      }

  module _ {k limit : ℕ} (w : World S) (account : AccountId) (balance : ℕ)
      (unlisted : (b : ℕ) → get_elem? w.accounts b ≢ some account) where
    pub opened-IsOpening :
        {deposits : List ℕ}
        → IsOpening k limit deposits w
        → IsOpening k limit deposits (opened w account balance unlisted)
    opened-IsOpening h = record {
      members = opened-AreMembers w account balance unlisted h.members;
      float = h.float;
      ledger = opened-ledger w account balance unlisted ∙ h.ledger;
      no_nonces = h.no_nonces;
      issuer_key = h.issuer_key;
    }

    pub opened-Stands :
        {money n : ℕ} {l : Ledger}
        → Stands k limit money n l w
        → Stands k limit money n l (opened w account balance unlisted)
    opened-Stands h =
        let same = opened-ledger w account balance unlisted in
        record {
          sound = record {
            members = opened-AreMembers w account balance unlisted h.sound.members;
            float = h.sound.float;
            supply = ap (λ l. sum l.deposits + sum l.balances) same ∙ h.sound.supply;
            money_fits = h.sound.money_fits;
          };
          size = h.size;
          ledger = same ∙ h.ledger;
        }

  module _ (k limit : ℕ) (w : World S) (doc : AreDocumented x)
      (issuer_key : IsKeypair w.issuer.keypair) (key : Keypair) (account : AccountId) (balance : ℕ)
      (device_rng rng : S) (own_key : IsKeypair key) (limit_fits : limit < u64_modulus)
      (k_fits : k < u64_modulus)
      (known : HashMap.get account w.issuer.accounts ≡ some balance) where
    abbrev after : World S
    after =
        grown k limit w doc issuer_key key account balance device_rng rng own_key limit_fits k_fits
          known

    abbrev newest : Wallet S
    newest = new_wallet key w.issuer account limit device_rng rng

    same_ledger : ledger_of after ≡ joined balance (ledger_of w)
    same_ledger =
        grown-ledger k limit w doc issuer_key key account balance device_rng rng own_key limit_fits
          k_fits known

    pub grown-IsOpening :
        {deposits : List ℕ}
        → IsOpening k limit deposits w
        → IsWellDrawn k after
        → IsOpening k limit (deposits ++ (balance ∷ [])) after
    unfolding HashMap.get
    grown-IsOpening {deposits} h distinct = record {
      members =
          grown-AreMembers k limit w doc issuer_key key account balance device_rng rng own_key
            limit_fits k_fits known h.members distinct (λ j _. rw h.no_nonces refl);
      float = h.float;
      ledger = same_ledger ∙ ap (joined balance) h.ledger ∙ joined-unspent deposits balance;
      no_nonces = h.no_nonces;
      issuer_key = h.issuer_key;
    }

    pub grown-Stands :
        {money n : ℕ} {l : Ledger}
        → Stands k limit money n l w
        → money + balance < u64_modulus
        → IsWellDrawn k after
        → AreUnused k newest w.issuer
        → Stands k limit (money + balance) (suc n) (joined balance l) after
    grown-Stands h fits distinct unused =
        let held_same : sum (ledger_of after).balances ≡ sum (ledger_of w).balances =
          omega
            (arith, ap (λ l. sum l.balances) same_ledger, sum-joined (ledger_of w).balances 0) in
        let total : sum (ledger_of after).deposits ≡ sum (ledger_of w).deposits + balance =
          ap (λ l. sum l.deposits) same_ledger ∙ sum-joined (ledger_of w).deposits balance in
        record {
          sound = record {
            members =
                grown-AreMembers k limit w doc issuer_key key account balance device_rng rng own_key
                  limit_fits k_fits known h.sound.members distinct unused;
            float = h.sound.float ∙ ap pos (sym held_same);
            supply = omega (arith, h.sound.supply, held_same, total);
            money_fits = fits;
          };
          size = omega (arith, length-append w.devices (newest ∷ []), h.size);
          ledger = same_ledger ∙ ap (joined balance) h.ledger;
        }
