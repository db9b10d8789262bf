-- ===== src/Harness/Scenarios/Funded.antt =====
-- The first step of the scenarios of src/main.rs, a funding of the first device, in full.
use digital_euro_wallet.Prelude.{
  ℕ, suc, ◌≤◌, ◌<◌, ◌≡◌, ◌∙◌, refl, sym, ap, Option, some, List, ◌∷◌, arith, ok, get_elem?, set,
}
use digital_euro_wallet.Id.{account_eq}
use digital_euro_wallet.Crates.{Crates, Rng, AreDocumented}
use digital_euro_wallet.Wallet.{Wallet}
use digital_euro_wallet.Wallet.Topup.{signed_request}
use digital_euro_wallet.Issuer
use digital_euro_wallet.Issuer.Grants.{granted}
use digital_euro_wallet.Protocol.Funding.{funded, topup, fund-eq-topup}
use digital_euro_wallet.Harness
use digital_euro_wallet.Harness.{World, perform}
use digital_euro_wallet.Harness.Ledger.{Ledger, settle, unspent}
use digital_euro_wallet.Harness.Steps.{
  settled_at, perform-fund, member-headroom, member-IsFreshFunding,
}
use digital_euro_wallet.Harness.Kept.{Keeps}
use digital_euro_wallet.Harness.Stands.{
  Stands, perform-Stands, IsMember-Stands, balance-Stands, stored-Stands,
}

second_same :
    {S T : Type 0} (t : T) (u v : S) → Path (Option (T × S)) (some (t, u)) (some (t, v)) → u ≡ v
second_same t u v e = ground (arith, e)

module _ {R : Type 0} ⦃x : Crates⦄ ⦃g : Rng R⦄ {k limit money n : ℕ} {w : World R} where
  -- The first device of a world with `first` in its account is funded, and nothing else on a device
  -- changes.
  pub first_funded :
      (doc : AreDocumented x) (first v : ℕ) (deposits : List ℕ) (l' : Ledger) (d : Wallet R)
      → Stands (suc k) limit money (suc n) (unspent (suc first ∷ deposits)) w
      → get_elem? w.devices 0 ≡ some d
      → 0 < v
      → v ≤ limit
      → v ≤ suc first
      → settle limit (Harness.fund 0 v) (unspent (suc first ∷ deposits)) ≡ (ok v, l')
      → (w' : World R) × (perform (Harness.fund 0 v) w ≡ some (ok v, w'))
        × Stands k limit money (suc n) l' w'
        × Keeps w w'
        × (w'.devices ≡ set 0 (funded v d) w.devices)
  unfolding Issuer.balance_of
  first_funded doc first v deposits l' d h at positive room covered settled =
      let (w', e, h', keeps) =
        perform-Stands doc (Harness.fund 0 v) (ok v) l' h (omega arith) settled in
      let (account, account_at, m) = IsMember-Stands 0 d h at in
      let empty = balance-Stands 0 0 d h at refl in
      let stored = stored-Stands 0 account first h account_at refl in
      let deposit : m.balance ≡ suc first =
        ground (arith, stored, m.own_account, m.enrolled.account_open) in
      let whole : topup d w.issuer m.entry m.balance v
          ≡ (ok v, funded v d, granted (signed_request v d) m.entry m.balance w.issuer) =
        ground (arith, deposit, positive, room, covered, empty, member-headroom m) in
      let direct =
        perform-fund 0 v w d at
        ∙ ap (settled_at 0 w) (
            fund-eq-topup doc d w.issuer m.entry m.balance v m.enrolled (member-IsFreshFunding m)
            ∙ whole) in
      (w', e, h', keeps, ap (λ u. u.devices) (second_same (ok v) w' _ (sym e ∙ direct)))
