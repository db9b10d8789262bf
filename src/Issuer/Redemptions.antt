-- ===== src/Issuer/Redemptions.antt =====
-- When the issuer cashes a defunding order, and what it then does.
use digital_euro_wallet.Prelude.{
  ℕ, ◌≤◌, ◌<◌, ◌≡◌, ◌∙◌, sym, ap, true, some, inl, inr, arith, ok, err, nat_eq, list_eq, add_u64,
  Option-cases,
}
use digital_euro_wallet.Prelude.Int.{pos, sub_i128}
use digital_euro_wallet.HashMap
use digital_euro_wallet.HashMap.Laws.{get-insert_self}
use digital_euro_wallet.Crates.{Crates}
use digital_euro_wallet.Error.{Error, replay}
use digital_euro_wallet.Id.{account_eq, device_eq}
use digital_euro_wallet.Signature
use digital_euro_wallet.Message.Defunding
use digital_euro_wallet.Message.Defunding.{Defunding}
use digital_euro_wallet.Issuer
use digital_euro_wallet.Issuer.{Issuer, DeviceRecord}

module _ ⦃x : Crates⦄ where
  -- What an order needs to be cashed, against the issuer's entry for its device and the balance of
  -- the account behind it.
  pub record IsCashable (order : Defunding) (entry : DeviceRecord) (balance : ℕ) (i : Issuer)
      : Type 0 where
    pub known : HashMap.get order.device i.devices ≡ some entry
    pub signed : Signature.verify entry.public_key (Defunding.digest order) order.signature ≡ true
    pub newer : entry.last_defunding_counter < order.counter
    pub account_open : HashMap.get entry.account i.accounts ≡ some balance

  -- the issuer's books after a defunding
  abbrev pub cashed : Defunding → DeviceRecord → ℕ → Issuer → Issuer
  cashed order entry balance i = record i {
    accounts = HashMap.insert entry.account (add_u64 balance order.amount_cents) i.accounts;
    offline_float = sub_i128 i.offline_float (pos order.amount_cents);
    devices =
        HashMap.insert order.device (record entry { last_defunding_counter = order.counter })
          i.devices;
  }

  pub defund-cashable :
      (order : Defunding) (entry : DeviceRecord) (balance : ℕ) (i : Issuer)
      → IsCashable order entry balance i
      → Issuer.defund order i ≡ (ok order.amount_cents, cashed order entry balance i)
  unfolding Issuer.defund
  defund-cashable order entry balance i h = ground (arith, h)

  pub defund-IsCashable :
      (order : Defunding) (i i' : Issuer) (amount_cents : ℕ)
      → Issuer.defund order i ≡ (ok amount_cents, i')
      → (entry : DeviceRecord) × (balance : ℕ) × IsCashable order entry balance i
  unfolding Issuer.defund
  defund-IsCashable order i i' amount_cents e =
      elim (Option-cases (HashMap.get order.device i.devices)) [
        | inl unknown ↦ absurd (ground arith)
        | inr (entry, known) ↦ elim (Option-cases (HashMap.get entry.account i.accounts)) [
          | inl closed ↦ absurd (ground arith)
          | inr (balance, account_open) ↦ (entry, balance, ground arith)
        ]
      ]

  pub defund_refused :
      (order : Defunding) (i : Issuer) (error : Error)
      → (Issuer.defund order i).0 ≡ err error
      → (Issuer.defund order i).1 ≡ i
  unfolding Issuer.defund
  defund_refused order i error e = ground arith

  -- An order that is not newer than what the device has cashed is refused as a replay.
  pub defund_outdated :
      (order : Defunding) (entry : DeviceRecord) (i : Issuer)
      → HashMap.get order.device i.devices ≡ some entry
      → Signature.verify entry.public_key (Defunding.digest order) order.signature ≡ true
      → order.counter ≤ entry.last_defunding_counter
      → Issuer.defund order i ≡ (err replay, i)
  unfolding Issuer.defund
  defund_outdated order entry i known signed old = ground arith

  -- An order that has just been cashed is refused as a replay.
  pub defund_replayed :
      (order : Defunding) (i i' : Issuer) (amount_cents : ℕ)
      → Issuer.defund order i ≡ (ok amount_cents, i')
      → Issuer.defund order i' ≡ (err replay, i')
  defund_replayed order i i' amount_cents e =
      let (entry, balance, h) = defund-IsCashable order i i' amount_cents e in
      let entry' : DeviceRecord = record entry { last_defunding_counter = order.counter } in
      let done : cashed order entry balance i ≡ i' =
        ap (λ r. r.1) (sym (defund-cashable order entry balance i h) ∙ e) in
      rw done at (
        defund_outdated order entry' (cashed order entry balance i)
          (get-insert_self order.device entry' i.devices) h.signed (omega arith))
