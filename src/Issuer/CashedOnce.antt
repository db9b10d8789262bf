-- ===== src/Issuer/CashedOnce.antt =====
-- A defunding counter of a device is cashed once, over any sequence of calls.
use digital_euro_wallet.Prelude.{
  ℕ, ◌≤◌, ◌<◌, ◌≡◌, ◌≢◌, ap, inl, inr, Option, none, some, List, [], ◌∷◌, arith, ok, nat_eq,
  list_eq, Option-cases,
}
use digital_euro_wallet.HashMap
use digital_euro_wallet.HashMap.Laws.{get-insert, get-insert_self}
use digital_euro_wallet.Crates.{Crates, Rng}
use digital_euro_wallet.Id.{AccountId, DeviceId, device_eq, account_eq, device_same_iff}
use digital_euro_wallet.Signature.{PublicKey}
use digital_euro_wallet.Message.FundingRequest.{FundingRequest}
use digital_euro_wallet.Message.Defunding.{Defunding}
use digital_euro_wallet.Issuer
use digital_euro_wallet.Issuer.{Issuer, DeviceRecord}
use digital_euro_wallet.Issuer.Redemptions.{defund-IsCashable, defund-cashable}
use digital_euro_wallet.Issuer.History.{Call, open_account, certify_device, fund, defund, step, run}

-- The entry of a device has cashed a counter of at least `n`.
abbrev AtLeast : ℕ → Option DeviceRecord → Type 0
AtLeast n none = ⊥
AtLeast n (some entry) = n ≤ entry.last_defunding_counter

module _ ⦃x : Crates⦄ where
  cashed-counter :
      (order : Defunding) (i i' : Issuer) (amount_cents : ℕ)
      → Issuer.defund order i ≡ (ok amount_cents, i')
      → AtLeast order.counter (HashMap.get order.device i'.devices)
  cashed-counter order i i' amount_cents e =
      let (entry, balance, h) = defund-IsCashable order i i' amount_cents e in
      let entry' : DeviceRecord = record entry { last_defunding_counter = order.counter } in
      ground (
        arith,
        defund-cashable order entry balance i h,
        get-insert_self order.device entry' i.devices,
      )

  -- an order that is cashed has a counter above those that were
  cashable-newer :
      (order : Defunding) (i : Issuer) (amount_cents n : ℕ)
      → (Issuer.defund order i).0 ≡ ok amount_cents
      → AtLeast n (HashMap.get order.device i.devices)
      → n < order.counter
  cashable-newer order i amount_cents n e least =
      let i' = (Issuer.defund order i).1 in
      let (entry, _, h) = defund-IsCashable order i i' amount_cents (ap (λ r. (r, i')) e) in
      ground (arith, h)

module _ {G : Type 0} ⦃x : Crates⦄ ⦃g : Rng G⦄ where
  -- No certification of the history draws the identifier of this device.
  abbrev pub Avoids : DeviceId → List Call → Issuer × G → Type 0
  Avoids device [] s = Unit
  Avoids device (certify_device account key limit ∷ cs) s =
      ((g.gen_bytes16 s.1).0 ≢ device.bytes)
      × Avoids device cs (step (certify_device account key limit) s)
  Avoids device (open_account account balance ∷ cs) s =
      Avoids device cs (step (open_account account balance) s)
  Avoids device (fund request ∷ cs) s = Avoids device cs (step (fund request) s)
  Avoids device (defund order ∷ cs) s = Avoids device cs (step (defund order) s)

  certify-counter :
      (account : AccountId) (key : PublicKey) (limit n : ℕ) (s : Issuer × G) (device : DeviceId)
      → (g.gen_bytes16 s.1).0 ≢ device.bytes
      → AtLeast n (HashMap.get device s.0.devices)
      → AtLeast n (HashMap.get device (step (certify_device account key limit) s).0.devices)
  unfolding step Issuer.certify_device
  certify-counter account key limit n s device other h =
      let drawn : DeviceId = record { bytes = (g.gen_bytes16 s.1).0 } in
      let entry : DeviceRecord = record {
        account = account;
        public_key = key;
        last_defunding_counter = 0;
      } in
      ground (arith, get-insert drawn device entry s.0.devices, device_same_iff drawn device)

  open_account-counter :
      (account : AccountId) (balance n : ℕ) (s : Issuer × G) (device : DeviceId)
      → AtLeast n (HashMap.get device s.0.devices)
      → AtLeast n (HashMap.get device (step (open_account account balance) s).0.devices)
  unfolding step Issuer.open_account
  open_account-counter account balance n s device h = h

  fund-counter :
      (request : FundingRequest) (n : ℕ) (s : Issuer × G) (device : DeviceId)
      → AtLeast n (HashMap.get device s.0.devices)
      → AtLeast n (HashMap.get device (step (fund request) s).0.devices)
  unfolding step Issuer.fund
  fund-counter request n s device h = ground arith

  defund-counter :
      (order : Defunding) (n : ℕ) (s : Issuer × G) (device : DeviceId)
      → AtLeast n (HashMap.get device s.0.devices)
      → AtLeast n (HashMap.get device (step (defund order) s).0.devices)
  unfolding step Issuer.defund
  defund-counter order n s device h = elim (Option-cases (HashMap.get order.device s.0.devices)) [
    | inl unknown ↦ ground arith
    | inr (entry, known) ↦
        let entry' : DeviceRecord = record entry { last_defunding_counter = order.counter } in
        ground (
          arith,
          get-insert order.device device entry' s.0.devices,
          device_same_iff order.device device,
        )
  ]

  step-counter :
      (c : Call) (cs : List Call) (n : ℕ) (s : Issuer × G) (device : DeviceId)
      → Avoids device (c ∷ cs) s
      → AtLeast n (HashMap.get device s.0.devices)
      → Avoids device cs (step c s) × AtLeast n (HashMap.get device (step c s).0.devices)
  step-counter (open_account account balance) cs n s device av h =
      (av, open_account-counter account balance n s device h)
  step-counter (certify_device account key limit) cs n s device av h =
      (av.1, certify-counter account key limit n s device av.0 h)
  step-counter (fund request) cs n s device av h = (av, fund-counter request n s device h)
  step-counter (defund order) cs n s device av h = (av, defund-counter order n s device h)

  run-counter :
      (cs : List Call) (n : ℕ) (s : Issuer × G) (device : DeviceId)
      → Avoids device cs s
      → AtLeast n (HashMap.get device s.0.devices)
      → AtLeast n (HashMap.get device (run cs s).0.devices)
  unfolding run
  run-counter [] n s device av h = h
  run-counter (c ∷ cs) n s device av h =
      let (av', h') = step-counter c cs n s device av h in run-counter cs n (step c s) device av' h'

  -- Once a defunding order has been cashed, then after any further calls in which its device is not
  -- certified anew, no order of that device with the same or a lower counter is cashed.
  pub cashed_once :
      (order order' : Defunding) (i i' : Issuer) (rng : G) (amount amount' : ℕ) (cs : List Call)
      → Issuer.defund order i ≡ (ok amount, i')
      → Avoids order.device cs (i', rng)
      → order'.device ≡ order.device
      → order'.counter ≤ order.counter
      → (Issuer.defund order' (run cs (i', rng)).0).0 ≢ ok amount'
  cashed_once order order' i i' rng amount amount' cs e av same_device older again =
      let after = (run cs (i', rng)).0 in
      let least =
        run-counter cs order.counter (i', rng) order.device av
          (cashed-counter order i i' amount e) in
      absurd (
        omega
          (arith, cashable-newer order' after amount' order.counter again (rw same_device least)))
