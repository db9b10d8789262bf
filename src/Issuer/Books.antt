-- ===== src/Issuer/Books.antt =====
-- The issuer's books over any sequence of calls: what it owes in accounts, and the offline float.
use digital_euro_wallet.Prelude.{
  ℕ, ◌+◌, ◌-◌, ◌^◌, ◌≤◌, ◌<◌, ◌≡◌, refl, ap, none, List, [], ◌∷◌, arith, ok, StdResult-cases,
  nat_eq, list_eq, add_u64, add_u64_exact, u64_modulus,
}
use digital_euro_wallet.Prelude.Int.{
  ℤ, pos, negsuc, pos_part, neg_part, add_i128, sub_i128, wrap_i128_exact, +ℤ_parts, -ℤ_parts, ◌+ℤ◌,
  ◌-ℤ◌, IsI128,
}
use native.Mathlib.Nat
use digital_euro_wallet.HashMap
use digital_euro_wallet.HashMap.Sums.{total, total-insert, get-le-total}
use digital_euro_wallet.Crates.{Crates, Rng}
use digital_euro_wallet.Id.{AccountId, account_eq, device_eq}
use digital_euro_wallet.Signature.{PublicKey, Keypair}
use digital_euro_wallet.Message.FundingRequest.{FundingRequest}
use digital_euro_wallet.Message.Defunding.{Defunding}
use digital_euro_wallet.Issuer
use digital_euro_wallet.Issuer.{Issuer, DeviceRecord}
use digital_euro_wallet.Issuer.Grants.{
  IsGrantable, granted, fund-grantable, fund-IsGrantable, fund_refused,
}
use digital_euro_wallet.Issuer.Redemptions.{
  IsCashable, cashed, defund-cashable, defund-IsCashable, defund_refused,
}
use digital_euro_wallet.Issuer.History.{Call, open_account, certify_device, fund, defund, step, run}

-- The accounts and the float, which may be below zero, make up the money.
abbrev pub IsBalanced : ℕ → Issuer → Type 0
IsBalanced money i = total i.accounts + pos_part i.offline_float ≡ money + neg_part i.offline_float

-- a float that balances is far inside 128 bits
float_bounds :
    (money owed : ℕ) (float : ℤ)
    → owed + pos_part float ≡ money + neg_part float
    → (pos_part float ≤ money) × (neg_part float ≤ owed)
float_bounds money owed (pos n) h = (omega (arith, h), omega (arith, h))
float_bounds money owed (negsuc n) h = (omega (arith, h), omega (arith, h))

-- the float after an addition or a subtraction that stays inside
float_added :
    (float : ℤ) (a : ℕ)
    → pos_part float + a < 2 ^ 127
    → neg_part float ≤ 2 ^ 127
    → pos_part (add_i128 float (pos a)) + neg_part float
      ≡ neg_part (add_i128 float (pos a)) + pos_part float + a
unfolding add_i128 ◌+ℤ◌
float_added float a high low =
    let inside : IsI128 (float +ℤ pos a) = ground (arith, high, low) in
    rw (wrap_i128_exact (float +ℤ pos a) inside) (omega (arith, +ℤ_parts float (pos a)))

float_taken :
    (float : ℤ) (a : ℕ)
    → pos_part float < 2 ^ 127
    → neg_part float + a ≤ 2 ^ 127
    → pos_part (sub_i128 float (pos a)) + neg_part float + a
      ≡ neg_part (sub_i128 float (pos a)) + pos_part float
unfolding sub_i128 ◌-ℤ◌
float_taken float a high low =
    let inside : IsI128 (float -ℤ pos a) = ground (arith, high, low) in
    rw (wrap_i128_exact (float -ℤ pos a) inside) (omega (arith, -ℤ_parts float (pos a)))

module _ ⦃x : Crates⦄ (money : ℕ) (i : Issuer) (h : IsBalanced money i)
    (money_fits : money < u64_modulus) where
  granted-IsBalanced :
      (request : FundingRequest) (entry : DeviceRecord) (balance : ℕ)
      → IsGrantable request entry balance i
      → total i.accounts < u64_modulus
      → IsBalanced money (granted request entry balance i)
        × (total (granted request entry balance i).accounts ≤ total i.accounts)
  granted-IsBalanced request entry balance g fits =
      let (high, low) = float_bounds money (total i.accounts) i.offline_float h in
      let below = get-le-total entry.account i.accounts balance g.account_open in
      let sums = total-insert entry.account (balance - request.amount_cents) i.accounts in
      let moved =
        float_added i.offline_float request.amount_cents
          (omega (arith, high, money_fits, below, fits, g.covered)) (omega (arith, low, fits)) in
      ground (arith, h, sums, moved, below, g)

  cashed-IsBalanced :
      (order : Defunding) (entry : DeviceRecord) (balance : ℕ)
      → IsCashable order entry balance i
      → total i.accounts + order.amount_cents < u64_modulus
      → IsBalanced money (cashed order entry balance i)
        × (total (cashed order entry balance i).accounts ≤ total i.accounts + order.amount_cents)
  cashed-IsBalanced order entry balance c fits =
      let (high, low) = float_bounds money (total i.accounts) i.offline_float h in
      let below = get-le-total entry.account i.accounts balance c.account_open in
      let exact = add_u64_exact balance order.amount_cents (omega (arith, below, fits)) in
      let sums = total-insert entry.account (add_u64 balance order.amount_cents) i.accounts in
      let moved =
        float_taken i.offline_float order.amount_cents (omega (arith, high, money_fits))
          (omega (arith, low, fits)) in
      ground (arith, h, sums, moved, below, exact, c)

  fund-IsBalanced :
      (request : FundingRequest)
      → total i.accounts < u64_modulus
      → IsBalanced money (Issuer.fund request i).1
        × (total (Issuer.fund request i).1.accounts ≤ total i.accounts)
  fund-IsBalanced request fits =
      let i' = (Issuer.fund request i).1 in
      StdResult-cases
        (λ r.
          (Issuer.fund request i).0 ≡ r
          → IsBalanced money i' × (total i'.accounts ≤ total i.accounts))
        (Issuer.fund request i).0
        (λ f e.
          let whole : Issuer.fund request i ≡ (ok f, i') = ap (λ r. (r, i')) e in
          let (entry, balance, g) = fund-IsGrantable request i i' f whole in
          rw (ap (λ p. p.1) (fund-grantable request entry balance i g))
            (granted-IsBalanced request entry balance g fits))
        (λ error e. rw (fund_refused request i error e) (h, omega arith)) refl

  defund-IsBalanced :
      (order : Defunding)
      → total i.accounts + order.amount_cents < u64_modulus
      → IsBalanced money (Issuer.defund order i).1
        × (total (Issuer.defund order i).1.accounts ≤ total i.accounts + order.amount_cents)
  defund-IsBalanced order fits =
      let i' = (Issuer.defund order i).1 in
      StdResult-cases
        (λ r.
          (Issuer.defund order i).0 ≡ r
          → IsBalanced money i' × (total i'.accounts ≤ total i.accounts + order.amount_cents))
        (Issuer.defund order i).0
        (λ v e.
          let whole : Issuer.defund order i ≡ (ok v, i') = ap (λ r. (r, i')) e in
          let (entry, balance, c) = defund-IsCashable order i i' v whole in
          rw (ap (λ p. p.1) (defund-cashable order entry balance i c))
            (cashed-IsBalanced order entry balance c fits))
        (λ error e. rw (defund_refused order i error e) (h, omega arith)) refl

-- the balances that the calls open accounts with
abbrev pub opened : List Call → ℕ
opened [] = 0
opened (open_account account balance ∷ cs) = balance + opened cs
opened (_ ∷ cs) = opened cs

-- all that the calls can put into accounts
abbrev pub incoming : List Call → ℕ
incoming [] = 0
incoming (open_account account balance ∷ cs) = balance + incoming cs
incoming (defund order ∷ cs) = order.amount_cents + incoming cs
incoming (_ ∷ cs) = incoming cs

opened-le : (cs : List Call) → opened cs ≤ incoming cs
opened-le [] = omega arith
opened-le (open_account account balance ∷ cs) = omega (arith, opened-le cs)
opened-le (certify_device account key limit ∷ cs) = opened-le cs
opened-le (fund request ∷ cs) = opened-le cs
opened-le (defund order ∷ cs) = omega (arith, opened-le cs)

module _ {G : Type 0} ⦃x : Crates⦄ ⦃g : Rng G⦄ where
  -- No call opens an account that is open already.
  abbrev pub OpensNew : List Call → Issuer × G → Type 0
  OpensNew [] s = Unit
  OpensNew (open_account account balance ∷ cs) s =
      (HashMap.get account s.0.accounts ≡ none)
      × OpensNew cs (step (open_account account balance) s)
  OpensNew (c ∷ cs) s = OpensNew cs (step c s)

  certify_device-books :
      (account : AccountId) (key : PublicKey) (limit : ℕ) (s : Issuer × G)
      → let i' = (Issuer.certify_device account key limit s).1.0 in
        (i'.accounts ≡ s.0.accounts) × (i'.offline_float ≡ s.0.offline_float)
  unfolding Issuer.certify_device
  certify_device-books account key limit s = ground arith

  run-IsBalanced :
      (cs : List Call) (s : Issuer × G) (money : ℕ)
      → IsBalanced money s.0
      → OpensNew cs s
      → total s.0.accounts + incoming cs < u64_modulus
      → money + opened cs < u64_modulus
      → IsBalanced (money + opened cs) (run cs s).0
  unfolding run step Issuer.open_account Issuer.certify_device
  run-IsBalanced [] s money h fresh fits money_fits = rw Nat.add-zero h
  run-IsBalanced (open_account account balance ∷ cs) s money h (absent, fresh) fits money_fits =
      let grown : total (HashMap.insert account balance s.0.accounts)
          ≡ total s.0.accounts + balance =
        ground (arith, total-insert account balance s.0.accounts, absent) in
      rw (← Nat.add_assoc money balance (opened cs)) (
        run-IsBalanced cs (step (open_account account balance) s) (money + balance)
          (omega (arith, grown, h)) fresh (omega (arith, grown, fits)) (omega (arith, money_fits)))
  run-IsBalanced (certify_device account key limit ∷ cs) s money h fresh fits money_fits =
      let same = certify_device-books account key limit s in
      run-IsBalanced cs (step (certify_device account key limit) s) money (rw (same.0, same.1) h)
        fresh (rw same.0 fits) money_fits
  run-IsBalanced (fund request ∷ cs) (i, rng) money h fresh fits money_fits =
      let (h', less) =
        fund-IsBalanced money i h (omega (arith, money_fits)) request (omega (arith, fits)) in
      run-IsBalanced cs (step (fund request) (i, rng)) money h' fresh (omega (arith, less, fits))
        money_fits
  run-IsBalanced (defund order ∷ cs) (i, rng) money h fresh fits money_fits =
      let (h', less) =
        defund-IsBalanced money i h (omega (arith, money_fits)) order (omega (arith, fits)) in
      run-IsBalanced cs (step (defund order) (i, rng)) money h' fresh (omega (arith, less, fits))
        money_fits

  -- The books of a new issuer, after any sequence of calls that opens no account twice: what is in the
  -- accounts and the float, which may be below zero, add up to the balances that accounts were opened
  -- with, when these and the amounts of the defunding orders come to less than 2^64 cents. It does
  -- not matter who made requests and orders, and which were refused.
  pub books-balance :
      (keypair : Keypair) (cs : List Call) (rng : G)
      → OpensNew cs (Issuer.new keypair, rng)
      → incoming cs < u64_modulus
      → let i = (run cs (Issuer.new keypair, rng)).0 in
        total i.accounts + pos_part i.offline_float ≡ opened cs + neg_part i.offline_float
  unfolding Issuer.new
  books-balance keypair cs rng fresh fits =
      let balanced =
        run-IsBalanced cs (Issuer.new keypair, rng) 0 refl fresh (omega (arith, fits))
          (omega (arith, opened-le cs, fits)) in
      omega (arith, balanced)
