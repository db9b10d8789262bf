-- ===== src/Harness/Supply.antt =====
-- The value on the devices and in the accounts of the world of src/main.rs, as mathematical sums.
use digital_euro_wallet.Prelude.{
  ℕ, zero, suc, ◌+◌, ◌≤◌, ◌≡◌, ◌≢◌, List, [], ◌∷◌, ◌++◌, some, refl, sym, ap, arith, get_elem?, set,
  sum, map,
}
use digital_euro_wallet.HashMap
use digital_euro_wallet.HashMap.{HashMap}
use digital_euro_wallet.HashMap.Laws.{get-insert_ne, get-insert_self}
use digital_euro_wallet.Id.{AccountId, account_eq}
use digital_euro_wallet.Wallet.{Wallet}
use digital_euro_wallet.Harness.{unwrap_or}

module _ {R : Type 0} where
  abbrev pub held : List (Wallet R) → ℕ
  held devices = sum (map (λ d. d.balance_cents) devices)

  pub held-set :
      (a : ℕ) (d d' : Wallet R) (devices : List (Wallet R))
      → get_elem? devices a ≡ some d
      → held (set a d' devices) + d.balance_cents ≡ held devices + d'.balance_cents
  held-set a d d' [] h = ground arith
  held-set zero d d' (e ∷ devices) h = ground arith
  held-set (suc a) d d' (e ∷ devices) h = omega (arith, held-set a d d' devices h)

  pub balance-le-held :
      (a : ℕ) (d : Wallet R) (devices : List (Wallet R))
      → get_elem? devices a ≡ some d
      → d.balance_cents ≤ held devices
  balance-le-held a d [] h = ground arith
  balance-le-held zero d (e ∷ devices) h = ground arith
  balance-le-held (suc a) d (e ∷ devices) h = omega (arith, balance-le-held a d devices h)

abbrev pub stored : HashMap AccountId ℕ → AccountId → ℕ
stored m account = unwrap_or (HashMap.get account m) 0

abbrev pub deposited : HashMap AccountId ℕ → List AccountId → ℕ
deposited m accounts = sum (map (stored m) accounts)

module _ (account : AccountId) (v : ℕ) (m : HashMap AccountId ℕ) where
  pub stored-insert_ne :
      (other : AccountId)
      → account ≢ other
      → stored (HashMap.insert account v m) other ≡ stored m other
  stored-insert_ne other ne = rw (get-insert_ne account other v m ne) refl

  pub deposited-absent :
      (accounts : List AccountId)
      → ((b : ℕ) → get_elem? accounts b ≢ some account)
      → deposited (HashMap.insert account v m) accounts ≡ deposited m accounts
  deposited-absent [] h = refl
  deposited-absent (other ∷ accounts) h = omega (
    arith,
    stored-insert_ne other (λ e. h zero (ap some (sym e))),
    deposited-absent accounts (λ b. h (suc b)),
  )

  -- A new balance of an account that is listed once.
  pub deposited-insert :
      (a old : ℕ) (accounts : List AccountId)
      → get_elem? accounts a ≡ some account
      → ((b : ℕ) → get_elem? accounts b ≡ some account → a ≡ b)
      → HashMap.get account m ≡ some old
      → deposited (HashMap.insert account v m) accounts + old ≡ deposited m accounts + v
  deposited-insert a old [] h once at = ground arith
  deposited-insert zero old (other ∷ accounts) h once at = ground (
    arith,
    get-insert_self account v m,
    deposited-absent accounts (λ b e. absurd (omega (arith, once (suc b) e))),
  )
  deposited-insert (suc a) old (other ∷ accounts) h once at = omega (
    arith,
    stored-insert_ne other (λ e. absurd (omega (arith, once zero (ap some (sym e))))),
    deposited-insert a old accounts h (λ b e. omega (arith, once (suc b) e)) at,
  )

module _ (account : AccountId) (m : HashMap AccountId ℕ) where
  -- The account is part of the sum.
  pub stored-le-deposited :
      (a old : ℕ) (accounts : List AccountId)
      → get_elem? accounts a ≡ some account
      → HashMap.get account m ≡ some old
      → old ≤ deposited m accounts
  stored-le-deposited a old [] h at = ground arith
  stored-le-deposited zero old (other ∷ accounts) h at = ground arith
  stored-le-deposited (suc a) old (other ∷ accounts) h at =
      omega (arith, stored-le-deposited a old accounts h at)

pub sum-append :
    {T : Type 0} (f : T → ℕ) (xs : List T) (a : T)
    → sum (map f (xs ++ (a ∷ []))) ≡ sum (map f xs) + f a
sum-append f [] a = omega arith
sum-append f (x ∷ xs) a = omega (arith, sum-append f xs a)
