-- ===== src/Harness/Ledger.antt =====
-- What the devices and the issuer of src/main.rs promise together: a row of balances and a row of
-- deposits, with no keys, messages, nonces or counters.
use digital_euro_wallet.Prelude.{
  ℕ, zero, suc, ◌+◌, ◌-◌, ◌≡◌, ◌≢◌, refl, ap, sym, Option, none, some, List, [], ◌∷◌, ok, err,
  arith, ltb, nat_same, if◌then◌else◌, get_elem?, set, map,
}
use digital_euro_wallet.HashMap
use digital_euro_wallet.HashMap.{HashMap}
use digital_euro_wallet.HashMap.Laws.{get-insert_self}
use digital_euro_wallet.Error.{
  Error, Result, zero_amount, holding_limit_exceeded, insufficient_funds,
}
use digital_euro_wallet.Id.{AccountId, account_eq}
use digital_euro_wallet.Wallet
use digital_euro_wallet.Wallet.{Wallet}
use digital_euro_wallet.Harness
use digital_euro_wallet.Harness.{World, Operation, unwrap_or}
use digital_euro_wallet.Harness.Supply.{stored, stored-insert_ne}

pub record Ledger : Type 0 where
  pub balances : List ℕ
  pub deposits : List ℕ

-- The refusal of an amount that comes first, if any, for a room to receive it and a cover to take
-- it from.
abbrev pub refusal : ℕ → ℕ → ℕ → Option Error
refusal room cover amount =
    if nat_same amount 0
    then some zero_amount
    else if ltb room amount
    then some (holding_limit_exceeded amount room)
    else if ltb cover amount
    then some (insufficient_funds amount cover)
    else none

-- an order to an account, where there is always room
abbrev pub refusal_online : ℕ → ℕ → Option Error
refusal_online cover amount =
    if nat_same amount 0
    then some zero_amount
    else if ltb cover amount
    then some (insufficient_funds amount cover)
    else none

abbrev pub at : ℕ → List ℕ → ℕ
at i xs = unwrap_or (get_elem? xs i) 0

abbrev pub raise : ℕ → ℕ → List ℕ → List ℕ
raise i v xs = set i (at i xs + v) xs

abbrev pub lower : ℕ → ℕ → List ℕ → List ℕ
lower i v xs = set i (at i xs - v) xs

abbrev pub settle_if : Option Error → ℕ → Ledger → Ledger → Result ℕ × Ledger
settle_if none amount moved l = (ok amount, moved)
settle_if (some e) amount moved l = (err e, l)

-- What an operation does, under a holding limit.
unfoldable pub settle : ℕ → Operation → Ledger → Result ℕ × Ledger
settle limit (Harness.fund a amount) l =
    settle_if (refusal (limit - at a l.balances) (at a l.deposits) amount) amount
      (record { balances = raise a amount l.balances; deposits = lower a amount l.deposits }) l
settle limit (Harness.defund a amount) l =
    settle_if (refusal_online (at a l.balances) amount) amount
      (record { balances = lower a amount l.balances; deposits = raise a amount l.deposits }) l
settle limit (Harness.pay a b amount) l =
    settle_if (refusal (limit - at b l.balances) (at a l.balances) amount) amount
      (record l { balances = raise b amount (lower a amount l.balances) }) l

-- nothing on any device
abbrev pub unspent : List ℕ → Ledger
unspent deposits = record { balances = map (λ _. 0) deposits; deposits = deposits }

abbrev pub ledger_of : {R : Type 0} → World R → Ledger
ledger_of w = record {
  balances = map (λ d. Wallet.balance d) w.devices;
  deposits = map (stored w.issuer.accounts) w.accounts;
}

module _ {ℓ κ} {S : Type ℓ} {T : Type κ} (f : S → T) where
  pub get_elem?-map :
      (xs : List S) (i : ℕ) (s : S) → get_elem? xs i ≡ some s → get_elem? (map f xs) i ≡ some (f s)
  get_elem?-map [] i s h = ground arith
  get_elem?-map (x ∷ xs) zero s h = ground (arith, h)
  get_elem?-map (x ∷ xs) (suc i) s h = get_elem?-map xs i s h

  pub map-set : (xs : List S) (i : ℕ) (s : S) → map f (set i s xs) ≡ set i (f s) (map f xs)
  map-set [] i s = refl
  map-set (x ∷ xs) zero s = refl
  map-set (x ∷ xs) (suc i) s = ap (λ ys. f x ∷ ys) (map-set xs i s)

module _ (account : AccountId) (v : ℕ) (m : HashMap AccountId ℕ) where
  pub stored-absent :
      (accounts : List AccountId)
      → ((b : ℕ) → get_elem? accounts b ≢ some account)
      → map (stored (HashMap.insert account v m)) accounts ≡ map (stored m) accounts
  stored-absent [] h = refl
  stored-absent (other ∷ accounts) h = cc (
    stored-insert_ne account v m other (λ e. h zero (ap some (sym e))),
    stored-absent accounts (λ b. h (suc b)),
  )

  -- A new balance of an account that is listed once changes its place only.
  pub stored-set :
      (a : ℕ) (accounts : List AccountId)
      → get_elem? accounts a ≡ some account
      → ((b : ℕ) → get_elem? accounts b ≡ some account → a ≡ b)
      → map (stored (HashMap.insert account v m)) accounts ≡ set a v (map (stored m) accounts)
  stored-set a [] h once = refl
  stored-set zero (other ∷ accounts) h once = ground (
    arith,
    get-insert_self account v m,
    stored-absent accounts (λ b e. absurd (omega (arith, once (suc b) e))),
  )
  stored-set (suc a) (other ∷ accounts) h once = cc (
    stored-insert_ne account v m other (λ e. absurd (omega (arith, once zero (ap some (sym e))))),
    stored-set a accounts h (λ b e. omega (arith, once (suc b) e)),
  )
