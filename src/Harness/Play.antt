-- ===== src/Harness/Play.antt =====
-- How a scenario of src/main.rs runs: it changes the world, and passes, fails with a reason, or panics.
use digital_euro_wallet.Prelude.{
  ℕ, Bool, Option, none, some, if◌then◌else◌, StdResult, ok, err, get_elem?, set,
}
use digital_euro_wallet.Text.{Text}
use digital_euro_wallet.Error.{Error, Result, Action, display}
use digital_euro_wallet.Message.Transfer.{Transfer}
use digital_euro_wallet.Wallet
use digital_euro_wallet.Wallet.{Wallet}
use digital_euro_wallet.Issuer.{Issuer}
use digital_euro_wallet.Harness.{World}

-- The text of a failure; a value printed by `{:?}` behind it is kept as the value.
pub data Reason : Type 0 where
  text : Text → Reason
  got : Text → Result ℕ → Reason
  got_transfer : Text → Result Transfer → Reason

abbrev pub Verdict : Type 0 → Type 0
Verdict A = StdResult Reason A

-- `none` is a panic
abbrev pub Play : Type 0 → Type 0 → Type 0
Play R A = World R → Option (Verdict A × World R)

abbrev next :
    {R A B : Type 0} → Option (Verdict A × World R) → (A → Play R B) → Option (Verdict B × World R)
next none f = none
next (some (ok a, w)) f = f a w
next (some (err why, w)) f = some (err why, w)

module _ {R A B : Type 0} where
  infixl 5 ◌>>=◌ ◌>>◌
  abbrev pub ◌>>=◌ : Play R A → (A → Play R B) → Play R B
  ◌>>=◌ m f w = next (m w) f

  abbrev pub ◌>>◌ : Play R A → Play R B → Play R B
  ◌>>◌ m k w = next (m w) (λ _. k)

abbrev keep : {R A : Type 0} → Option (Result A × World R) → Option (Verdict (Result A) × World R)
keep none = none
keep (some (result, w)) = some (ok result, w)

-- A call whose result is kept as a value, as `match` and `==` look at it.
abbrev pub kept : {R A : Type 0} → (World R → Option (Result A × World R)) → Play R (Result A)
kept f w = keep (f w)

abbrev mapped :
    {R A : Type 0} → (Error → Reason) → Option (Result A × World R) → Option (Verdict A × World R)
mapped reason none = none
mapped reason (some (ok a, w)) = some (ok a, w)
mapped reason (some (err e, w)) = some (err (reason e), w)

-- `map_err` with `?`
abbrev pub or_fail :
    {R A : Type 0} → (Error → Reason) → (World R → Option (Result A × World R)) → Play R A
or_fail reason f w = mapped reason (f w)

-- `e.to_string()`
abbrev pub to_string : Error → Reason
to_string e = text (display e)

module _ {R : Type 0} where
  abbrev pub pass : Play R (Unit {0})
  pass w = some (ok tt, w)

  abbrev pub fail : {A : Type 0} → Reason → Play R A
  fail why w = some (err why, w)

  -- `ensure!`
  abbrev pub ensure : Bool → Reason → Play R (Unit {0})
  ensure c why w = if c then some (ok tt, w) else some (err why, w)

  -- what is read of the world; `none` is an index out of range
  unfoldable pub see : {A : Type 0} → (World R → Option A) → Play R A
  see f w = elim (f w) [ none ↦ none | some a ↦ some (ok a, w) ]

  -- what `main.rs` reads of `w.devices[a]`
  abbrev pub seen : {A : Type 0} → (Wallet R → A) → Option (Wallet R) → Option A
  seen f none = none
  seen f (some d) = some (f d)

  abbrev pub balance_at : ℕ → World R → Option ℕ
  balance_at a w = seen (λ d. Wallet.balance d) (get_elem? w.devices a)

  -- a method of `w.devices[a]`
  unfoldable pub call :
      {A : Type 0} → ℕ → Action (Wallet R) A → World R → Option (Result A × World R)
  call a m w = elim (get_elem? w.devices a) [
    | none ↦ none
    | some d ↦ let (result, d') = m d in some (result, record w { devices = set a d' w.devices })
  ]

  -- a method of `w.issuer`
  unfoldable pub call_issuer :
      {A : Type 0} → Action Issuer A → World R → Option (Result A × World R)
  call_issuer m w = let (result, i) = m w.issuer in some (result, record w { issuer = i })

-- The verdict alone: the world is dropped at the end of a scenario.
abbrev pub verdict :
    {R : Type 0} → Option (Verdict (Unit {0}) × World R) → Option (Verdict (Unit {0}))
verdict none = none
verdict (some (v, w)) = some v
