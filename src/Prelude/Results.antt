-- ===== src/Prelude/Results.antt =====
-- `std::result::Result`, and methods on `&mut self`: what was written before an error stays written, so the
-- state comes back beside an error too. The error type is a parameter.
use mathlib.Core.Bool.{Bool}
use mathlib.Core.Option.{Option, none, some}
use digital_euro_wallet.Prelude.Tests.{if◌then◌else◌}

pub data StdResult {ℓ κ} (E : Type ℓ) (A : Type κ) : Type (ℓ ⊔ κ) where
  ok : A → StdResult E A
  err : E → StdResult E A

abbrev pub Exec : Type 0 → Type 0 → Type 0 → Type 0
Exec E S A = S → StdResult E A × S

module _ {E S A : Type 0} where
  abbrev pub pure : A → Exec E S A
  pure a s = (ok a, s)

  abbrev pub raise : E → Exec E S A
  raise e s = (err e, s)

  abbrev pub gets : (S → A) → Exec E S A
  gets f s = (ok (f s), s)

  abbrev pub or_raise : Option A → E → Exec E S A
  or_raise none e s = (err e, s)
  or_raise (some a) e s = (ok a, s)

  abbrev pub lift : StdResult E A → Exec E S A
  lift r s = (r, s)

module _ {E S : Type 0} where
  abbrev pub raise_if : Bool → E → Exec E S (Unit {0})
  raise_if c e s = (if c then err e else ok tt, s)

  abbrev pub modify : (S → S) → Exec E S (Unit {0})
  modify f s = (ok tt, f s)

module _ {E S A B : Type 0} where
  infixl 5 ◌>>=◌ ◌>>◌
  abbrev pub ◌>>=◌ : Exec E S A → (A → Exec E S B) → Exec E S B
  ◌>>=◌ m f s = let (r, s') = m s in elim r [ ok a ↦ f a s' | err e ↦ (err e, s') ]

  abbrev pub ◌>>◌ : Exec E S A → Exec E S B → Exec E S B
  ◌>>◌ m k s = let (r, s') = m s in elim r [ ok a ↦ k s' | err e ↦ (err e, s') ]

-- The result and the state that a call left.
pub StdResult-cases {ℓ κ} :
    {E : Type ℓ} {A : Type κ} (P : StdResult E A → Type 0) (r : StdResult E A)
    → ((a : A) → P (ok a))
    → ((e : E) → P (err e))
    → P r
StdResult-cases P (ok a) f g = f a
StdResult-cases P (err e) f g = g e
