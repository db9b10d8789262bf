-- ===== src/OfflinePayment/Telling.antt =====
-- examples/offline_payment.rs: its texts, and how its `main` runs.
use digital_euro_wallet.Prelude.{
  ℕ, ◌+◌, ◌-◌, ◌/◌, ◌%◌, u64_modulus, Option, none, some, List, [], ◌∷◌, ◌++◌, ok, err, codes,
}
use digital_euro_wallet.Prelude.Int.{ℤ, pos, negsuc, neg_part, pos_part}
use digital_euro_wallet.Text.{Text, decimal, decimal02}
use digital_euro_wallet.Id.{AccountId}
use digital_euro_wallet.Error.{Result, display}
use digital_euro_wallet.Issuer
use digital_euro_wallet.Issuer.{Issuer}
use digital_euro_wallet.Harness.{World}

unfoldable pub euros : ℕ → Text
euros cents = decimal (cents / 100) ++ (codes "." ++ (decimal02 (cents % 100) ++ codes " €"))

abbrev minus : ℤ → Text
minus (pos n) = []
minus (negsuc n) = codes "-"

-- `float`, without the call of the issuer
unfoldable pub signed_euros : ℤ → Text
signed_euros cents = minus cents ++ euros (pos_part cents + neg_part cents)

-- The variables are a world, in the order of the enrolments; what is printed are lines; `none` is a
-- panic.
abbrev pub Walk : Type 0 → Type 0 → Type 0
Walk R A = World R → Option (A × List Text × World R)

abbrev behind :
    {R A : Type 0} → List Text → Option (A × List Text × World R) → Option (A × List Text × World R)
behind before none = none
behind before (some (a, lines, w)) = some (a, before ++ lines, w)

abbrev next :
    {R A B : Type 0}
    → Option (A × List Text × World R)
    → (A → Walk R B)
    → Option (B × List Text × World R)
next none f = none
next (some (a, lines, w)) f = behind lines (f a w)

module _ {R A B : Type 0} where
  infixl 5 ◌>>=◌ ◌>>◌
  abbrev pub ◌>>=◌ : Walk R A → (A → Walk R B) → Walk R B
  ◌>>=◌ m f w = next (m w) f

  abbrev pub ◌>>◌ : Walk R A → Walk R B → Walk R B
  ◌>>◌ m k w = next (m w) (λ _. k)

abbrev expected : {R A : Type 0} → Option (Result A × World R) → Option (A × List Text × World R)
expected none = none
expected (some (ok a, w)) = some (a, [], w)
expected (some (err error, w)) = none

abbrev looked :
    {R A : Type 0} → Option (Result A × World R) → Option (Result A × List Text × World R)
looked none = none
looked (some (result, w)) = some (result, [], w)

module _ {R : Type 0} where
  -- `println!`
  unfoldable pub print : Text → Walk R (Unit {0})
  print line w = some (tt, line ∷ [], w)

  -- `println!` of a text that a blank line stands before
  unfoldable pub heading : Text → Walk R (Unit {0})
  heading line w = some (tt, [] ∷ line ∷ [], w)

  -- `.expect(…)` of a call
  abbrev pub expecting : {A : Type 0} → (World R → Option (Result A × World R)) → Walk R A
  expecting call w = expected (call w)

  -- a call whose result is matched on
  abbrev pub looking : {A : Type 0} → (World R → Option (Result A × World R)) → Walk R (Result A)
  looking call w = looked (call w)

  unfoldable pub see : {A : Type 0} → (World R → Option A) → Walk R A
  see f w = elim (f w) [ none ↦ none | some a ↦ some (a, [], w) ]

  -- `account`: a panic where the account is not known
  abbrev pub account : AccountId → World R → Option ℕ
  account id w = Issuer.balance_of id w.issuer

  abbrev pub float : World R → Option ℤ
  float w = some w.issuer.offline_float

  -- `unreachable!` on a success
  abbrev pub refusal : Result ℕ → Walk R (Unit {0})
  refusal (err error) w = print (codes "   refused: " ++ display error) w
  refusal (ok _) w = none

-- `as u64` of an `i128`
abbrev pub as_u64 : ℤ → ℕ
as_u64 (pos n) = n % u64_modulus
as_u64 (negsuc n) = u64_modulus - 1 - n % u64_modulus
