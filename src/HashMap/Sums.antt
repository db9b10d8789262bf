-- ===== src/HashMap/Sums.antt =====
-- The sum of the values of a map under each operation.
use digital_euro_wallet.Prelude.{
  ℕ, ◌+◌, ◌≤◌, ◌≡◌, Option, none, some, [], ◌∷◌, PartialEq, arith, sum,
}
use digital_euro_wallet.HashMap
use digital_euro_wallet.HashMap.{HashMap}

abbrev pub value_or_zero : Option ℕ → ℕ
value_or_zero none = 0
value_or_zero (some v) = v

abbrev pub total : {K : Type 0} → HashMap K ℕ → ℕ
total m = sum (HashMap.values m)

module _ {K : Type 0} ⦃e : PartialEq K⦄ where
  -- An insertion adds its value and takes off the one that it replaces.
  pub total-insert :
      (k : K) (v : ℕ) (m : HashMap K ℕ)
      → total (HashMap.insert k v m) + value_or_zero (HashMap.get k m) ≡ total m + v
  unfolding HashMap.get HashMap.insert
  total-insert k v [] = omega arith
  total-insert k v ((i, w) ∷ m) = ground (arith, total-insert k v m)

  pub total-remove :
      (k : K) (m : HashMap K ℕ)
      → total (HashMap.remove k m) + value_or_zero (HashMap.get k m) ≡ total m
  unfolding HashMap.get HashMap.remove
  total-remove k [] = omega arith
  total-remove k ((i, w) ∷ m) = ground (arith, total-remove k m)

  pub get-le-total : (k : K) (m : HashMap K ℕ) (v : ℕ) → HashMap.get k m ≡ some v → v ≤ total m
  get-le-total k m v h = ground (arith, total-remove k m)
