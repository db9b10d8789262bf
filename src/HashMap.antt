-- ===== src/HashMap.antt =====
-- `std::collections::HashMap` as an association list, and `HashSet` as a map to the unit type. The
-- program never depends on the order of the entries: it looks up, inserts, removes, and sums values.
pub mod Laws
pub mod Sums
use digital_euro_wallet.Prelude.{
  Bool, true, false, Option, none, some, List, [], ◌∷◌, PartialEq, ◌==◌, if◌then◌else◌, ◌≡◌,
}

abbrev pub HashMap : Type 0 → Type 0 → Type 0
HashMap K V = List (K × V)

abbrev pub HashSet : Type 0 → Type 0
HashSet K = HashMap K (Unit {0})

abbrev pub new : {K V : Type 0} → HashMap K V
new = []

-- `values()`
abbrev pub values : {K V : Type 0} → HashMap K V → List V
values [] = []
values ((k, v) ∷ m) = v ∷ values m

abbrev pub is_some : {V : Type 0} → Option V → Bool
is_some none = false
is_some (some v) = true

module _ {K V : Type 0} ⦃e : PartialEq K⦄ where
  unfoldable pub get : K → HashMap K V → Option V
  get k [] = none
  get k ((j, v) ∷ m) = if j == k then some v else get k m

  -- An existing entry keeps its place; a `get_mut` that writes is an `insert` too.
  unfoldable pub insert : K → V → HashMap K V → HashMap K V
  insert k v [] = (k, v) ∷ []
  insert k v ((j, w) ∷ m) = if j == k then (j, v) ∷ m else (j, w) ∷ insert k v m

  unfoldable pub remove : K → HashMap K V → HashMap K V
  remove k [] = []
  remove k ((j, w) ∷ m) = if j == k then m else (j, w) ∷ remove k m

  -- `contains_key`, and `contains` of a set
  abbrev pub contains : K → HashMap K V → Bool
  contains k m = is_some (get k m)

  -- No key has two entries.
  abbrev pub IsUnique : HashMap K V → Type 0
  IsUnique [] = Unit
  IsUnique ((k, v) ∷ m) = (get k m ≡ none) × IsUnique m
