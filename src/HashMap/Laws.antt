-- ===== src/HashMap/Laws.antt =====
-- What a lookup sees after each operation of a map.
use digital_euro_wallet.Prelude.{
  ◌≡◌, ◌≢◌, refl, none, some, [], ◌∷◌, PartialEq, ◌==◌, same_self, if◌then◌else◌, arith,
}
use digital_euro_wallet.HashMap
use digital_euro_wallet.HashMap.{HashMap, IsUnique}

module _ {K V : Type 0} ⦃e : PartialEq K⦄ where
  pub get-insert :
      (k j : K) (v : V) (m : HashMap K V)
      → HashMap.get j (HashMap.insert k v m) ≡ (if k == j then some v else HashMap.get j m)
  unfolding HashMap.get HashMap.insert
  get-insert k j v [] = refl
  get-insert k j v ((i, w) ∷ m) =
      ground (arith, e.same_iff i k, e.same_iff i j, e.same_iff k j, get-insert k j v m)

  pub get-insert_self :
      (k : K) (v : V) (m : HashMap K V) → HashMap.get k (HashMap.insert k v m) ≡ some v
  get-insert_self k v m = simp (get-insert, same_self)

  pub get-insert_ne :
      (k j : K) (v : V) (m : HashMap K V)
      → k ≢ j
      → HashMap.get j (HashMap.insert k v m) ≡ HashMap.get j m
  get-insert_ne k j v m ne = ground (arith, get-insert k j v m, e.same_iff k j)

  pub get-remove_ne :
      (k j : K) (m : HashMap K V) → k ≢ j → HashMap.get j (HashMap.remove k m) ≡ HashMap.get j m
  unfolding HashMap.get HashMap.remove
  get-remove_ne k j [] ne = refl
  get-remove_ne k j ((i, w) ∷ m) ne =
      ground (arith, e.same_iff i k, e.same_iff i j, get-remove_ne k j m ne)

  pub get-remove_self :
      (k : K) (m : HashMap K V) → IsUnique m → HashMap.get k (HashMap.remove k m) ≡ none
  unfolding HashMap.get HashMap.remove
  get-remove_self k [] u = refl
  get-remove_self k ((i, w) ∷ m) u = ground (arith, e.same_iff i k, get-remove_self k m u.1)

  pub insert-IsUnique :
      (k : K) (v : V) (m : HashMap K V) → IsUnique m → IsUnique (HashMap.insert k v m)
  unfolding HashMap.insert
  insert-IsUnique k v [] u = (unfold HashMap.get in refl, tt)
  insert-IsUnique k v ((i, w) ∷ m) u =
      ground (arith, e.same_iff k i, e.same_iff i k, get-insert k i v m, insert-IsUnique k v m u.1)

  pub remove-IsUnique : (k : K) (m : HashMap K V) → IsUnique m → IsUnique (HashMap.remove k m)
  unfolding HashMap.remove
  remove-IsUnique k [] u = tt
  remove-IsUnique k ((i, w) ∷ m) u =
      ground (arith, e.same_iff k i, e.same_iff i k, get-remove_ne k i m, remove-IsUnique k m u.1)

  -- Inserting a key that was absent and removing it again gives the map back.
  pub remove-insert :
      (k : K) (v : V) (m : HashMap K V)
      → HashMap.get k m ≡ none
      → HashMap.remove k (HashMap.insert k v m) ≡ m
  unfolding HashMap.get HashMap.insert HashMap.remove
  remove-insert k v [] h = ground (arith, same_self k)
  remove-insert k v ((i, w) ∷ m) h = ground (arith, remove-insert k v m)
