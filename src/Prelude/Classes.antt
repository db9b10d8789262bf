-- ===== src/Prelude/Classes.antt =====
-- `PartialEq` of Rust, as its derived implementations behave: a test that holds exactly of equal
-- values.
use Prim.Native.Nat.{ℕ}
use mathlib.Core.Path.{◌≡◌, refl}
use mathlib.Core.Logic.{◌↔◌}
use mathlib.Core.Bool.{Bool, true, false, ◌&&◌}
use mathlib.Core.Option.{Option, none, some}
use mathlib.Core.List.{List, [], ◌∷◌}
use native.Mathlib.Omega.{arith}
use digital_euro_wallet.Prelude.Tests.{nat_same, nat_same_iff}

pub record PartialEq {ℓ} (T : Type ℓ) : Type ℓ where
  pub same : T → T → Bool
  pub same_iff : (u v : T) → (same u v ≡ true) ↔ (u ≡ v)

module _ {ℓ} {T : Type ℓ} ⦃p : PartialEq T⦄ where
  infix 50 ◌==◌
  -- Rust's `==`
  abbrev pub ◌==◌ : T → T → Bool
  u == v = p.same u v

  pub same_self : (u : T) → (u == u) ≡ true
  same_self u = (p.same_iff u u).1 refl

  -- slices and arrays, element by element
  abbrev pub list_same : List T → List T → Bool
  list_same [] [] = true
  list_same (u ∷ us) (v ∷ vs) = u == v && list_same us vs
  list_same _ _ = false

  pub list_same_iff : (us vs : List T) → (list_same us vs ≡ true) ↔ (us ≡ vs)
  list_same_iff [] [] = ground arith
  list_same_iff [] (v ∷ vs) = ground arith
  list_same_iff (u ∷ us) [] = ground arith
  list_same_iff (u ∷ us) (v ∷ vs) = ground (arith, p.same_iff u v, list_same_iff us vs)

  instance abbrev pub list_eq : PartialEq (List T)
  list_eq = record { same = list_same; same_iff = list_same_iff }

instance abbrev pub nat_eq : PartialEq ℕ
nat_eq = record { same = nat_same; same_iff = nat_same_iff }

module _ {ℓ κ} {S : Type ℓ} {T : Type κ} ⦃p : PartialEq S⦄ ⦃q : PartialEq T⦄ where
  abbrev pair_same : S × T → S × T → Bool
  pair_same (s, t) (s', t') = p.same s s' && q.same t t'

  pub pair_same_iff : (u v : S × T) → (pair_same u v ≡ true) ↔ (u ≡ v)
  pair_same_iff u v = ground (arith, p.same_iff u.0 v.0, q.same_iff u.1 v.1)

  instance abbrev pub pair_eq : PartialEq (S × T)
  pair_eq = record { same = pair_same; same_iff = pair_same_iff }

module _ {ℓ} {T : Type ℓ} ⦃p : PartialEq T⦄ where
  abbrev option_same : Option T → Option T → Bool
  option_same none none = true
  option_same (some u) (some v) = u == v
  option_same _ _ = false

  pub option_same_iff : (u v : Option T) → (option_same u v ≡ true) ↔ (u ≡ v)
  option_same_iff none none = ground arith
  option_same_iff none (some v) = ground arith
  option_same_iff (some u) none = ground arith
  option_same_iff (some u) (some v) = ground (arith, p.same_iff u v)

  instance abbrev pub option_eq : PartialEq (Option T)
  option_eq = record { same = option_same; same_iff = option_same_iff }
