-- ===== src/Prelude/Lists.antt =====
-- Lists measured and indexed by native numbers, under the library's names.
use Prim.Native.Nat.{ℕ, zero, suc, ◌+◌, ◌<◌}
use Prim.Native.Char.{code}
use Prim.Native.String.{String}
use mathlib.Core.Path.{◌≡◌, refl}
use mathlib.Core.Logic.{◌⊎◌, inl}
use mathlib.Core.List.{List, [], ◌∷◌, ◌++◌}
use mathlib.Core.Option.{Option, none, some}
use native.Mathlib.Omega.{arith}

module _ {ℓ} {A : Type ℓ} where
  abbrev pub length : List A → ℕ
  length [] = 0
  length (x ∷ xs) = suc (length xs)

  abbrev pub get_elem? : List A → ℕ → Option A
  get_elem? [] i = none
  get_elem? (x ∷ xs) zero = some x
  get_elem? (x ∷ xs) (suc i) = get_elem? xs i

  abbrev pub take : ℕ → List A → List A
  take zero xs = []
  take (suc n) [] = []
  take (suc n) (x ∷ xs) = x ∷ take n xs

  abbrev pub replicate : ℕ → A → List A
  replicate zero a = []
  replicate (suc n) a = a ∷ replicate n a

  -- `xs[i] = a`; an index out of range changes nothing here, where the source would panic
  abbrev pub set : ℕ → A → List A → List A
  set i a [] = []
  set zero a (x ∷ xs) = a ∷ xs
  set (suc i) a (x ∷ xs) = x ∷ set i a xs

  pub length-set : (i : ℕ) (a : A) (xs : List A) → length (set i a xs) ≡ length xs
  length-set i a [] = refl
  length-set zero a (x ∷ xs) = refl
  length-set (suc i) a (x ∷ xs) = omega (arith, length-set i a xs)

  pub get_elem?-set_self :
      (i : ℕ) (a b : A) (xs : List A) → get_elem? xs i ≡ some b → get_elem? (set i a xs) i ≡ some a
  get_elem?-set_self i a b [] h = ground arith
  get_elem?-set_self zero a b (x ∷ xs) h = refl
  get_elem?-set_self (suc i) a b (x ∷ xs) h = get_elem?-set_self i a b xs h

  pub get_elem?-set_ne :
      (i j : ℕ) (a : A) (xs : List A) → ¬ (i ≡ j) → get_elem? (set i a xs) j ≡ get_elem? xs j
  get_elem?-set_ne i j a [] ne = refl
  get_elem?-set_ne zero zero a (x ∷ xs) ne = absurd (ne refl)
  get_elem?-set_ne zero (suc j) a (x ∷ xs) ne = refl
  get_elem?-set_ne (suc i) zero a (x ∷ xs) ne = refl
  get_elem?-set_ne (suc i) (suc j) a (x ∷ xs) ne =
      get_elem?-set_ne i j a xs (λ e. ne (omega (arith, e)))

  -- An index below the length has an element.
  pub get_elem?-some : (xs : List A) (i : ℕ) → i < length xs → (a : A) × (get_elem? xs i ≡ some a)
  get_elem?-some [] i h = absurd (omega (arith, h))
  get_elem?-some (x ∷ xs) zero h = (x, refl)
  get_elem?-some (x ∷ xs) (suc i) h = get_elem?-some xs i (omega (arith, h))

  pub get_elem?-lt : (xs : List A) (i : ℕ) (a : A) → get_elem? xs i ≡ some a → i < length xs
  get_elem?-lt [] i a h = ground arith
  get_elem?-lt (x ∷ xs) zero a h = omega arith
  get_elem?-lt (x ∷ xs) (suc i) a h = omega (arith, get_elem?-lt xs i a h)

  pub length-append : (xs ys : List A) → length (xs ++ ys) ≡ length xs + length ys
  length-append [] ys = omega arith
  length-append (x ∷ xs) ys = omega (arith, length-append xs ys)

  pub get_elem?-append :
      (xs ys : List A) (i : ℕ) (a : A) → get_elem? xs i ≡ some a → get_elem? (xs ++ ys) i ≡ some a
  get_elem?-append [] ys i a h = ground arith
  get_elem?-append (x ∷ xs) ys zero a h = h
  get_elem?-append (x ∷ xs) ys (suc i) a h = get_elem?-append xs ys i a h

  pub get_elem?-append_last :
      (xs : List A) (a : A) → get_elem? (xs ++ (a ∷ [])) (length xs) ≡ some a
  get_elem?-append_last [] a = refl
  get_elem?-append_last (x ∷ xs) a = get_elem?-append_last xs a

  -- What a list with one more element has at an index.
  pub get_elem?-append_one :
      (xs : List A) (a b : A) (i : ℕ)
      → get_elem? (xs ++ (a ∷ [])) i ≡ some b
      → (get_elem? xs i ≡ some b) ⊎ ((i ≡ length xs) × (a ≡ b))
  get_elem?-append_one [] a b zero h = ground (arith, h)
  get_elem?-append_one [] a b (suc i) h = ground (arith, h)
  get_elem?-append_one (x ∷ xs) a b zero h = inl h
  get_elem?-append_one (x ∷ xs) a b (suc i) h = ground (arith, get_elem?-append_one xs a b i h)

  -- Lists that agree up to a length agree in both pieces.
  pub append-injective :
      (xs ys us vs : List A) → length xs ≡ length ys → xs ++ us ≡ ys ++ vs → (xs ≡ ys) × (us ≡ vs)
  append-injective [] [] us vs h e = (refl, e)
  append-injective [] (y ∷ ys) us vs h e = absurd (omega arith)
  append-injective (x ∷ xs) [] us vs h e = absurd (omega arith)
  append-injective (x ∷ xs) (y ∷ ys) us vs h e =
      ground (arith, append-injective xs ys us vs (omega arith))

-- The bytes of a text: its code points, since every text of the program's tags is ASCII.
abbrev pub codes : String → List ℕ
codes String.[] = []
codes (String.◌∷◌ c s) = code c ∷ codes s

-- A predicate of every element, as a nested product.
abbrev pub Every {ℓ κ} : {T : Type ℓ} → List T → (T → Type κ) → Type κ
Every [] P = Unit
Every (t ∷ ts) P = P t × Every ts P
