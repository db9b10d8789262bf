-- ===== src/OfflinePayment/Printing.antt =====
-- How examples/offline_payment.rs goes on after each of its steps, and what it prints then.
use digital_euro_wallet.Prelude.{ℕ, suc, ◌≡◌, refl, Option, some, List, [], ◌∷◌, ◌++◌, ok}
use digital_euro_wallet.Text.{Text}
use digital_euro_wallet.Crates.{Crates, Rng, AreDocumented}
use digital_euro_wallet.Error.{Result}
use digital_euro_wallet.Harness.{World, Operation, perform}
use digital_euro_wallet.Harness.Ledger.{Ledger, settle}
use digital_euro_wallet.Harness.Kept.{Keeps}
use digital_euro_wallet.Harness.Run.{IsInRange}
use digital_euro_wallet.Harness.Stands.{Stands, perform-Stands}
use digital_euro_wallet.OfflinePayment.Telling.{
  Walk, ◌>>=◌, ◌>>◌, print, heading, expecting, looking, see,
}

module _ {R : Type 0} where
  -- The walk ends without a panic, has printed the lines, and leaves a world with a property.
  abbrev pub Prints : (World R → Type 0) → Walk R (Unit {0}) → World R → List Text → Type 0
  Prints Q m w lines = (w' : World R) × (m w ≡ some (tt, lines, w')) × Q w'

  pub ends :
      {Q : World R → Type 0} (w : World R) (line shown : Text)
      → line ≡ shown
      → Q w
      → Prints Q (print line) w (shown ∷ [])
  unfolding print
  ends w line shown e q = (w, rw (print, e) refl, q)

  module _ {Q : World R → Type 0} {w : World R} {lines : List Text} where
    pub prints :
        (line shown : Text) (rest : Walk R (Unit {0}))
        → line ≡ shown
        → Prints Q rest w lines
        → Prints Q (print line >> rest) w (shown ∷ lines)
    unfolding print
    prints line shown rest e (end, printed, q) = (end, rw (print, printed, e) refl, q)

    pub follows :
        (walk rest : Walk R (Unit {0})) (w' : World R) (before : List Text)
        → walk w ≡ some (tt, before, w')
        → Prints Q rest w' lines
        → Prints Q (walk >> rest) w (before ++ lines)
    follows walk rest w' before e (end, printed, q) = (end, rw (e, printed) refl, q)

    pub heads :
        (line : Text) (rest : Walk R (Unit {0}))
        → Prints Q rest w lines
        → Prints Q (heading line >> rest) w ([] ∷ line ∷ lines)
    unfolding heading
    heads line rest (end, printed, q) = (end, rw (heading, printed) refl, q)

    pub reads :
        {A : Type 0} (read : World R → Option A) (f : A → Walk R (Unit {0})) (a : A)
        → read w ≡ some a
        → Prints Q (f a) w lines
        → Prints Q (see read >>= f) w lines
    unfolding see
    reads read f a e (end, printed, q) = (end, rw (see, e, printed) refl, q)

    pub expects :
        {A : Type 0} (f : A → Walk R (Unit {0})) (call : World R → Option (Result A × World R))
        (w' : World R) (a : A)
        → call w ≡ some (ok a, w')
        → Prints Q (f a) w' lines
        → Prints Q (expecting call >>= f) w lines
    expects f call w' a e (end, printed, q) = (end, rw (e, printed) refl, q)

    pub looks :
        {A : Type 0} (f : Result A → Walk R (Unit {0}))
        (call : World R → Option (Result A × World R)) (w' : World R) (result : Result A)
        → call w ≡ some (result, w')
        → Prints Q (f result) w' lines
        → Prints Q (looking call >>= f) w lines
    looks f call w' result e (end, printed, q) = (end, rw (e, printed) refl, q)

module _ {R : Type 0} ⦃x : Crates⦄ ⦃g : Rng R⦄ where
  -- With `k` operations to come, the three devices and accounts hold these amounts.
  abbrev pub Left : ℕ → ℕ → ℕ → List ℕ → List ℕ → World R → Type 0
  Left limit money k balances deposits w =
      Stands k limit money 3 (record { balances = balances; deposits = deposits }) w

module _ {R : Type 0} ⦃x : Crates⦄ ⦃g : Rng R⦄ {limit money : ℕ} {w : World R} where
  module _ {k n : ℕ} {l : Ledger} {Q : World R → Type 0} {lines : List Text} where
    pub performs :
        (f : ℕ → Walk R (Unit {0})) (doc : AreDocumented x) (operation : Operation) (v : ℕ)
        (l' : Ledger)
        → Stands (suc k) limit money n l w
        → IsInRange n operation
        → settle limit operation l ≡ (ok v, l')
        → ((w' : World R) → Stands k limit money n l' w' → Keeps w w' → Prints Q (f v) w' lines)
        → Prints Q (expecting (perform operation) >>= f) w lines
    performs f doc operation v l' h range settled rest =
        let (w', e, h', same) = perform-Stands doc operation (ok v) l' h range settled in
        expects f (perform operation) w' v e (rest w' h' same)

    pub attempts :
        (f : Result ℕ → Walk R (Unit {0})) (doc : AreDocumented x) (operation : Operation)
        (result : Result ℕ) (l' : Ledger)
        → Stands (suc k) limit money n l w
        → IsInRange n operation
        → settle limit operation l ≡ (result, l')
        → ((w' : World R)
            → Stands k limit money n l' w'
            → Keeps w w'
            → Prints Q (f result) w' lines)
        → Prints Q (looking (perform operation) >>= f) w lines
    attempts f doc operation result l' h range settled rest =
        let (w', e, h', same) = perform-Stands doc operation result l' h range settled in
        looks f (perform operation) w' result e (rest w' h' same)
