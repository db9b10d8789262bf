-- ===== src/Harness/Refinement.antt =====
-- Sequences of operations in the world of src/main.rs against the ledger that they stand for.
use digital_euro_wallet.Prelude.{ℕ, ◌+◌, ◌≡◌, refl, List, [], ◌∷◌, Option, some, length, Every}
use native.Mathlib.Nat.{zero-add, suc-add}
use digital_euro_wallet.Crates.{Crates, Rng, AreDocumented}
use digital_euro_wallet.Error.{Result}
use digital_euro_wallet.Harness.{World, Operation, perform, and_then}
use digital_euro_wallet.Harness.Ledger.{Ledger, settle, ledger_of}
use digital_euro_wallet.Harness.Sound.{IsSound}
use digital_euro_wallet.Harness.Run.{IsInRange, perform-Settles}

-- the ledger after each operation in turn, with what each returned
unfoldable pub settle_all : ℕ → List Operation → Ledger → List (Result ℕ) × Ledger
settle_all limit [] l = ([], l)
settle_all limit (operation ∷ operations) l =
    let (result, l') = settle limit operation l in
    let (results, l'') = settle_all limit operations l' in (result ∷ results, l'')

module _ {R : Type 0} ⦃x : Crates⦄ ⦃g : Rng R⦄ where
  -- the same of the world; `none` is a panic
  unfoldable pub perform_all : List Operation → World R → Option (List (Result ℕ) × World R)
  perform_all [] w = some ([], w)
  perform_all (operation ∷ operations) w = and_then (perform operation w) (λ (result, w').
      and_then (perform_all operations w') (λ (results, w''). some (result ∷ results, w'')))

  -- In a sound world any sequence of operations between its devices returns exactly what the ledger
  -- of balances and deposits returns, success or error, and leaves a sound world with exactly the
  -- ledger's balances and deposits: keys, certificates, signatures, nonces and counters never show.
  pub perform_all-refines :
      (doc : AreDocumented x) (operations : List Operation) (k limit money : ℕ) (w : World R)
      → IsSound (length operations + k) limit money w
      → Every operations (IsInRange (length w.devices))
      → (w' : World R) × (perform_all operations w
          ≡ some ((settle_all limit operations (ledger_of w)).0, w'))
        × (ledger_of w' ≡ (settle_all limit operations (ledger_of w)).1)
        × IsSound k limit money w'
  unfolding perform_all settle_all
  perform_all-refines doc [] k limit money w h range = (w, refl, refl, rw (zero-add k) at h)
  perform_all-refines doc (operation ∷ operations) k limit money w h (range, ranges) =
      let s = perform-Settles doc operation (rw (suc-add (length operations) k) at h) range in
      let (w', done, same, sound) =
        perform_all-refines doc operations k limit money s.after s.sound (rw s.same_size ranges) in
      (w', rw (s.returned, s.matches, done) refl, rw s.matches same, sound)
