-- ===== src/Harness/Endings.antt =====
-- How a scenario of src/main.rs goes on after each of its steps, to a pass or to a failure.
use digital_euro_wallet.Prelude.{Bool, true, ◌≡◌, refl, Option, some, ok, err}
use digital_euro_wallet.Error.{Error, Result}
use digital_euro_wallet.Harness.{World}
use digital_euro_wallet.Harness.Play.{Reason, Play, ◌>>=◌, or_fail, kept, see, ensure, ◌>>◌}

module _ {R : Type 0} where
  -- The scenario ends well.
  abbrev pub Passes : Play R (Unit {0}) → World R → Type 0
  Passes m w = (w' : World R) × (m w ≡ some (ok tt, w'))

  pub calls :
      {A : Type 0} (reason : Error → Reason) (f : A → Play R (Unit {0}))
      (call : World R → Option (Result A × World R)) (w w' : World R) (a : A)
      → call w ≡ some (ok a, w')
      → Passes (f a) w'
      → Passes (or_fail reason call >>= f) w
  calls reason f call w w' a e (end, passed) = (end, rw e passed)

  pub looks :
      {A : Type 0} (f : Result A → Play R (Unit {0})) (call : World R → Option (Result A × World R))
      (w w' : World R) (result : Result A)
      → call w ≡ some (result, w')
      → Passes (f result) w'
      → Passes (kept call >>= f) w
  looks f call w w' result e (end, passed) = (end, rw e passed)

  -- A scenario that reads something of the world, and goes on.
  pub reads :
      {A : Type 0} (read : World R → Option A) (f : A → Play R (Unit {0})) (w : World R) (a : A)
      → read w ≡ some a
      → Passes (f a) w
      → Passes (see read >>= f) w
  unfolding see
  reads read f w a e (end, passed) = (end, rw (see, e) passed)

  -- A scenario that ensures something true, and goes on.
  pub ensures :
      (c : Bool) (why : Reason) (rest : Play R (Unit {0})) (w : World R)
      → c ≡ true
      → Passes rest w
      → Passes (ensure c why >> rest) w
  ensures c why rest w e (end, passed) = (end, rw e passed)

  -- The scenario ends with a failure.
  abbrev pub Fails : Reason → Play R (Unit {0}) → World R → Type 0
  Fails why m w = (w' : World R) × (m w ≡ some (err why, w'))

  pub reads_failing :
      {A : Type 0} (why : Reason) (read : World R → Option A) (f : A → Play R (Unit {0}))
      (w : World R) (a : A)
      → read w ≡ some a
      → Fails why (f a) w
      → Fails why (see read >>= f) w
  unfolding see
  reads_failing why read f w a e (end, failed) = (end, rw (see, e) failed)

  pub calls_failing :
      {A : Type 0} (reason : Error → Reason) (f : A → Play R (Unit {0}))
      (call : World R → Option (Result A × World R)) (w w' : World R) (e : Error)
      → call w ≡ some (err e, w')
      → Fails (reason e) (or_fail reason call >>= f) w
  calls_failing reason f call w w' e h = (w', rw h refl)

  -- A scenario that changes the world, and goes on.
  pub changes :
      (change rest : Play R (Unit {0})) (w w' : World R)
      → change w ≡ some (ok tt, w')
      → Passes rest w'
      → Passes (change >> rest) w
  changes change rest w w' e (end, passed) = (end, rw e passed)
