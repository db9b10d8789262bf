-- ===== src/Harness/Called.antt =====
-- A single method of one device in the world of src/main.rs.
use digital_euro_wallet.Prelude.{
  ℕ, zero, suc, ◌≡◌, ◌∙◌, refl, ap, some, List, [], ◌∷◌, arith, err, get_elem?, set,
}
use digital_euro_wallet.Error.{Error, Result, Action}
use digital_euro_wallet.Wallet.{Wallet}
use digital_euro_wallet.Harness.{World}
use digital_euro_wallet.Harness.Play.{call}

pub set_same :
    {T : Type 0} (xs : List T) (i : ℕ) (t : T) → get_elem? xs i ≡ some t → set i t xs ≡ xs
set_same [] i t h = refl
set_same (u ∷ xs) zero t h = ground (arith, h)
set_same (u ∷ xs) (suc i) t h = ap (λ ys. u ∷ ys) (set_same xs i t h)

module _ {R : Type 0} where
  -- A method of the device at an index.
  pub call-eq :
      {A : Type 0} (a : ℕ) (m : Action (Wallet R) A) (w : World R) (d d' : Wallet R)
      (result : Result A)
      → get_elem? w.devices a ≡ some d
      → m d ≡ (result, d')
      → call a m w ≡ some (result, record w { devices = set a d' w.devices })
  unfolding call
  call-eq a m w d d' result at e = rw (call, at, e) refl

  -- One that is refused and changes nothing.
  pub call_refused :
      {A : Type 0} (a : ℕ) (m : Action (Wallet R) A) (w : World R) (d : Wallet R) (e : Error)
      → get_elem? w.devices a ≡ some d
      → m d ≡ (err e, d)
      → call a m w ≡ some (err e, w)
  unfolding call
  call_refused a m w d e at refused =
      call-eq a m w d d (err e) at refused ∙ rw (set_same w.devices a d at) refl
