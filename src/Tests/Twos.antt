-- ===== src/Tests/Twos.antt =====
-- Lists of two elements, index by index.
use digital_euro_wallet.Prelude.{
  some-injective, ℕ, zero, suc, ◌≡◌, ◌≢◌, ◌∙◌, refl, sym, ap, [], ◌∷◌, some, arith, get_elem?,
}

module _ {T : Type 0} (s t : T) where
  pub two_all :
      (P : T → Type 0) → P s → P t → (a : ℕ) (u : T) → get_elem? (s ∷ t ∷ []) a ≡ some u → P u
  two_all P p q zero u h = rw (← some-injective h) p
  two_all P p q (suc zero) u h = rw (← some-injective h) q
  two_all P p q (suc (suc a)) u h = ground arith

  -- A function that tells them apart finds each at one index.
  pub two_once :
      {K : Type 0} (f : T → K)
      → f s ≢ f t
      → (a b : ℕ) (u v : T) → get_elem? (s ∷ t ∷ []) a ≡ some u
      → get_elem? (s ∷ t ∷ []) b ≡ some v
      → f u ≡ f v
      → a ≡ b
  two_once f ne zero zero u v hu hv e = refl
  two_once f ne zero (suc zero) u v hu hv e =
      absurd (ne (ap f (some-injective hu) ∙ e ∙ sym (ap f (some-injective hv))))
  two_once f ne (suc zero) zero u v hu hv e =
      absurd (ne (ap f (some-injective hv) ∙ sym e ∙ sym (ap f (some-injective hu))))
  two_once f ne (suc zero) (suc zero) u v hu hv e = refl
  two_once f ne zero (suc (suc b)) u v hu hv e = ground arith
  two_once f ne (suc zero) (suc (suc b)) u v hu hv e = ground arith
  two_once f ne (suc (suc a)) b u v hu hv e = ground arith
