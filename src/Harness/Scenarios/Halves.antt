-- ===== src/Harness/Scenarios/Halves.antt =====
-- The two halves of a defunding in the world of src/main.rs, which one of its scenarios does apart.
use digital_euro_wallet.Prelude.{
  ℕ, ◌≡◌, ap, refl, Option-cases, inl, inr, some, Option, arith, ok, err, get_elem?, set,
}
use digital_euro_wallet.Crates.{Crates, Rng}
use digital_euro_wallet.Error.{Result, replay}
use digital_euro_wallet.Message.Defunding.{Defunding}
use digital_euro_wallet.Wallet
use digital_euro_wallet.Wallet.{Wallet}
use digital_euro_wallet.Issuer
use digital_euro_wallet.Issuer.{Issuer}
use digital_euro_wallet.Issuer.Redemptions.{defund_replayed}
use digital_euro_wallet.Protocol
use digital_euro_wallet.Harness
use digital_euro_wallet.Harness.{World, perform}
use digital_euro_wallet.Harness.Play.{call, call_issuer}

module _ {R : Type 0} ⦃x : Crates⦄ where
  module _ ⦃g : Rng R⦄ (a v u : ℕ) (w w2 : World R) where
    abbrev AreHalves : Type 0
    AreHalves =
        (order : Defunding) × (w1 : World R) × (call a (Wallet.defund v) w ≡ some (ok order, w1))
        × (call_issuer (Issuer.defund order) w1 ≡ some (ok u, w2))

    split_at :
        (d : Wallet R) (ordered : Result Defunding)
        → get_elem? w.devices a ≡ some d
        → (Wallet.defund v d).0 ≡ ordered
        → perform (Harness.defund a v) w ≡ some (ok u, w2)
        → AreHalves
    unfolding perform call call_issuer Protocol.defund
    split_at d (err error) at done e = absurd (ground (arith, at, done, e))
    split_at d (ok order) at done e = (
      order,
      record w { devices = set a (Wallet.defund v d).1 w.devices },
      rw (call, at, done) refl,
      rw (perform, at, Protocol.defund, done) at e,
    )

    -- A defunding that goes through, as the order and its cashing.
    pub defund-split : perform (Harness.defund a v) w ≡ some (ok u, w2) → AreHalves
    unfolding perform
    defund-split e = elim (Option-cases (get_elem? w.devices a)) [
      | inl missing ↦ absurd (ground (arith, e, missing))
      | inr (d, at) ↦ split_at d (Wallet.defund v d).0 at refl e
    ]

  returned_same :
      (r r' : Result ℕ) (w w' : World R)
      → Path (Option (Result ℕ × World R)) (some (r, w)) (some (r', w'))
      → (r ≡ r') × (w ≡ w')
  returned_same r r' w w' e = ground (arith, e)

  -- The order cannot be cashed again.
  pub replayed :
      (order : Defunding) (w w2 : World R) (u : ℕ)
      → call_issuer (Issuer.defund order) w ≡ some (ok u, w2)
      → call_issuer (Issuer.defund order) w2 ≡ some (err replay, w2)
  unfolding call_issuer
  replayed order w w2 u e =
      let (result, left) = returned_same _ _ _ _ e in
      let i' = (Issuer.defund order w.issuer).1 in
      let again : Issuer.defund order i' ≡ (err replay, i') =
        defund_replayed order w.issuer i' u (ap (λ r. (r, i')) result) in
      rw (← left) (rw again refl)
