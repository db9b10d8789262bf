-- ===== src/Harness/Cases.antt =====
-- The outcomes of the operations that src/main.rs runs, as cases: refused, refused after a nonce
-- was drawn, or done.
use digital_euro_wallet.Prelude.{
  ℕ, ◌≤◌, ◌≡◌, ◌≢◌, refl, arith, ok, err, some, none, ltb, nat_same, if-cases, ◌==◌, list_eq,
  nat_eq,
}
use digital_euro_wallet.Harness.Ledger.{refusal, refusal_online}
use digital_euro_wallet.Crates.{Crates, Rng}
use digital_euro_wallet.Id.{device_eq, device_same_iff}
use digital_euro_wallet.Error.{Error, Result}
use digital_euro_wallet.Wallet
use digital_euro_wallet.Wallet.{Wallet}
use digital_euro_wallet.Wallet.Genuine.{debited, signed_defunding}
use digital_euro_wallet.Wallet.Request.{redrawn, paid}
use digital_euro_wallet.Wallet.Topup.{signed_request}
use digital_euro_wallet.Issuer.{Issuer, DeviceRecord}
use digital_euro_wallet.Issuer.Grants.{granted}
use digital_euro_wallet.Issuer.Redemptions.{cashed}
use digital_euro_wallet.Protocol.Funding.{funded, topup}
use digital_euro_wallet.Protocol.Defunding.{redemption}
use digital_euro_wallet.Protocol.Payment.{payment}

module _ {R : Type 0} ⦃x : Crates⦄ (w : Wallet R) (i : Issuer) (entry : DeviceRecord)
    (balance amount : ℕ) (P : Result ℕ × Wallet R × Issuer → Type 0) where
  pub topup-cases :
      ⦃g : Rng R⦄
      → ((e : Error) → refusal (Wallet.headroom w) balance amount ≡ some e → P (err e, w, i))
      → ((e : Error)
          → refusal (Wallet.headroom w) balance amount ≡ some e
          → P (err e, redrawn w, i))
      → (refusal (Wallet.headroom w) balance amount ≡ none
          → amount ≤ Wallet.headroom w
          → amount ≤ balance
          → P (ok amount, funded amount w, granted (signed_request amount w) entry balance i))
      → P (topup w i entry balance amount)
  topup-cases refuse redraw grant =
      if-cases P (nat_same amount 0) _ _ (λ no_amount. refuse _ (rw no_amount refl))
        (λ some_amount.
          if-cases P (ltb (Wallet.headroom w) amount) _ _
            (λ over. refuse _ (rw (some_amount, over) refl))
            (λ room.
              if-cases P (ltb balance amount) _ _
                (λ short. redraw _ (rw (some_amount, room, short) refl))
                (λ covered.
                  grant (rw (some_amount, room, covered) refl) (ground arith) (ground arith))))

  pub redemption-cases :
      ((e : Error) → refusal_online (Wallet.balance w) amount ≡ some e → P (err e, w, i))
      → (refusal_online (Wallet.balance w) amount ≡ none
          → amount ≤ Wallet.balance w
          → P (ok amount, debited amount w, cashed (signed_defunding amount w) entry balance i))
      → P (redemption w i entry balance amount)
  redemption-cases refuse cash =
      if-cases P (nat_same amount 0) _ _ (λ no_amount. refuse _ (rw no_amount refl))
        (λ some_amount.
          if-cases P (ltb (Wallet.balance w) amount) _ _
            (λ short. refuse _ (rw (some_amount, short) refl))
            (λ covered. cash (rw (some_amount, covered) refl) (ground arith)))

module _ {V Q : Type 0} ⦃x : Crates⦄ ⦃q : Rng Q⦄ (payer : Wallet V) (payee : Wallet Q) (amount : ℕ)
    (P : Result ℕ × Wallet V × Wallet Q → Type 0) where
  pub payment-cases :
      let refused = refusal (Wallet.headroom payee) (Wallet.balance payer) amount in
      Wallet.device payee ≢ Wallet.device payer
      → ((e : Error) → refused ≡ some e → P (err e, payer, payee))
      → ((e : Error) → refused ≡ some e → P (err e, payer, redrawn payee))
      → (refused ≡ none
          → amount ≤ Wallet.headroom payee
          → amount ≤ Wallet.balance payer
          → P (ok amount, debited amount payer, paid amount payee))
      → P (payment payer payee amount)
  payment-cases others refuse redraw accept =
      let same = device_same_iff (Wallet.device payee) (Wallet.device payer) in
      if-cases P (nat_same amount 0) _ _ (λ no_amount. refuse _ (rw no_amount refl))
        (λ some_amount.
          if-cases P (ltb (Wallet.headroom payee) amount) _ _
            (λ over. refuse _ (rw (some_amount, over) refl))
            (λ room.
              if-cases P (Wallet.device payee == Wallet.device payer) _ _
                (λ self. absurd (others (same.0 self)))
                (λ _.
                  if-cases P (ltb (Wallet.balance payer) amount) _ _
                    (λ short. redraw _ (rw (some_amount, room, short) refl))
                    (λ covered.
                      accept (rw (some_amount, room, covered) refl) (ground arith)
                        (ground arith)))))
