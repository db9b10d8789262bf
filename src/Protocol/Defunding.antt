-- ===== src/Protocol/Defunding.antt =====
-- `defund` of src/lib.rs: value back from an enrolled wallet to its account.
use digital_euro_wallet.Prelude.{
  ℕ, ◌+◌, ◌<◌, ◌≡◌, refl, arith, ok, err, ltb, nat_same, if◌then◌else◌, u64_modulus, add_u64_exact,
}
use digital_euro_wallet.Crates.{Crates, AreDocumented}
use digital_euro_wallet.Error.{Result, zero_amount, insufficient_funds}
use digital_euro_wallet.Wallet
use digital_euro_wallet.Wallet.{Wallet}
use digital_euro_wallet.Wallet.Genuine.{
  debited, signed_defunding, signed_defunding-verifies, defund_granted,
}
use digital_euro_wallet.Issuer.{Issuer, DeviceRecord}
use digital_euro_wallet.Issuer.Redemptions.{IsCashable, cashed, defund-cashable}
use digital_euro_wallet.Protocol
use digital_euro_wallet.Protocol.Enrolled.{IsEnrolled}

module _ {R : Type 0} ⦃x : Crates⦄ where
  -- What a defunding does, in the order in which its refusals come.
  abbrev pub redemption : Wallet R → Issuer → DeviceRecord → ℕ → ℕ → Result ℕ × Wallet R × Issuer
  redemption w i entry balance amount_cents =
      if nat_same amount_cents 0
      then (err zero_amount, w, i)
      else if ltb (Wallet.balance w) amount_cents
      then (err (insufficient_funds amount_cents (Wallet.balance w)), w, i)
      else (
        ok amount_cents,
        debited amount_cents w,
        cashed (signed_defunding amount_cents w) entry balance i,
      )

  defund_zero : (w : Wallet R) → Wallet.defund 0 w ≡ (err zero_amount, w)
  unfolding Wallet.defund
  defund_zero w = refl

  defund_short :
      (amount_cents : ℕ) (w : Wallet R)
      → 0 < amount_cents
      → w.balance_cents < amount_cents
      → Wallet.defund amount_cents w ≡ (err (insufficient_funds amount_cents w.balance_cents), w)
  unfolding Wallet.defund
  defund_short amount_cents w pos short = ground arith

  module _ (doc : AreDocumented x) (w : Wallet R) (i : Issuer) (entry : DeviceRecord)
      (balance amount_cents : ℕ) (enrolled : IsEnrolled w i entry balance)
      (room : w.counter + 1 < u64_modulus) where
    order-IsCashable : IsCashable (signed_defunding amount_cents w) entry balance i
    order-IsCashable = record {
      known = enrolled.known;
      signed = rw enrolled.same_key (signed_defunding-verifies amount_cents w doc enrolled.genuine);
      newer = omega (arith, add_u64_exact w.counter 1 room, enrolled.behind);
      account_open = enrolled.account_open;
    }

    -- Between an enrolled wallet whose counter does not wrap and its issuer, `defund` is exactly
    -- `redemption`: a zero amount and a lack of cover are refused and change nothing; any other
    -- order is cashed, so no value that the element debits is lost on the way.
    pub defund-eq-redemption :
        Protocol.defund w i amount_cents ≡ redemption w i entry balance amount_cents
    unfolding Protocol.defund
    defund-eq-redemption = ground (
      arith,
      defund_zero w,
      defund_short amount_cents w,
      defund_granted amount_cents w,
      defund-cashable (signed_defunding amount_cents w) entry balance i order-IsCashable,
    )
