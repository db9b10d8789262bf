-- ===== src/Harness/Scenarios/Cracked.antt =====
-- The scenario of the cracked element of src/main.rs, after its funding.
use digital_euro_wallet.Prelude.{ℕ, suc, ◌≤◌, ◌<◌, ◌≡◌, ◌∙◌, ap, some, arith, ok, get_elem?, set}
use digital_euro_wallet.Crates.{Crates, Rng, AreDocumented}
use digital_euro_wallet.Id.{AccountId}
use digital_euro_wallet.Wallet
use digital_euro_wallet.Wallet.{Wallet, cracked}
use digital_euro_wallet.Wallet.Genuine.{debited, signed_defunding}
use digital_euro_wallet.Issuer.Redemptions.{cashed}
use digital_euro_wallet.Protocol.Payment.{AreReady}
use digital_euro_wallet.Protocol.Defunding.{redemption, defund-eq-redemption}
use digital_euro_wallet.Harness
use digital_euro_wallet.Harness.{World, perform}
use digital_euro_wallet.Harness.Members.{IsMember}
use digital_euro_wallet.Harness.Steps.{settled_at, perform-defund}

module _ {R : Type 0} ⦃x : Crates⦄ ⦃g : Rng R⦄ where
  -- A payer that is ready stays so when it is cracked, and after it has paid.
  pub cracked-AreReady : (d e : Wallet R) → AreReady d e → AreReady (record d { state = cracked }) e
  cracked-AreReady d e h = record {
    payer_genuine = record {
      certified = h.payer_genuine.certified;
      own_key = h.payer_genuine.own_key;
      keypair = h.payer_genuine.keypair;
    };
    payee_genuine = h.payee_genuine;
    same_issuer = h.same_issuer;
    payee_formed = h.payee_formed;
    payee_fresh = h.payee_fresh;
  }

  pub debited-AreReady :
      (amount : ℕ) (d e : Wallet R) → AreReady d e → AreReady (debited amount d) e
  debited-AreReady amount d e h = record {
    payer_genuine = record {
      certified = h.payer_genuine.certified;
      own_key = h.payer_genuine.own_key;
      keypair = h.payer_genuine.keypair;
    };
    payee_genuine = h.payee_genuine;
    same_issuer = h.same_issuer;
    payee_formed = h.payee_formed;
    payee_fresh = h.payee_fresh;
  }

  -- A member's defunding of what it holds.
  pub perform-defund_member :
      {k limit : ℕ} (doc : AreDocumented x) (a amount : ℕ) (w : World R) (d : Wallet R)
      (account : AccountId) (m : IsMember (suc k) limit w.issuer account d)
      → get_elem? w.devices a ≡ some d
      → 0 < amount
      → amount ≤ Wallet.balance d
      → perform (Harness.defund a amount) w
        ≡ some (
          ok amount,
          record w {
            issuer = cashed (signed_defunding amount d) m.entry m.balance w.issuer;
            devices = set a (debited amount d) w.devices;
          },
        )
  perform-defund_member doc a amount w d account m at positive covered =
      let accepted : redemption d w.issuer m.entry m.balance amount ≡ (
        ok amount,
        debited amount d,
        cashed (signed_defunding amount d) m.entry m.balance w.issuer,
      ) =
        ground (arith, positive, covered) in
      perform-defund a amount w d at
      ∙ ap (settled_at a w) (
          defund-eq-redemption doc d w.issuer m.entry m.balance amount m.enrolled
            (omega (arith, m.counter_room))
          ∙ accepted)
