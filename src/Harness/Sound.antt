-- ===== src/Harness/Sound.antt =====
-- The invariant of the world of src/main.rs, and what it means that an operation keeps it.
use digital_euro_wallet.Prelude.{
  ℕ, zero, suc, ◌+◌, ◌<◌, ◌≡◌, ◌∙◌, ap, refl, List, [], ◌∷◌, Option, some, arith, err, get_elem?,
  set, length, length-set, map, u64_modulus,
}
use digital_euro_wallet.Prelude.Int.{pos}
use digital_euro_wallet.Crates.{Crates, Rng}
use digital_euro_wallet.Id.{AccountId}
use digital_euro_wallet.Error.{Error, Result}
use digital_euro_wallet.Wallet
use digital_euro_wallet.Wallet.{Wallet}
use digital_euro_wallet.Harness.{World, snapshot}
use digital_euro_wallet.Harness.Ledger.{Ledger, ledger_of}
use digital_euro_wallet.Harness.Members.{IsMember}
use digital_euro_wallet.Harness.Membership.{AreMembers, set-AreMembers}
use digital_euro_wallet.Harness.Supply.{held, held-set, deposited}

pub map-set_same {ℓ κ} :
    {S : Type ℓ} {T : Type κ} (f : S → T) (a : ℕ) (s s' : S) (xs : List S)
    → get_elem? xs a ≡ some s
    → f s' ≡ f s
    → map f (set a s' xs) ≡ map f xs
map-set_same f a s s' [] at e = refl
map-set_same f zero s s' (y ∷ ys) at e = ground arith
map-set_same f (suc a) s s' (y ∷ ys) at e = rw (map-set_same f a s s' ys at e) refl

module _ {R : Type 0} ⦃x : Crates⦄ ⦃g : Rng R⦄ where
  -- With `k` operations to come: every device is a member, the value on the devices is the float,
  -- and all money is online or on a device.
  pub record IsSound (k limit money : ℕ) (w : World R) : Type 0 where
    pub members : AreMembers k limit w.issuer w.accounts w.devices
    pub float : w.issuer.offline_float ≡ pos (held w.devices)
    pub supply : deposited w.issuer.accounts w.accounts + held w.devices ≡ money
    pub money_fits : money < u64_modulus

  -- An operation that does not panic, leaves a sound world, changes nothing if refused, and does what
  -- the ledger is expected to do.
  pub record Settles (k limit money : ℕ) (before : World R) (expected : Result ℕ × Ledger)
      (outcome : Option (Result ℕ × World R)) : Type 0 where
    pub result : Result ℕ
    pub after : World R
    pub returned : outcome ≡ some (result, after)
    pub sound : IsSound k limit money after
    pub unchanged : (e : Error) → result ≡ err e → snapshot after ≡ snapshot before
    pub same_size : length after.devices ≡ length before.devices
    pub matches : expected ≡ (result, ledger_of after)

  module _ {k limit money : ℕ} {w : World R} (h : IsSound k limit money w) (a : ℕ)
      (account : AccountId) (d d' : Wallet R) (account_at : get_elem? w.accounts a ≡ some account)
      (device_at : get_elem? w.devices a ≡ some d) (own : IsMember k limit w.issuer account d')
      (same_device : Wallet.device d' ≡ Wallet.device d) where
    -- A refusal that leaves the device with its balance and its reservations.
    pub refused-IsSound :
        Wallet.balance d' ≡ Wallet.balance d
        → IsSound k limit money (record w { devices = set a d' w.devices })
    refused-IsSound same_balance = record {
      members =
          set-AreMembers h.members a account d d' account_at device_at same_device own
            (λ other e _ _ m. m);
      float = h.float ∙ ap pos (omega (arith, held-set a d d' w.devices device_at, same_balance));
      supply = omega (arith, h.supply, held-set a d d' w.devices device_at, same_balance);
      money_fits = h.money_fits;
    }

    pub refused-snapshot :
        Wallet.balance d' ≡ Wallet.balance d
        → Wallet.reserved d' ≡ Wallet.reserved d
        → snapshot (record w { devices = set a d' w.devices }) ≡ snapshot w
    unfolding snapshot
    refused-snapshot same_balance same_reserved =
        rw
          (map-set_same {T = ℕ × ℕ} (λ d. (Wallet.balance d, Wallet.reserved d)) a d d' w.devices
            device_at (cc (same_balance, same_reserved)))
          refl

    pub refused-ledger :
        Wallet.balance d' ≡ Wallet.balance d
        → ledger_of (record w { devices = set a d' w.devices }) ≡ ledger_of w
    refused-ledger same_balance =
        rw (map-set_same (λ d. Wallet.balance d) a d d' w.devices device_at same_balance) refl

    pub refused-Settles :
        (error : Error)
        → Wallet.balance d' ≡ Wallet.balance d
        → Wallet.reserved d' ≡ Wallet.reserved d
        → Settles k limit money w
            (err error, ledger_of w)
            (some (err error, record w { devices = set a d' w.devices }))
    refused-Settles error same_balance same_reserved = record {
      result = err error;
      after = record w { devices = set a d' w.devices };
      returned = refl;
      sound = refused-IsSound same_balance;
      unchanged = λ e _. refused-snapshot same_balance same_reserved;
      same_size = length-set a d' w.devices;
      matches = cc (refused-ledger same_balance);
    }
