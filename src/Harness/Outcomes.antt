-- ===== src/Harness/Outcomes.antt =====
-- What the device that an operation of src/main.rs names is afterwards: a member still, with one
-- operation fewer before it.
use digital_euro_wallet.Prelude.{
  ℕ, zero, suc, ◌-◌, add_u64, ◌≤◌, ◌<◌, ◌≢◌, ◌∙◌, ap, list_eq, nat_eq, pair_eq, arith,
  add_u64_exact,
}
use digital_euro_wallet.HashMap.Laws.{get-insert_ne, get-insert_self}
use digital_euro_wallet.Crates.{Crates, Rng}
use digital_euro_wallet.Id.{AccountId, account_eq, device_eq}
use digital_euro_wallet.Wallet
use digital_euro_wallet.Wallet.{Wallet, sealed, balance_after}
use digital_euro_wallet.Wallet.Accounting.{headroom-exact, reserved-eq-total}
use digital_euro_wallet.Wallet.Genuine.{debited, signed_defunding}
use digital_euro_wallet.Wallet.Request.{next_nonce, redrawn, paid}
use digital_euro_wallet.Wallet.Topup.{signed_request}
use digital_euro_wallet.Issuer.{Issuer, DeviceRecord}
use digital_euro_wallet.Issuer.Grants.{granted}
use digital_euro_wallet.Issuer.Redemptions.{cashed}
use digital_euro_wallet.Protocol.Funding.{funded}
use digital_euro_wallet.Harness.Members.{nonce_at, AreUnspent, IsMember, IsMember-weaken}

module _ {R : Type 0} ⦃g : Rng R⦄ {k : ℕ} {d : Wallet R} {i : Issuer}
    (u : AreUnspent (suc k) d i) where
  later_ne : (j : ℕ) → j < k → next_nonce d ≢ nonce_at (suc j) d.rng
  later_ne j hj e = ground (arith, u.distinct zero (suc j) (omega arith) (omega (arith, hj)) e)

  redrawn-AreUnspent : AreUnspent k (redrawn d) i
  redrawn-AreUnspent = record {
    distinct = λ j l hj hl e.
        omega (arith, u.distinct (suc j) (suc l) (omega (arith, hj)) (omega (arith, hl)) e);
    not_credited = λ j hj. u.not_credited (suc j) (omega (arith, hj));
    not_used = λ j hj. u.not_used (suc j) (omega (arith, hj));
  }

  paid-AreUnspent : (amount_cents : ℕ) → AreUnspent k (paid amount_cents d) i
  paid-AreUnspent amount_cents = record {
    distinct = redrawn-AreUnspent.distinct;
    not_credited = λ j hj.
        get-insert_ne _ _ _ d.credited (later_ne j hj) ∙ redrawn-AreUnspent.not_credited j hj;
    not_used = redrawn-AreUnspent.not_used;
  }

  -- The grant records the nonce that the wallet has drawn.
  funded-AreUnspent :
      ⦃x : Crates⦄
      → (amount_cents : ℕ) (entry : DeviceRecord) (balance : ℕ)
      → AreUnspent k
          (funded amount_cents d)
          (granted (signed_request amount_cents d) entry balance i)
  funded-AreUnspent amount_cents entry balance =
      let p = paid-AreUnspent amount_cents in
      record {
        distinct = p.distinct;
        not_credited = p.not_credited;
        not_used = λ j hj.
            get-insert_ne _ _ _ i.funding_nonces (λ e. later_ne j hj (ap (λ p. p.1) e))
            ∙ p.not_used j hj;
      }

module _ {R : Type 0} ⦃x : Crates⦄ ⦃g : Rng R⦄ {k limit : ℕ} {i : Issuer} {account : AccountId}
    {d : Wallet R} (m : IsMember (suc k) limit i account d) where
  -- the fields that no operation writes
  pub redrawn-IsMember : IsMember k limit i account (redrawn d)
  redrawn-IsMember = ground (arith, m, redrawn-AreUnspent m.unspent)

  pub paid-IsMember :
      (amount_cents : ℕ)
      → amount_cents ≤ Wallet.headroom d
      → IsMember k limit i account (paid amount_cents d)
  paid-IsMember amount_cents room = ground (
    arith,
    m,
    headroom-exact d m.enrolled.formed,
    reserved-eq-total d m.enrolled.formed,
    paid-AreUnspent m.unspent amount_cents,
  )

  pub debited-IsMember : (amount_cents : ℕ) → IsMember k limit i account (debited amount_cents d)
  debited-IsMember amount_cents =
      ground
        (arith, m, add_u64_exact d.counter 1 (omega (arith, m.counter_room)), IsMember-weaken m)

  pub funded-IsMember :
      (amount_cents : ℕ)
      → amount_cents ≤ Wallet.headroom d
      → IsMember k limit
          (granted (signed_request amount_cents d) m.entry m.balance i)
          account
          (funded amount_cents d)
  funded-IsMember amount_cents room =
      let p = paid-IsMember amount_cents room in
      let open_at = get-insert_self m.entry.account (m.balance - amount_cents) i.accounts in
      record {
        entry = m.entry;
        balance = m.balance - amount_cents;
        enrolled = record {
          genuine = p.enrolled.genuine;
          formed = p.enrolled.formed;
          issuer_key = m.enrolled.issuer_key;
          issuer_keypair = m.enrolled.issuer_keypair;
          known = m.enrolled.known;
          same_key = m.enrolled.same_key;
          behind = m.enrolled.behind;
          account_open = open_at;
        };
        own_account = m.own_account;
        is_sealed = m.is_sealed;
        no_incoming = m.no_incoming;
        no_pending = m.no_pending;
        limit_same = m.limit_same;
        counter_room = p.counter_room;
        unspent = funded-AreUnspent m.unspent amount_cents m.entry m.balance;
      }

  pub cashed-IsMember_self :
      (amount_cents : ℕ)
      → IsMember k limit
          (cashed (signed_defunding amount_cents d) m.entry m.balance i)
          account
          (debited amount_cents d)
  cashed-IsMember_self amount_cents =
      let p = debited-IsMember amount_cents in
      record {
        entry = record m.entry { last_defunding_counter = add_u64 d.counter 1 };
        balance = add_u64 m.balance amount_cents;
        enrolled = record {
          genuine = p.enrolled.genuine;
          formed = p.enrolled.formed;
          issuer_key = m.enrolled.issuer_key;
          issuer_keypair = m.enrolled.issuer_keypair;
          known = get-insert_self (Wallet.device d) _ i.devices;
          same_key = m.enrolled.same_key;
          behind = omega arith;
          account_open = get-insert_self m.entry.account _ i.accounts;
        };
        own_account = m.own_account;
        is_sealed = m.is_sealed;
        no_incoming = m.no_incoming;
        no_pending = m.no_pending;
        limit_same = m.limit_same;
        counter_room = p.counter_room;
        unspent = record {
          distinct = (IsMember-weaken m).unspent.distinct;
          not_credited = (IsMember-weaken m).unspent.not_credited;
          not_used = (IsMember-weaken m).unspent.not_used;
        };
      }
