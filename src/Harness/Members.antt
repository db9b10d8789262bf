-- ===== src/Harness/Members.antt =====
-- A device of the world of src/main.rs, and what an operation of another device leaves of it.
use digital_euro_wallet.Prelude.{
  ℕ, zero, suc, ◌+◌, ◌<◌, ◌≡◌, ◌≢◌, refl, ap, Bytes, [], none, list_eq, nat_eq, pair_eq, arith,
  u64_modulus,
}
use digital_euro_wallet.HashMap
use digital_euro_wallet.HashMap.Laws.{get-insert_ne}
use digital_euro_wallet.Crates.{Crates, Rng}
use digital_euro_wallet.Id.{AccountId, account_eq, device_eq}
use digital_euro_wallet.Message.FundingRequest.{FundingRequest}
use digital_euro_wallet.Message.Defunding.{Defunding}
use digital_euro_wallet.Wallet
use digital_euro_wallet.Wallet.{Wallet, sealed}
use digital_euro_wallet.Issuer.{Issuer, DeviceRecord}
use digital_euro_wallet.Issuer.Grants.{granted}
use digital_euro_wallet.Issuer.Redemptions.{cashed}
use digital_euro_wallet.Protocol.Enrolled.{IsEnrolled}

module _ {R : Type 0} ⦃g : Rng R⦄ where
  -- the nonce of a later draw
  abbrev pub nonce_at : ℕ → R → Bytes
  nonce_at zero rng = (g.gen_bytes16 rng).0
  nonce_at (suc j) rng = nonce_at j (g.gen_bytes16 rng).1

  -- The issuer has seen none of the next `k` nonces.
  abbrev pub AreUnused : ℕ → Wallet R → Issuer → Type 0
  AreUnused k d i =
      (j : ℕ) → j < k → HashMap.get (Wallet.device d, nonce_at j d.rng) i.funding_nonces ≡ none

  -- The next `k` nonces are distinct, and neither the wallet nor the issuer has seen one.
  pub record AreUnspent (k : ℕ) (d : Wallet R) (i : Issuer) : Type 0 where
    pub distinct : (j l : ℕ) → j < k → l < k → nonce_at j d.rng ≡ nonce_at l d.rng → j ≡ l
    pub not_credited : (j : ℕ) → j < k → HashMap.get (nonce_at j d.rng) d.credited ≡ none
    pub not_used : AreUnused k d i

-- The issuer after an operation of another device answers for this one as it did before.
pub record AgreeOn {R : Type 0} (account : AccountId) (d : Wallet R) (i i' : Issuer) : Type 0 where
  pub keypair : i'.keypair ≡ i.keypair
  pub devices : HashMap.get (Wallet.device d) i'.devices ≡ HashMap.get (Wallet.device d) i.devices
  pub accounts : HashMap.get account i'.accounts ≡ HashMap.get account i.accounts
  pub nonces :
      (nonce : Bytes)
      → HashMap.get (Wallet.device d, nonce) i'.funding_nonces
        ≡ HashMap.get (Wallet.device d, nonce) i.funding_nonces

module _ {R : Type 0} ⦃x : Crates⦄ ⦃g : Rng R⦄ where
  -- An honest device between operations, enrolled for the account, with `k` operations before it.
  pub record IsMember (k limit : ℕ) (i : Issuer) (account : AccountId) (d : Wallet R) : Type 0 where
    pub entry : DeviceRecord
    pub balance : ℕ
    pub enrolled : IsEnrolled d i entry balance
    pub own_account : entry.account ≡ account
    pub is_sealed : d.state ≡ sealed
    pub no_incoming : d.incoming ≡ []
    pub no_pending : d.pending_funding ≡ []
    pub limit_same : Wallet.holding_limit d ≡ limit
    pub counter_room : d.counter + k < u64_modulus
    pub unspent : AreUnspent k d i

  module _ {k limit : ℕ} {i : Issuer} {account : AccountId} {d : Wallet R} where
    pub IsMember-weaken : IsMember (suc k) limit i account d → IsMember k limit i account d
    IsMember-weaken m = record {
      entry = m.entry;
      balance = m.balance;
      enrolled = m.enrolled;
      own_account = m.own_account;
      is_sealed = m.is_sealed;
      no_incoming = m.no_incoming;
      no_pending = m.no_pending;
      limit_same = m.limit_same;
      counter_room = omega (arith, m.counter_room);
      unspent = record {
        distinct = λ j l hj hl. m.unspent.distinct j l (omega (arith, hj)) (omega (arith, hl));
        not_credited = λ j hj. m.unspent.not_credited j (omega (arith, hj));
        not_used = λ j hj. m.unspent.not_used j (omega (arith, hj));
      };
    }

    pub agree-IsMember :
        (i' : Issuer)
        → AgreeOn account d i i'
        → IsMember k limit i account d
        → IsMember k limit i' account d
    agree-IsMember i' agree m = record {
      entry = m.entry;
      balance = m.balance;
      enrolled = record {
        genuine = m.enrolled.genuine;
        formed = m.enrolled.formed;
        issuer_key = cc (agree.keypair, m.enrolled.issuer_key);
        issuer_keypair = rw agree.keypair m.enrolled.issuer_keypair;
        known = cc (agree.devices, m.enrolled.known);
        same_key = m.enrolled.same_key;
        behind = m.enrolled.behind;
        account_open = cc (agree.accounts, m.own_account, m.enrolled.account_open);
      };
      own_account = m.own_account;
      is_sealed = m.is_sealed;
      no_incoming = m.no_incoming;
      no_pending = m.no_pending;
      limit_same = m.limit_same;
      counter_room = m.counter_room;
      unspent = record {
        distinct = m.unspent.distinct;
        not_credited = m.unspent.not_credited;
        not_used = λ j hj. cc (agree.nonces (nonce_at j d.rng), m.unspent.not_used j hj);
      };
    }

    -- A funding of another device, from another account, is not seen.
    pub granted-IsMember :
        (request : FundingRequest) (entry : DeviceRecord) (balance : ℕ)
        → request.device ≢ Wallet.device d
        → entry.account ≢ account
        → IsMember k limit i account d
        → IsMember k limit (granted request entry balance i) account d
    granted-IsMember request entry balance device_ne account_ne =
        agree-IsMember (granted request entry balance i) (record {
          keypair = refl;
          devices = refl;
          accounts = get-insert_ne _ account _ i.accounts account_ne;
          nonces = λ nonce. get-insert_ne _ _ _ i.funding_nonces (λ e. device_ne (ap (λ p. p.0) e));
        })

    -- Nor is a defunding.
    pub cashed-IsMember :
        (order : Defunding) (entry : DeviceRecord) (balance : ℕ)
        → order.device ≢ Wallet.device d
        → entry.account ≢ account
        → IsMember k limit i account d
        → IsMember k limit (cashed order entry balance i) account d
    cashed-IsMember order entry balance device_ne account_ne =
        agree-IsMember (cashed order entry balance i) (record {
          keypair = refl;
          devices = get-insert_ne _ _ _ i.devices device_ne;
          accounts = get-insert_ne _ account _ i.accounts account_ne;
          nonces = λ nonce. refl;
        })
