-- ===== src/Harness/Grown.antt =====
-- One more device in the world that src/main.rs opens.
use digital_euro_wallet.Prelude.{
  ℕ, ◌<◌, map, ◌≡◌, ◌≢◌, inl, inr, sym, refl, [], ◌∷◌, ◌++◌, some, pair_eq, list_eq, nat_eq, arith,
  length, length-append, get_elem?, get_elem?-append_one, get_elem?-append, get_elem?-append_last,
  get_elem?-lt, u64_modulus,
}
use digital_euro_wallet.HashMap
use digital_euro_wallet.HashMap.Laws.{get-insert_ne, get-insert_self}
use digital_euro_wallet.Crates.{Crates, Rng, AreDocumented}
use digital_euro_wallet.Id.{AccountId, account_eq, device_eq}
use digital_euro_wallet.Signature.{Keypair}
use digital_euro_wallet.Signature.RoundTrip.{IsKeypair}
use digital_euro_wallet.Wallet
use digital_euro_wallet.Wallet.{Wallet}
use digital_euro_wallet.Protocol.Enrolment.{new_wallet, new_entry, registered, install-IsEnrolled}
use digital_euro_wallet.Harness.{World}
use digital_euro_wallet.Harness.Members.{nonce_at, AreUnused, IsMember, agree-IsMember}
use digital_euro_wallet.Harness.Membership.{AreMembers}
use digital_euro_wallet.Harness.Supply.{stored}
use digital_euro_wallet.Harness.Ledger.{Ledger, stored-absent, ledger_of}
use mathlib.Core.List.{map-append}

module _ {S : Type 0} ⦃q : Rng S⦄ where
  -- Accounts and pseudonyms were drawn without a repetition, and each device's next `k` nonces are
  -- distinct.
  pub record IsWellDrawn (k : ℕ) (w : World S) : Type 0 where
    pub device_once :
        (a b : ℕ) (d e : Wallet S)
        → get_elem? w.devices a ≡ some d
        → get_elem? w.devices b ≡ some e
        → Wallet.device d ≡ Wallet.device e
        → a ≡ b
    pub account_once :
        (a b : ℕ) (account : AccountId)
        → get_elem? w.accounts a ≡ some account
        → get_elem? w.accounts b ≡ some account
        → a ≡ b
    pub nonces_once :
        (a : ℕ) (d : Wallet S) (j l : ℕ)
        → get_elem? w.devices a ≡ some d
        → j < k
        → l < k
        → nonce_at j d.rng ≡ nonce_at l d.rng
        → j ≡ l

-- the ledger with one more device, empty, and the balance of its account
abbrev pub joined : ℕ → Ledger → Ledger
joined balance l = record {
  balances = l.balances ++ (0 ∷ []);
  deposits = l.deposits ++ (balance ∷ []);
}

module _ {S : Type 0} ⦃x : Crates⦄ ⦃q : Rng S⦄ where
  module _ (w : World S) (account : AccountId) (balance : ℕ)
      (unlisted : (b : ℕ) → get_elem? w.accounts b ≢ some account) where
    -- `open_account` of an account that no device of the world has
    abbrev pub opened : World S
    opened = record w {
      issuer = record w.issuer { accounts = HashMap.insert account balance w.issuer.accounts };
    }

    pub opened-AreMembers :
        {k limit : ℕ}
        → AreMembers k limit w.issuer w.accounts w.devices
        → AreMembers k limit opened.issuer opened.accounts opened.devices
    opened-AreMembers h = record {
      same_length = h.same_length;
      member = λ a other d account_at device_at.
          agree-IsMember opened.issuer
            (record {
              keypair = refl;
              devices = refl;
              accounts =
                  get-insert_ne account other balance w.issuer.accounts
                    (λ e. unlisted a (rw e account_at));
              nonces = λ nonce. refl;
            })
            (h.member a other d account_at device_at);
      device_once = h.device_once;
      account_once = h.account_once;
    }

    pub opened-ledger : ledger_of opened ≡ ledger_of w
    opened-ledger = rw (stored-absent account balance w.issuer.accounts w.accounts unlisted) refl

    pub opened-stored : HashMap.get account opened.issuer.accounts ≡ some balance
    opened-stored = get-insert_self account balance w.issuer.accounts

  module _ (k limit : ℕ) (w : World S) (doc : AreDocumented x)
      (issuer_key : IsKeypair w.issuer.keypair) (key : Keypair) (account : AccountId) (balance : ℕ)
      (device_rng rng : S) (own_key : IsKeypair key) (limit_fits : limit < u64_modulus)
      (k_fits : k < u64_modulus)
      (known : HashMap.get account w.issuer.accounts ≡ some balance) where
    abbrev newest : Wallet S
    newest = new_wallet key w.issuer account limit device_rng rng

    -- `enrol` for an account that is open
    abbrev pub grown : World S
    grown = record {
      issuer = registered key w.issuer account limit device_rng rng;
      accounts = w.accounts ++ (account ∷ []);
      devices = w.devices ++ (newest ∷ []);
    }

    pub grown-ledger : ledger_of grown ≡ joined balance (ledger_of w)
    grown-ledger =
        let row : map (stored w.issuer.accounts) (account ∷ []) ≡ balance ∷ [] = rw known refl in
        cc (
          map-append (λ d. Wallet.balance d) w.devices (newest ∷ []),
          map-append (stored w.issuer.accounts) w.accounts (account ∷ []),
          row,
        )

    module _ (members : AreMembers k limit w.issuer w.accounts w.devices)
        (distinct : IsWellDrawn k grown) (unused : AreUnused k newest w.issuer) where
      newest_at : get_elem? grown.devices (length w.devices) ≡ some newest
      newest_at = get_elem?-append_last w.devices newest

      old_device_ne :
          (a : ℕ) (d : Wallet S)
          → get_elem? w.devices a ≡ some d
          → Wallet.device newest ≢ Wallet.device d
      old_device_ne a d at e =
          let same =
            distinct.device_once a (length w.devices) d newest
              (get_elem?-append w.devices (newest ∷ []) a d at) newest_at (sym e) in
          omega (arith, get_elem?-lt w.devices a d at, same)

      old-IsMember :
          (a : ℕ) (other : AccountId) (d : Wallet S)
          → get_elem? w.accounts a ≡ some other
          → get_elem? w.devices a ≡ some d
          → IsMember k limit grown.issuer other d
      old-IsMember a other d account_at device_at =
          agree-IsMember grown.issuer
            (record {
              keypair = refl;
              devices = get-insert_ne _ _ _ w.issuer.devices (old_device_ne a d device_at);
              accounts = refl;
              nonces = λ nonce. refl;
            })
            (members.member a other d account_at device_at)

      new-IsMember : IsMember k limit grown.issuer account newest
      unfolding HashMap.get
      new-IsMember = record {
        entry = new_entry key w.issuer account limit device_rng rng;
        balance = balance;
        enrolled =
            (install-IsEnrolled key w.issuer account limit device_rng rng doc issuer_key balance
              own_key limit_fits known).1;
        own_account = refl;
        is_sealed = refl;
        no_incoming = refl;
        no_pending = refl;
        limit_same = refl;
        counter_room = omega (arith, k_fits);
        unspent = record {
          distinct = λ j l. distinct.nonces_once (length w.devices) newest j l newest_at;
          not_credited = λ j _. refl;
          not_used = unused;
        };
      }

      grown-IsMember :
          (a : ℕ) (other : AccountId) (d : Wallet S)
          → get_elem? grown.accounts a ≡ some other
          → get_elem? grown.devices a ≡ some d
          → IsMember k limit grown.issuer other d
      grown-IsMember a other d account_at device_at =
          let at_account = get_elem?-append_one w.accounts account other a account_at in
          let at_device = get_elem?-append_one w.devices newest d a device_at in
          elim at_account [
            | inl old_account ↦ elim at_device [
              | inl old_device ↦ old-IsMember a other d old_account old_device
              | inr (last, _) ↦ absurd (
                  omega
                    (arith, last, members.same_length, get_elem?-lt w.accounts a other old_account))
            ]
            | inr (last, same_account) ↦ elim at_device [
              | inl old_device ↦
                  absurd (
                    omega (arith, last, members.same_length, get_elem?-lt w.devices a d old_device))
              | inr (_, same_device) ↦ rw (← same_account) (rw (← same_device) new-IsMember)
            ]
          ]

      pub grown-AreMembers : AreMembers k limit grown.issuer grown.accounts grown.devices
      grown-AreMembers = record {
        same_length = omega (
          arith,
          length-append w.accounts (account ∷ []),
          length-append w.devices (newest ∷ []),
          members.same_length,
        );
        member = grown-IsMember;
        device_once = distinct.device_once;
        account_once = distinct.account_once;
      }
