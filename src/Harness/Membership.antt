-- ===== src/Harness/Membership.antt =====
-- The devices and accounts of the world of src/main.rs, each device a member of its own account.
use digital_euro_wallet.Prelude.{
  ℕ, suc, ◌≡◌, ◌≢◌, ◌⊎◌, ◌∙◌, refl, sym, List, some, arith, length, get_elem?, set, length-set,
  get_elem?-set_self, get_elem?-set_ne, inl, inr,
}
use digital_euro_wallet.Crates.{Crates, Rng}
use digital_euro_wallet.Id.{AccountId}
use digital_euro_wallet.Wallet
use digital_euro_wallet.Wallet.{Wallet}
use digital_euro_wallet.Issuer.{Issuer}
use digital_euro_wallet.Harness.Members.{IsMember, IsMember-weaken}

module _ {R : Type 0} ⦃x : Crates⦄ ⦃g : Rng R⦄ where
  -- Index by index, and no device or account stands at two indices.
  pub record AreMembers (k limit : ℕ) (i : Issuer) (accounts : List AccountId)
      (devices : List (Wallet R)) : Type 0 where
    pub same_length : length accounts ≡ length devices
    pub member :
        (a : ℕ) (account : AccountId) (d : Wallet R)
        → get_elem? accounts a ≡ some account
        → get_elem? devices a ≡ some d
        → IsMember k limit i account d
    pub device_once :
        (a b : ℕ) (d e : Wallet R)
        → get_elem? devices a ≡ some d
        → get_elem? devices b ≡ some e
        → Wallet.device d ≡ Wallet.device e
        → a ≡ b
    pub account_once :
        (a b : ℕ) (account : AccountId)
        → get_elem? accounts a ≡ some account
        → get_elem? accounts b ≡ some account
        → a ≡ b

  pub AreMembers-weaken :
      {k limit : ℕ} {i : Issuer} {accounts : List AccountId} {devices : List (Wallet R)}
      → AreMembers (suc k) limit i accounts devices
      → AreMembers k limit i accounts devices
  AreMembers-weaken h = record {
    same_length = h.same_length;
    member = λ a account d ha hd. IsMember-weaken (h.member a account d ha hd);
    device_once = h.device_once;
    account_once = h.account_once;
  }

  module _ {k limit : ℕ} {i : Issuer} {accounts : List AccountId} {devices : List (Wallet R)}
      (h : AreMembers k limit i accounts devices) (a : ℕ) (account : AccountId) (d d' : Wallet R)
      (account_at : get_elem? accounts a ≡ some account) (device_at : get_elem? devices a ≡ some d)
      (same_device : Wallet.device d' ≡ Wallet.device d) where
    -- what stands at an index after the device at `a` was replaced
    set_at :
        (b : ℕ) (e : Wallet R)
        → get_elem? (set a d' devices) b ≡ some e
        → ((a ≡ b) × (e ≡ d')) ⊎ ((a ≢ b) × (get_elem? devices b ≡ some e))
    set_at b e he =
        ground (arith, get_elem?-set_self a d' d devices device_at, get_elem?-set_ne a b d' devices)

    old_at :
        (b : ℕ) (e : Wallet R)
        → get_elem? (set a d' devices) b ≡ some e
        → (e' : Wallet R) × (get_elem? devices b ≡ some e') × (Wallet.device e' ≡ Wallet.device e)
    old_at b e he = elim (set_at b e he) [
      | inl (p, q) ↦ (d, rw (← p) device_at, rw q (sym same_device))
      | inr (p, q) ↦ (e, q, refl)
    ]

    same_account :
        (b : ℕ) (other : AccountId) → a ≡ b → get_elem? accounts b ≡ some other → other ≡ account
    same_account b other p hb = ground (arith, account_at)

    -- An operation of one device that leaves it a member leaves all of them members, if it does no
    -- harm to a member of another account.
    pub set-AreMembers :
        {i' : Issuer}
        → IsMember k limit i' account d'
        → ((other : AccountId) (e : Wallet R)
            → Wallet.device d ≢ Wallet.device e
            → account ≢ other
            → IsMember k limit i other e
            → IsMember k limit i' other e)
        → AreMembers k limit i' accounts (set a d' devices)
    set-AreMembers own others = record {
      same_length = h.same_length ∙ sym (length-set a d' devices);
      member = λ b other e hb he. elim (set_at b e he) [
        | inl (p, q) ↦ rw (same_account b other p hb) (rw q own)
        | inr (p, q) ↦
            others other e (λ s. p (h.device_once a b d e device_at q s))
              (λ s. p (h.account_once a b account account_at (rw s hb))) (h.member b other e hb q)
      ];
      device_once = λ b c e f he hf s.
          let (e', he', se) = old_at b e he in
          let (f', hf', sf) = old_at c f hf in h.device_once b c e' f' he' hf' (se ∙ s ∙ sym sf);
      account_once = h.account_once;
    }
