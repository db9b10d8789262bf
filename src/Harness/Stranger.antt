-- ===== src/Harness/Stranger.antt =====
-- A device of its own pseudonym and account, added to a sound world of src/main.rs.
use digital_euro_wallet.Prelude.{
  ℕ, ◌<◌, ◌≡◌, ◌≢◌, inl, inr, sym, some, arith, get_elem?, get_elem?-append_one, get_elem?-some,
  get_elem?-lt,
}
use digital_euro_wallet.Crates.{Crates, Rng}
use digital_euro_wallet.Id.{AccountId}
use digital_euro_wallet.Wallet
use digital_euro_wallet.Wallet.{Wallet}
use digital_euro_wallet.Issuer.{Issuer}
use digital_euro_wallet.Harness.{World}
use digital_euro_wallet.Harness.Opening.{pushed}
use digital_euro_wallet.Harness.Members.{nonce_at}
use digital_euro_wallet.Harness.Membership.{AreMembers}
use digital_euro_wallet.Harness.Kept.{IsStranger}
use digital_euro_wallet.Harness.Grown.{IsWellDrawn}

module _ {S : Type 0} ⦃x : Crates⦄ ⦃q : Rng S⦄ where
  pub pushed-IsWellDrawn :
      {k limit : ℕ} (w : World S) (account : AccountId) (d : Wallet S) (i : Issuer)
      → AreMembers k limit w.issuer w.accounts w.devices
      → IsStranger (Wallet.device d) w
      → ((a : ℕ) → get_elem? w.accounts a ≢ some account)
      → ((j l : ℕ) → j < k → l < k → nonce_at j d.rng ≡ nonce_at l d.rng → j ≡ l)
      → IsWellDrawn k (pushed w account d i)
  pushed-IsWellDrawn w account d i h stranger unlisted nonces = record {
    device_once = λ a b e f ha hb same. elim (get_elem?-append_one w.devices d e a ha) [
      | inl old ↦ elim (get_elem?-append_one w.devices d f b hb) [
        | inl old' ↦ h.device_once a b e f old old' same
        | inr (last, new) ↦ absurd (stranger a e old (rw new same))
      ]
      | inr (last, new) ↦ elim (get_elem?-append_one w.devices d f b hb) [
        | inl old' ↦ absurd (stranger b f old' (rw new (sym same)))
        | inr (last', _) ↦ omega (arith, last, last')
      ]
    ];
    account_once = λ a b c ha hb. elim (get_elem?-append_one w.accounts account c a ha) [
      | inl old ↦ elim (get_elem?-append_one w.accounts account c b hb) [
        | inl old' ↦ h.account_once a b c old old'
        | inr (last, new) ↦ absurd (unlisted a (rw new old))
      ]
      | inr (last, new) ↦ elim (get_elem?-append_one w.accounts account c b hb) [
        | inl old' ↦ absurd (unlisted b (rw new old'))
        | inr (last', _) ↦ omega (arith, last, last')
      ]
    ];
    nonces_once = λ a e j l ha hj hl. elim (get_elem?-append_one w.devices d e a ha) [
      | inl old ↦
          let (own, own_at) =
            get_elem?-some w.accounts a
              (omega (arith, h.same_length, get_elem?-lt w.devices a e old)) in
          (h.member a own e own_at old).unspent.distinct j l hj hl
      | inr (_, new) ↦ rw (← new) (nonces j l hj hl)
    ];
  }
