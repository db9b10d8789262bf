-- ===== src/Tests/Drawn.antt =====
-- Worlds that the harness opens with a generator that counts, and that are well drawn.
use digital_euro_wallet.Prelude.{
  some-injective, ℕ, zero, suc, ◌+◌, ◌≡◌, ◌≢◌, ◌∙◌, refl, sym, ap, List, [], ◌∷◌, some, arith,
  replicate, get_elem?, map, Every,
}
use digital_euro_wallet.Prelude.Int.{pos}
use digital_euro_wallet.Id.{AccountId, DeviceId}
use digital_euro_wallet.Signature.{Keypair}
use digital_euro_wallet.Wallet
use digital_euro_wallet.Wallet.{Wallet, sealed}
use digital_euro_wallet.Issuer.{DeviceRecord}
use digital_euro_wallet.Harness.{World}
use digital_euro_wallet.Harness.Grown.{IsWellDrawn}
use digital_euro_wallet.Harness.Members.{nonce_at}
use digital_euro_wallet.Tests.Toy.{counting, drawn_key}

-- What is drawn and computed for one account and its device.
pub record Drawn : Type 0 where
  pub account : ℕ
  pub balance : ℕ
  pub device : ℕ
  pub signature : ℕ
  pub rng : ℕ

abbrev pub drawn : ℕ → ℕ → ℕ → ℕ → ℕ → Drawn
drawn account balance device signature rng = record {
  account = account;
  balance = balance;
  device = device;
  signature = signature;
  rng = rng;
}

abbrev account_of : Drawn → AccountId
account_of d = record { bytes = replicate 16 d.account }

abbrev device_id : Drawn → DeviceId
device_id d = record { bytes = replicate 16 d.device }

abbrev pub wallet_of : Keypair → ℕ → Drawn → Wallet ℕ
wallet_of issuer limit d = record {
  certificate = record {
    device = device_id d;
    public_key = drawn_key.public;
    holding_limit_cents = limit;
    signature = d.signature;
  };
  keypair = drawn_key;
  issuer = issuer.public;
  balance_cents = 0;
  incoming = [];
  pending_funding = [];
  credited = [];
  counter = 0;
  state = sealed;
  rng = d.rng;
}

abbrev entry_of : Drawn → DeviceRecord
entry_of d = record {
  account = account_of d;
  public_key = drawn_key.public;
  last_defunding_counter = 0;
}

abbrev pub drawn_world : Keypair → ℕ → List Drawn → World ℕ
drawn_world issuer limit ds = record {
  issuer = record {
    keypair = issuer;
    accounts = map (λ d. (account_of d, d.balance)) ds;
    devices = map (λ d. (device_id d, entry_of d)) ds;
    funding_nonces = [];
    offline_float = pos 0;
  };
  accounts = map account_of ds;
  devices = map (wallet_of issuer limit) ds;
}

pub nonce_at-counting : (j s : ℕ) → nonce_at j s ≡ replicate 16 (s + j)
nonce_at-counting zero s = ground arith
nonce_at-counting (suc j) s = nonce_at-counting j (s + 1) ∙ ap (replicate 16) (omega arith)

pub replicate-injective : (m n : ℕ) → replicate 16 m ≡ replicate 16 n → m ≡ n
replicate-injective m n e = ground (arith, e)

pub nonce_at_once : (j l s : ℕ) → nonce_at j s ≡ nonce_at l s → j ≡ l
nonce_at_once j l s same =
    let sums : s + j ≡ s + l =
      replicate-injective (s + j) (s + l)
        (sym (nonce_at-counting j s) ∙ same ∙ nonce_at-counting l s) in
    omega (arith, sums)

-- Nobody draws twice the number that `key` gives.
abbrev pub AreDistinct : {T : Type 0} → (T → ℕ) → List T → Type 0
AreDistinct key [] = Unit
AreDistinct key (t ∷ ts) = Every ts (λ u. key t ≢ key u) × AreDistinct key ts

module _ {T U : Type 0} (f : T → U) where
  element :
      (ts : List T) (a : ℕ) (u : U)
      → get_elem? (map f ts) a ≡ some u
      → (t : T) × (get_elem? ts a ≡ some t) × (u ≡ f t)
  element [] a u h = absurd (ground (arith, h))
  element (t ∷ ts) zero u h = (t, refl, sym (some-injective h))
  element (t ∷ ts) (suc a) u h = element ts a u h

absent :
    {T : Type 0} (key : T → ℕ) (v a : ℕ) (ts : List T) (t : T)
    → Every ts (λ u. v ≢ key u)
    → get_elem? ts a ≡ some t
    → v ≢ key t
absent key v a [] t h at = absurd (ground (arith, at))
absent key v zero (u ∷ ts) t h at = rw (← some-injective at) h.0
absent key v (suc a) (u ∷ ts) t h at = absent key v a ts t h.1 at

once :
    {T : Type 0} (key : T → ℕ) (a b : ℕ) (ts : List T) (s t : T)
    → AreDistinct key ts
    → get_elem? ts a ≡ some s
    → get_elem? ts b ≡ some t
    → key s ≡ key t
    → a ≡ b
once key a b [] s t h hs ht e = absurd (ground (arith, hs))
once key zero zero (u ∷ ts) s t h hs ht e = refl
once key zero (suc b) (u ∷ ts) s t h hs ht e =
    absurd (absent key (key u) b ts t h.0 ht (ap key (some-injective hs) ∙ e))
once key (suc a) zero (u ∷ ts) s t h hs ht e =
    absurd (absent key (key u) a ts s h.0 hs (ap key (some-injective ht) ∙ sym e))
once key (suc a) (suc b) (u ∷ ts) s t h hs ht e = ap suc (once key a b ts s t h.1 hs ht e)

pub drawn_world-IsWellDrawn :
    (k : ℕ) (issuer : Keypair) (limit : ℕ) (ds : List Drawn)
    → AreDistinct (λ d. d.account) ds
    → AreDistinct (λ d. d.device) ds
    → IsWellDrawn k (drawn_world issuer limit ds)
drawn_world-IsWellDrawn k issuer limit ds accounts devices = record {
  device_once = λ a b d e ha hb same.
      let (s, hs, ds_eq) = element (wallet_of issuer limit) ds a d ha in
      let (t, ht, dt_eq) = element (wallet_of issuer limit) ds b e hb in
      let ids : device_id s ≡ device_id t =
        sym (ap Wallet.device ds_eq) ∙ same ∙ ap Wallet.device dt_eq in
      once (λ d. d.device) a b ds s t devices hs ht
        (replicate-injective s.device t.device (ap (λ i. i.bytes) ids));
  account_once = λ a b c ha hb.
      let (s, hs, es) = element account_of ds a c ha in
      let (t, ht, et) = element account_of ds b c hb in
      let ids : account_of s ≡ account_of t = sym es ∙ et in
      once (λ d. d.account) a b ds s t accounts hs ht
        (replicate-injective s.account t.account (ap (λ i. i.bytes) ids));
  nonces_once = λ a d j l _ _ _. nonce_at_once j l d.rng;
}
