-- ===== src/OfflinePayment/Worlds.antt =====
-- The worlds of examples/offline_payment.rs: the three devices, and the fourth.
use digital_euro_wallet.Prelude.{
  some-injective, ℕ, ◌<◌, ◌≡◌, ◌≢◌, ◌∙◌, refl, sym, ap, List, [], ◌∷◌, ◌++◌, Option, none, some, ok,
  arith, u64_modulus,
}
use digital_euro_wallet.HashMap
use digital_euro_wallet.HashMap.Laws.{get-insert_self, get-insert_ne}
use digital_euro_wallet.Crates.{Crates, KeyCrates, Rng, BigRng, SeedableRng, AreDocumented}
use digital_euro_wallet.Id.{AccountId, account_eq}
use digital_euro_wallet.Signature.{Keypair}
use digital_euro_wallet.Signature.RoundTrip.{IsKeypair}
use digital_euro_wallet.Signature.Generation.{generate}
use digital_euro_wallet.Signature.Generated.{IsKeySource, generate-IsKeypair}
use digital_euro_wallet.Wallet.{Wallet}
use digital_euro_wallet.Issuer
use digital_euro_wallet.Issuer.{Issuer}
use digital_euro_wallet.Harness.{World, and_then}
use digital_euro_wallet.Harness.Opening.{pushed}
use digital_euro_wallet.Harness.Grown.{IsWellDrawn}
use digital_euro_wallet.Harness.Enlarged.{IsOpening}
use digital_euro_wallet.Harness.Joins.{enrol-accounts, enrol-IsOpening}
use digital_euro_wallet.Harness.Turns.{expect-some, pushed-Extends, Extends-distinct}
use digital_euro_wallet.OfflinePayment.{holding_limit, key_bits, enrolled, three_accounts}

and_then-some :
    {T U : Type 0} (o : Option T) (f : T → Option U) (u : U)
    → and_then o f ≡ some u
    → (t : T) × (o ≡ some t) × (f t ≡ some u)
and_then-some none f u h = ground arith
and_then-some (some t) f u h = (t, refl, h)

module _ {S : Type 0} ⦃x : Crates⦄ ⦃y : KeyCrates⦄ ⦃q : Rng S⦄ ⦃b : BigRng S⦄ ⦃s : SeedableRng S⦄
    (fuel tries : ℕ) where
  module _ (doc : AreDocumented x) (source : IsKeySource S tries) (k : ℕ)
      (k_fits : k < u64_modulus) where
    -- One `device` of `main`, for an account that is open.
    enrolled-IsOpening :
        (account : AccountId) (seed balance : ℕ) (deposits : List ℕ) (w : World S) (rng g : S)
        (d : Wallet S) (i : Issuer)
        → HashMap.get account w.issuer.accounts ≡ some balance
        → enrolled fuel tries account seed w rng ≡ some (ok d, i, g)
        → IsOpening k holding_limit deposits w
        → IsWellDrawn k (pushed w account d i)
        → IsOpening k holding_limit (deposits ++ (balance ∷ [])) (pushed w account d i)
          × (i.accounts ≡ w.issuer.accounts)
    enrolled-IsOpening account seed balance deposits w rng g d i known enrolled h distinct = (
      enrol-IsOpening tries doc source fuel holding_limit key_bits k (omega arith) k_fits w account
          balance known (s.seed_from_u64 seed) rng g d i enrolled distinct h,
      enrol-accounts tries doc source fuel holding_limit key_bits k (omega arith) k_fits w account
          balance known (s.seed_from_u64 seed) rng g d i enrolled h.issuer_key,
    )

    -- the world once the accounts are open, and after each enrolment
    abbrev start : AccountId → AccountId → AccountId → Keypair → World S
    start a t m key = record {
      issuer =
          Issuer.open_account m 0
            (Issuer.open_account t 0 (Issuer.open_account a 5000 (Issuer.new key)));
      accounts = [];
      devices = [];
    }

    start-IsOpening :
        (a t m : AccountId) (key : Keypair)
        → IsKeypair key
        → IsOpening k holding_limit [] (start a t m key)
    unfolding Issuer.open_account Issuer.new
    start-IsOpening a t m key own_key = record {
      members = record {
        same_length = refl;
        member = λ a c d ha hd. ground arith;
        device_once = λ a b d e ha hb s. ground arith;
        account_once = λ a b c ha hb. ground arith;
      };
      float = refl;
      ledger = refl;
      no_nonces = refl;
      issuer_key = own_key;
    }

    module _ (a t m : AccountId) (a_not_t : a ≢ t) (a_not_m : a ≢ m) (t_not_m : t ≢ m)
        (key : Keypair) (own_key : IsKeypair key) where
      stored_m : HashMap.get m (start a t m key).issuer.accounts ≡ some 0
      unfolding Issuer.open_account
      stored_m = get-insert_self m 0 _

      stored_t : HashMap.get t (start a t m key).issuer.accounts ≡ some 0
      unfolding Issuer.open_account
      stored_t = get-insert_ne m t 0 _ (λ e. t_not_m (sym e)) ∙ get-insert_self t 0 _

      stored_a : HashMap.get a (start a t m key).issuer.accounts ≡ some 5000
      unfolding Issuer.open_account
      stored_a =
          get-insert_ne m a 0 _ (λ e. a_not_m (sym e))
          ∙ get-insert_ne t a 0 _ (λ e. a_not_t (sym e))
          ∙ get-insert_self a 5000 _

      enrolments-IsOpening :
          (d e f : Wallet S) (i j l : Issuer) (rng g g' g'' : S)
          → enrolled fuel tries a 1 (start a t m key) rng ≡ some (ok d, i, g)
          → enrolled fuel tries t 2 (pushed (start a t m key) a d i) g ≡ some (ok e, j, g')
          → enrolled fuel tries m 3 (pushed (pushed (start a t m key) a d i) t e j) g'
            ≡ some (ok f, l, g'')
          → IsWellDrawn k (pushed (pushed (pushed (start a t m key) a d i) t e j) m f l)
          → IsOpening k holding_limit
              (5000 ∷ 0 ∷ 0 ∷ [])
              (pushed (pushed (pushed (start a t m key) a d i) t e j) m f l)
      enrolments-IsOpening d e f i j l rng g g' g'' phone till device drawn =
          let w0 = start a t m key in
          let w1 = pushed w0 a d i in
          let w2 = pushed w1 t e j in
          let drawn2 : IsWellDrawn k w2 = Extends-distinct (pushed-Extends w2 m f l) drawn in
          let drawn1 : IsWellDrawn k w1 = Extends-distinct (pushed-Extends w1 t e j) drawn2 in
          let (h1, same1) =
            enrolled-IsOpening a 1 5000 [] w0 rng g d i stored_a phone
              (start-IsOpening a t m key own_key) drawn1 in
          let (h2, same2) =
            enrolled-IsOpening t 2 0 (5000 ∷ []) w1 g g' e j (ap (HashMap.get t) same1 ∙ stored_t)
              till h1 drawn2 in
          let (h3, _) =
            enrolled-IsOpening m 3 0 (5000 ∷ 0 ∷ []) w2 g' g'' f l
              (ap (HashMap.get m) (same2 ∙ same1) ∙ stored_m) device h2 drawn in
          h3

    -- The world that `main` starts in, where it is well drawn: 50 € in the first account, nothing on
    -- the devices.
    pub three_accounts-IsOpening :
        (a t m : AccountId) (w : World S)
        → a ≢ t
        → a ≢ m
        → t ≢ m
        → three_accounts fuel tries a t m ≡ some w
        → IsWellDrawn k w
        → IsOpening k holding_limit (5000 ∷ 0 ∷ 0 ∷ []) w × (w.accounts ≡ a ∷ t ∷ m ∷ [])
    unfolding three_accounts
    three_accounts-IsOpening a t m w at am tm opened distinct =
        let ((key, rng), made, rest) =
          and_then-some (generate fuel tries key_bits (s.seed_from_u64 2026)) _ w opened in
        let (own_key, _, _) = generate-IsKeypair tries source fuel key_bits _ key rng made in
        let w0 = start a t m key in
        let (d, i, g, phone, rest) = expect-some (enrolled fuel tries a 1 w0 rng) _ w rest in
        let w1 = pushed w0 a d i in
        let (e, j, g', till, rest) = expect-some (enrolled fuel tries t 2 w1 g) _ w rest in
        let w2 = pushed w1 t e j in
        let (f, l, g'', device, rest) = expect-some (enrolled fuel tries m 3 w2 g') _ w rest in
        let last : pushed w2 m f l ≡ w = some-injective rest in
        (
          rw (← last) (
              enrolments-IsOpening a t m at am tm key own_key d e f i j l rng g g' g'' phone till
                device (rw last distinct)),
          rw (← last) refl,
        )
