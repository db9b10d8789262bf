-- ===== src/Harness/Stands.antt =====
-- A sound world of src/main.rs whose ledger is known, from one operation to the next.
use digital_euro_wallet.Prelude.{
  some-injective, ℕ, ◌<◌, zero, suc, ◌≡◌, ◌∙◌, refl, sym, ap, sum, some, List, [], ◌∷◌, ok, arith,
  get_elem?, get_elem?-some, get_elem?-lt, length, map,
}
use digital_euro_wallet.Prelude.Int.{pos}
use digital_euro_wallet.Crates.{Crates, Rng, AreDocumented}
use digital_euro_wallet.Error.{Error, Result}
use digital_euro_wallet.Wallet
use digital_euro_wallet.Wallet.{Wallet}
use digital_euro_wallet.Harness.{World, Operation, perform}
use digital_euro_wallet.Harness.Ledger.{Ledger, settle, ledger_of, get_elem?-map}
use digital_euro_wallet.Harness.Sound.{IsSound}
use digital_euro_wallet.Harness.Run.{IsInRange, perform-Settles}
use digital_euro_wallet.Id.{AccountId}
use digital_euro_wallet.Issuer
use digital_euro_wallet.Issuer.{Issuer}
use digital_euro_wallet.Harness.Supply.{stored}
use digital_euro_wallet.Harness.Play.{Reason, Play, ◌>>=◌, or_fail, kept, balance_at, seen}
use digital_euro_wallet.Harness.Members.{IsMember}
use digital_euro_wallet.Harness.Kept.{Keeps, perform-Keeps}
use digital_euro_wallet.Harness.Endings.{Passes, calls, looks}

module _ {R : Type 0} ⦃x : Crates⦄ ⦃g : Rng R⦄ where
  -- With `k` operations to come, a sound world of `n` devices and the ledger that it stands for.
  pub record Stands (k limit money n : ℕ) (l : Ledger) (w : World R) : Type 0 where
    pub sound : IsSound k limit money w
    pub size : length w.devices ≡ n
    pub ledger : ledger_of w ≡ l

  module _ {k limit money n : ℕ} {l : Ledger} {w : World R} where
    pub perform-Stands :
        (doc : AreDocumented x) (operation : Operation) (result : Result ℕ) (l' : Ledger)
        → Stands (suc k) limit money n l w
        → IsInRange n operation
        → settle limit operation l ≡ (result, l')
        → (w' : World R) × (perform operation w ≡ some (result, w'))
          × Stands k limit money n l' w'
          × Keeps w w'
    perform-Stands doc operation result l' h range settled =
        let s = perform-Settles doc operation h.sound (rw h.size range) in
        let same : Path (Result ℕ × Ledger) (s.result, ledger_of s.after) (result, l') =
          sym s.matches ∙ ap (settle limit operation) h.ledger ∙ settled in
        let one : s.result ≡ result = ap (λ p. p.0) same in
        let two : ledger_of s.after ≡ l' = ap (λ p. p.1) same in
        let returned : perform operation w ≡ some (result, s.after) =
          s.returned ∙ ap (λ r. some (r, s.after)) one in
        (
          s.after,
          returned,
          record { sound = s.sound; size = s.same_size ∙ h.size; ledger = two },
          perform-Keeps operation w s.after result returned,
        )

    pub balance_at-Stands :
        (a v : ℕ)
        → Stands k limit money n l w
        → get_elem? l.balances a ≡ some v
        → balance_at a w ≡ some v
    balance_at-Stands a v h e = seen-map a w.devices ∙ ap (λ l. get_elem? l.balances a) h.ledger ∙ e
      where
        seen-map :
            (a : ℕ) (devices : List (Wallet R))
            → seen (λ d. Wallet.balance d) (get_elem? devices a)
              ≡ get_elem? (map (λ d. Wallet.balance d) devices) a
        seen-map a [] = refl
        seen-map zero (d ∷ devices) = refl
        seen-map (suc a) (d ∷ devices) = seen-map a devices

    -- A scenario that performs an operation which the ledger lets succeed, and goes on.
    pub performs :
        (reason : Error → Reason) (f : ℕ → Play R (Unit {0})) (doc : AreDocumented x)
        (operation : Operation) (v : ℕ) (l' : Ledger)
        → Stands (suc k) limit money n l w
        → IsInRange n operation
        → settle limit operation l ≡ (ok v, l')
        → ((w' : World R) → Stands k limit money n l' w' → Keeps w w' → Passes (f v) w')
        → Passes (or_fail reason (perform operation) >>= f) w
    performs reason f doc operation v l' h range settled rest =
        let (w', e, h', same) = perform-Stands doc operation (ok v) l' h range settled in
        calls reason f (perform operation) w w' v e (rest w' h' same)

    -- A scenario that looks at the result of an operation, and goes on.
    pub attempts :
        (f : Result ℕ → Play R (Unit {0})) (doc : AreDocumented x) (operation : Operation)
        (result : Result ℕ) (l' : Ledger)
        → Stands (suc k) limit money n l w
        → IsInRange n operation
        → settle limit operation l ≡ (result, l')
        → ((w' : World R) → Stands k limit money n l' w' → Keeps w w' → Passes (f result) w')
        → Passes (kept (perform operation) >>= f) w
    attempts f doc operation result l' h range settled rest =
        let (w', e, h', same) = perform-Stands doc operation result l' h range settled in
        looks f (perform operation) w w' result e (rest w' h' same)

    pub float-Stands : Stands k limit money n l w → w.issuer.offline_float ≡ pos (sum l.balances)
    float-Stands h = h.sound.float ∙ ap (λ l. pos (sum l.balances)) h.ledger

    pub stored-Stands :
        (a : ℕ) (account : AccountId) (v : ℕ)
        → Stands k limit money n l w
        → get_elem? w.accounts a ≡ some account
        → get_elem? l.deposits a ≡ some (suc v)
        → Issuer.balance_of account w.issuer ≡ some (suc v)
    unfolding Issuer.balance_of
    stored-Stands a account v h at e =
        let row : get_elem? (map (stored w.issuer.accounts) w.accounts) a ≡ some (suc v) =
          ap (λ l. get_elem? l.deposits a) h.ledger ∙ e in
        let entry : stored w.issuer.accounts account ≡ suc v =
          some-injective
            (sym (get_elem?-map (stored w.issuer.accounts) w.accounts a account at) ∙ row) in
        ground (arith, entry)

    pub account-Stands :
        Stands k limit money (suc n) l w
        → (account : AccountId) × (get_elem? w.accounts 0 ≡ some account)
    account-Stands h =
        get_elem?-some w.accounts 0 (omega (arith, h.sound.members.same_length, h.size))

    -- A device of the world is an honest one.
    pub IsMember-Stands :
        (a : ℕ) (d : Wallet R)
        → Stands k limit money n l w
        → get_elem? w.devices a ≡ some d
        → (account : AccountId) × (get_elem? w.accounts a ≡ some account)
          × IsMember k limit w.issuer account d
    IsMember-Stands a d h at =
        let (account, account_at) =
          get_elem?-some w.accounts a
            (omega (arith, h.sound.members.same_length, get_elem?-lt w.devices a d at)) in
        (account, account_at, h.sound.members.member a account d account_at at)

    pub device-Stands :
        (a : ℕ)
        → Stands k limit money n l w
        → a < n
        → (d : Wallet R) × (account : AccountId) × (get_elem? w.devices a ≡ some d)
          × (get_elem? w.accounts a ≡ some account)
          × IsMember k limit w.issuer account d
    device-Stands a h below =
        let (d, at) = get_elem?-some w.devices a (omega (arith, h.size, below)) in
        let (account, account_at, m) = IsMember-Stands a d h at in (d, account, at, account_at, m)

    pub balance-Stands :
        (a v : ℕ) (d : Wallet R)
        → Stands k limit money n l w
        → get_elem? w.devices a ≡ some d
        → get_elem? l.balances a ≡ some v
        → Wallet.balance d ≡ v
    balance-Stands a v d h at e =
        let read : balance_at a w ≡ some (Wallet.balance d) = rw at refl in
        some-injective (sym read ∙ balance_at-Stands a v h e)
