-- ===== src/Harness/DoubleSpend/Standing.antt =====
-- The double spending from a sound world of src/main.rs whose ledger is known.
use digital_euro_wallet.Prelude.{ℕ, ◌+◌, ◌≤◌, ◌<◌, ◌≡◌, ◌≢◌, some, arith, get_elem?}
use digital_euro_wallet.Crates.{Crates, Rng, AreDocumented}
use digital_euro_wallet.Wallet
use digital_euro_wallet.Wallet.{Wallet}
use digital_euro_wallet.Harness.{World}
use digital_euro_wallet.Harness.Ledger.{Ledger}
use digital_euro_wallet.Harness.Steps.{member-headroom}
use digital_euro_wallet.Harness.Payments.{members-AreReady}
use digital_euro_wallet.Harness.Stands.{Stands, device-Stands, balance-Stands}
use digital_euro_wallet.Harness.DoubleSpend.{IsSpentTwice}
use digital_euro_wallet.Harness.DoubleSpend.Spending.{AreReadyThree-IsSpentTwice}

module _ {R : Type 0} ⦃x : Crates⦄ ⦃g : Rng R⦄ {limit money n : ℕ} {l : Ledger} {w : World R} where
  -- Three devices that the ledger gives `s`, `p` and `q`: the first, once cracked, spends `v` twice.
  pub Stands-IsSpentTwice :
      (doc : AreDocumented x) (a b c v s p q : ℕ)
      → Stands 3 limit money n l w
      → (a < n) × (b < n) × (c < n)
      → (a ≢ b) × (a ≢ c) × (b ≢ c)
      → (get_elem? l.balances a ≡ some s)
        × (get_elem? l.balances b ≡ some p)
        × (get_elem? l.balances c ≡ some q)
      → (0 < v) × (v ≤ s) × (p + v ≤ limit) × (q + v ≤ limit)
      → (d : Wallet R) × (get_elem? w.devices a ≡ some d)
        × (Wallet.balance d ≡ s)
        × IsSpentTwice a b c v p q w d
  Stands-IsSpentTwice doc a b c v s p q h (a_in, b_in, c_in) (ab, ac, bc) (s_at, p_at, q_at)
        (positive, covered, first_fits, second_fits) =
      let (d, _, at, _, m) = device-Stands a h a_in in
      let (e, first_account, first_at, first_account_at, n) = device-Stands b h b_in in
      let (f, second_account, second_at, second_account_at, o) = device-Stands c h c_in in
      let once = h.sound.members.device_once in
      let holds = balance-Stands a s d h at s_at in
      let first_holds = balance-Stands b p e h first_at p_at in
      let second_holds = balance-Stands c q f h second_at q_at in
      (
        d,
        at,
        holds,
        AreReadyThree-IsSpentTwice limit a b c v p q w doc d e f (record {
          positive = positive;
          payer_not_first = ab;
          payer_not_second = ac;
          first_not_second = bc;
          payer_at = at;
          first_at = first_at;
          second_at = second_at;
          first_account = first_account;
          second_account = second_account;
          first_ready = members-AreReady m n;
          second_ready = members-AreReady m o;
          first_member = n;
          second_member = o;
          first_other = λ same. omega (arith, ab, once b a e d first_at at same);
          second_other = λ same. omega (arith, ac, once c a f d second_at at same);
          devices_apart = λ same. omega (arith, bc, once b c e f first_at second_at same);
          accounts_apart = λ same. omega (
            arith,
            bc,
            h.sound.members.account_once b c first_account first_account_at
                (rw (← same) at second_account_at),
          );
          payer_holds = omega (arith, holds, covered);
          first_holds = first_holds;
          second_holds = second_holds;
          first_room = omega (arith, member-headroom n, first_holds, first_fits, positive);
          second_room = omega (arith, member-headroom o, second_holds, second_fits, positive);
        }),
      )
