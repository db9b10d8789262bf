-- ===== src/Harness/Run.antt =====
-- The random run of src/main.rs: no operation panics, none that is refused changes anything, and the
-- checks after each of them pass.
use digital_euro_wallet.Prelude.{
  ℕ, zero, suc, ◌+◌, ◌%◌, ◌≤◌, ◌<◌, ◌≡◌, ◌≢◌, inl, inr, refl, sym, List, [], ◌∷◌, some, arith, ok,
  err, get_elem?, get_elem?-some, get_elem?-lt, length, Bool-cases, if-cases, ◌==◌, nat_eq, ◌/◌,
  leb, ltb, ltb→lt, ◌∙◌, ◌-◌, sum_u128-eq-sum, Option,
}
use native.Mathlib.Nat.{mod-eq_of_lt, mod-eq-sub-mod}
use digital_euro_wallet.Prelude.Int.{pos, wrap_i128_exact, int_eq}
use digital_euro_wallet.Crates.{Crates, Rng, RangeRng, IsRangeRng, AreDocumented}
use digital_euro_wallet.Error.{Error, Result}
use digital_euro_wallet.Wallet
use digital_euro_wallet.Wallet.{Wallet}
use digital_euro_wallet.Wallet.Accounting.{reserved-eq-total}
use digital_euro_wallet.Id.{AccountId}
use digital_euro_wallet.Issuer
use digital_euro_wallet.Issuer.{Issuer}
use digital_euro_wallet.Harness
use digital_euro_wallet.Harness.{
  World, Operation, check_devices, check_invariants, on_devices, online, perform, judge, draw,
  run_fuzz, snapshot, snapshot_eq,
}
use digital_euro_wallet.Harness.Members.{IsMember}
use digital_euro_wallet.Harness.Supply.{held, deposited}
use digital_euro_wallet.Harness.Ledger.{Ledger, settle, ledger_of}
use digital_euro_wallet.Harness.Sound.{IsSound, Settles}
use digital_euro_wallet.Harness.Funds.{fund-Settles}
use digital_euro_wallet.Harness.Defunds.{defund-Settles}
use digital_euro_wallet.Harness.Payments.{pay-Settles}

-- What `check_invariants` asks of a device.
abbrev pub IsQuiet : {R : Type 0} → ℕ → Wallet R → Type 0
IsQuiet limit d = (Wallet.balance d ≤ limit) × (Wallet.reserved d ≡ 0)

check_devices-quiet :
    {R : Type 0} (limit index : ℕ) (devices : List (Wallet R))
    → ((b : ℕ) (d : Wallet R) → get_elem? devices b ≡ some d → IsQuiet limit d)
    → check_devices limit index devices ≡ ok tt
unfolding check_devices
check_devices-quiet limit index [] quiet = refl
check_devices-quiet limit index (d ∷ devices) quiet =
    ground
      (arith, quiet zero d refl, check_devices-quiet limit (suc index) devices (λ b. quiet (suc b)))

module _ {R : Type 0} ⦃x : Crates⦄ ⦃g : Rng R⦄ where
  member-IsQuiet :
      {k limit : ℕ} {i : Issuer} {account : AccountId} {d : Wallet R}
      → IsMember k limit i account d
      → IsQuiet limit d
  member-IsQuiet m = ground (arith, m, reserved-eq-total _ m.enrolled.formed)

  module _ {k limit money : ℕ} {w : World R} (h : IsSound k limit money w) where
    account_of_device :
        (a : ℕ) (d : Wallet R)
        → get_elem? w.devices a ≡ some d
        → (account : AccountId) × (get_elem? w.accounts a ≡ some account)
    account_of_device a d at =
        get_elem?-some w.accounts a
          (omega (arith, h.members.same_length, get_elem?-lt w.devices a d at))

    pub sound_devices : (b : ℕ) (d : Wallet R) → get_elem? w.devices b ≡ some d → IsQuiet limit d
    sound_devices b d at =
        let (account, account_at) = account_of_device b d at in
        member-IsQuiet (h.members.member b account d account_at at)

    on_devices-exact : on_devices w ≡ held w.devices
    unfolding on_devices
    on_devices-exact = sum_u128-eq-sum _ (omega (arith, h.supply, h.money_fits))

    online-exact : online w ≡ deposited w.issuer.accounts w.accounts
    unfolding online Issuer.balance_of
    online-exact = sum_u128-eq-sum _ (omega (arith, h.supply, h.money_fits))

    -- The checks pass on a sound world.
    pub check_sound : check_invariants limit money w ≡ ok tt
    unfolding check_invariants
    check_sound = ground (
      arith,
      check_devices-quiet limit 0 w.devices sound_devices,
      on_devices-exact,
      online-exact,
      wrap_i128_exact (pos (held w.devices)) (omega (arith, h.supply, h.money_fits)),
      h,
    )

-- An operation whose indices are in range, `pay` between two devices.
abbrev pub IsInRange : ℕ → Operation → Type 0
IsInRange n (Harness.fund a amount) = a < n
IsInRange n (Harness.defund a amount) = a < n
IsInRange n (Harness.pay a b amount) = (a < n) × (b < n) × (a ≢ b)

-- the payee's index, an offset round the ring of devices
other_index :
    (n a offset : ℕ)
    → a < n
    → 1 ≤ offset
    → offset < n
    → ((a + offset) % n < n) × (a ≢ (a + offset) % n)
other_index n a offset ha low high = elim (Bool-cases (ltb (a + offset) n)) [
  | inl below ↦
      let unwrapped : (a + offset) % n ≡ a + offset = mod-eq_of_lt (ltb→lt (a + offset) n below) in
      (ground arith, λ e. ground (arith, e))
  | inr above ↦
      let wrapped : (a + offset) % n ≡ (a + offset - n) % n = mod-eq-sub-mod (ground arith) in
      let once : (a + offset - n) % n ≡ a + offset - n = mod-eq_of_lt (ground arith) in
      (ground arith, λ e. ground (arith, e))
]

-- a draw that does not panic, of an operation in range
abbrev IsDrawn : {G : Type 0} → ℕ → Option (Operation × G) → Type 0
IsDrawn {G} n drawn =
    (operation : Operation) × (rng : G) × (drawn ≡ some (operation, rng)) × IsInRange n operation

module _ {G : Type 0} ⦃g : RangeRng G⦄ (range : IsRangeRng g) where
  -- What a step draws is in range, and the draw does not panic.
  draw-IsInRange : (n limit : ℕ) (rng : G) → 2 ≤ n → 2 ≤ limit → IsDrawn n (draw n limit rng)
  unfolding draw
  draw-IsInRange n limit rng hn hl =
      let (a, rng_a, at_a, _, ha) = range.gen_range-within 0 n rng (omega arith) in
      let (amount, rng_b, at_b, _, _) =
        range.gen_range-within 1 (limit / 2 + 1) rng_a (omega arith) in
      let (kind, rng_c, at_c, _, _) = range.gen_range-within 0 10 rng_b (omega arith) in
      let (offset, rng_d, at_d, low, high) = range.gen_range-within 1 n rng_c (omega arith) in
      let other = other_index n a offset ha low high in
      rw (at_a, at_b, at_c)
        (if-cases (IsDrawn n) (leb kind 1) _ _ (λ _. (Harness.fund a amount, rng_c, refl, ha))
          (λ _.
            if-cases (IsDrawn n) (kind == 2) _ _ (λ _. (Harness.defund a amount, rng_c, refl, ha))
              (λ _.
                rw at_d
                  (Harness.pay a ((a + offset) % n) amount, rng_d, refl, (ha, other.0, other.1)))))

module _ {R : Type 0} ⦃x : Crates⦄ ⦃q : Rng R⦄ (doc : AreDocumented x) where
  pub perform-Settles :
      {k limit money : ℕ} {w : World R} (operation : Operation)
      → IsSound (suc k) limit money w
      → IsInRange (length w.devices) operation
      → Settles k limit money w (settle limit operation (ledger_of w)) (perform operation w)
  perform-Settles (Harness.fund a amount) h range =
      let (d, device_at) = get_elem?-some _ a range in
      let (account, account_at) = account_of_device h a d device_at in
      fund-Settles doc h a amount account d account_at device_at
        (h.members.member a account d account_at device_at)
  perform-Settles (Harness.defund a amount) h range =
      let (d, device_at) = get_elem?-some _ a range in
      let (account, account_at) = account_of_device h a d device_at in
      defund-Settles doc h a amount account d account_at device_at
        (h.members.member a account d account_at device_at)
  perform-Settles (Harness.pay a b amount) h (range_a, range_b, ne) =
      let (d, payer_at) = get_elem?-some _ a range_a in
      let (e, payee_at) = get_elem?-some _ b range_b in
      let (account, account_at) = account_of_device h a d payer_at in
      let (other, other_at) = account_of_device h b e payee_at in
      pay-Settles doc h a b amount ne account other d e account_at other_at payer_at payee_at
        (h.members.member a account d account_at payer_at)
        (h.members.member b other e other_at payee_at)
        (λ same. ne (h.members.device_once a b d e payer_at payee_at (sym same)))

  judge-kept :
      (limit money : ℕ) (w w' : World R) (result : Result ℕ)
      → check_invariants limit money w' ≡ ok tt
      → ((e : Error) → result ≡ err e → snapshot w' ≡ snapshot w)
      → judge limit money w (some (result, w')) ≡ ok w'
  unfolding judge
  judge-kept limit money w w' (ok v) checked unchanged = rw (judge, checked) refl
  judge-kept limit money w w' (err e) checked unchanged =
      rw (judge, (snapshot_eq.same_iff (snapshot w') (snapshot w)).1 (unchanged e refl), checked)
        refl

  -- A settled operation passes the judge.
  judge-settled :
      {k limit money : ℕ} {w : World R} {expected : Result ℕ × Ledger}
      {o : Option (Result ℕ × World R)} (s : Settles k limit money w expected o)
      → judge limit money w o ≡ ok s.after
  judge-settled s =
      rw s.returned (judge-kept _ _ _ s.after s.result (check_sound s.sound) s.unchanged)

  module _ {G : Type 0} ⦃g : RangeRng G⦄ (range : IsRangeRng g) where
    run_fuzz-step :
        (ops n limit money : ℕ) (w w' : World R) (rng rng' : G) (operation : Operation)
        → draw n limit rng ≡ some (operation, rng')
        → judge limit money w (perform operation w) ≡ ok w'
        → run_fuzz (suc ops) n limit money w rng ≡ run_fuzz ops n limit money w' rng'
    unfolding run_fuzz
    run_fuzz-step ops n limit money w w' rng rng' operation drawn judged =
        rw (run_fuzz, drawn, judged) refl

    -- From a sound world of two devices or more, with a holding limit of at least two cents, a run
    -- of any number of operations ends: no operation panics, no refused operation changes a balance,
    -- a reservation or the float, and the checks after every operation pass. The world it ends in is
    -- sound again. Sound means, for so many operations to come, that no generator repeats a nonce
    -- and no counter runs over.
    pub run_fuzz-passes :
        (ops n limit money : ℕ) (w : World R) (rng : G)
        → IsSound ops limit money w
        → length w.devices ≡ n
        → 2 ≤ n
        → 2 ≤ limit
        → (w' : World R) × (run_fuzz ops n limit money w rng ≡ ok w') × IsSound 0 limit money w'
    unfolding run_fuzz
    run_fuzz-passes zero n limit money w rng h size hn hl = (w, refl, h)
    run_fuzz-passes (suc ops) n limit money w rng h size hn hl =
        let (operation, rng', drawn, ranged) = draw-IsInRange range n limit rng hn hl in
        let s = perform-Settles operation h (rw size ranged) in
        let (w', done, sound) =
          run_fuzz-passes ops n limit money s.after rng' s.sound (s.same_size ∙ size) hn hl in
        (
          w',
          run_fuzz-step ops n limit money w s.after rng rng' operation drawn (judge-settled s)
              ∙ done,
          sound,
        )
