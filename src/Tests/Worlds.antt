-- ===== src/Tests/Worlds.antt =====
-- The random run of the harness at a concrete world, Alice and the bakery.
use digital_euro_wallet.Prelude.{
  some-injective, ℕ, zero, suc, ◌+◌, ◌-◌, ◌%◌, ◌<◌, ◌≡◌, ◌≢◌, refl, List, [], ◌∷◌, some, none,
  arith, ok, ltb, replicate, get_elem?, if◌then◌else◌, add_u64, sum_u64,
}
use native.Mathlib.Nat.{mod-lt}
use digital_euro_wallet.HashMap
use digital_euro_wallet.Crates.{RangeRng, IsRangeRng}
use digital_euro_wallet.Id.{AccountId}
use digital_euro_wallet.Wallet
use digital_euro_wallet.Wallet.{Wallet, cracked}
use digital_euro_wallet.Wallet.Genuine.{debited}
use digital_euro_wallet.Wallet.Request.{paid}
use digital_euro_wallet.Protocol.Payment.{AreReady}
use digital_euro_wallet.Harness
use digital_euro_wallet.Harness.Supply.{held}
use digital_euro_wallet.Harness.Counterfeit.{pay_counterfeits}
use digital_euro_wallet.Harness.{World, Operation, perform, run_fuzz}
use digital_euro_wallet.Harness.Ledger.{ledger_of}
use digital_euro_wallet.Harness.Refinement.{perform_all, settle_all, perform_all-refines}
use digital_euro_wallet.Harness.Members.{AreUnspent, IsMember}
use digital_euro_wallet.Harness.Sound.{IsSound}
use digital_euro_wallet.Harness.Run.{run_fuzz-passes}
use digital_euro_wallet.Tests.Drawn.{nonce_at-counting, replicate-injective}
use digital_euro_wallet.Tests.Twos.{two_once}
use digital_euro_wallet.Tests.Toy.{toy, toy-AreDocumented, counting}
use digital_euro_wallet.Tests.Parties.{
  alice, bakery, bank, entry_of, alice-IsEnrolled, bakery-IsEnrolled, alice-IsGenuine,
  bakery-IsGenuine, bakery-IsWellFormed, bakery-IsFresh,
}

-- It counts too, and takes each count into the range.
instance abbrev pub ranging : RangeRng ℕ
ranging = record {
  gen_range =
      λ low high rng. if ltb low high then some (low + rng % (high - low), rng + 1) else none;
}

pub ranging-IsRangeRng : IsRangeRng ranging
ranging-IsRangeRng = record {
  gen_range-within = λ low high rng h.
      let bound : rng % (high - low) < high - low = mod-lt rng (omega (arith, h)) in
      (low + rng % (high - low), rng + 1, ground arith, omega arith, omega arith);
}

abbrev account_of : ℕ → AccountId
account_of n = record { bytes = replicate 16 n }

abbrev duo : World ℕ
duo = record {
  issuer = bank;
  accounts = account_of 11 ∷ account_of 12 ∷ [];
  devices = alice ∷ bakery ∷ [];
}

unused-AreUnspent : (k : ℕ) (d : Wallet ℕ) → d.credited ≡ [] → AreUnspent k d bank
unfolding HashMap.get
unused-AreUnspent k d e = record {
  distinct = λ j l _ _ s. ground (
    arith,
    replicate-injective (d.rng + j) (d.rng + l),
    nonce_at-counting j d.rng,
    nonce_at-counting l d.rng,
    s,
  );
  not_credited = λ j _. rw e refl;
  not_used = λ j _. refl;
}

alice-IsMember : IsMember 3 50000 bank (account_of 11) alice
alice-IsMember = record {
  entry = entry_of 11;
  balance = 5000;
  enrolled = alice-IsEnrolled;
  own_account = refl;
  is_sealed = refl;
  no_incoming = refl;
  no_pending = refl;
  limit_same = refl;
  counter_room = omega arith;
  unspent = unused-AreUnspent 3 alice refl;
}

bakery-IsMember : IsMember 3 50000 bank (account_of 12) bakery
bakery-IsMember = record {
  entry = entry_of 12;
  balance = 5000;
  enrolled = bakery-IsEnrolled;
  own_account = refl;
  is_sealed = refl;
  no_incoming = refl;
  no_pending = refl;
  limit_same = refl;
  counter_room = omega arith;
  unspent = unused-AreUnspent 3 bakery refl;
}

duo-IsMember :
    (a : ℕ) (account : AccountId) (d : Wallet ℕ)
    → get_elem? duo.accounts a ≡ some account
    → get_elem? duo.devices a ≡ some d
    → IsMember 3 50000 bank account d
duo-IsMember zero account d ha hd =
    rw (← some-injective ha) (rw (← some-injective hd) alice-IsMember)
duo-IsMember (suc zero) account d ha hd =
    rw (← some-injective ha) (rw (← some-injective hd) bakery-IsMember)
duo-IsMember (suc (suc a)) account d ha hd = ground arith

different : Wallet.device alice ≢ Wallet.device bakery
different e = ground (arith, e)

other_accounts : account_of 11 ≢ account_of 12
other_accounts e = ground (arith, e)

duo-IsSound : IsSound 3 50000 11200 duo
unfolding HashMap.get
duo-IsSound = record {
  members = record {
    same_length = refl;
    member = duo-IsMember;
    device_once = two_once alice bakery Wallet.device different;
    account_once = λ a b c ha hb.
        two_once (account_of 11) (account_of 12) (λ c. c) other_accounts a b c c ha hb refl;
  };
  float = refl;
  supply = refl;
  money_fits = omega arith;
}

run_fuzz-passes_example :
    (w' : World ℕ) × (run_fuzz {G = ℕ} 3 2 50000 11200 duo 7 ≡ ok w') × IsSound 0 50000 11200 w'
run_fuzz-passes_example =
    run_fuzz-passes toy-AreDocumented ranging-IsRangeRng 3 2 50000 11200 duo 7 duo-IsSound refl
      (omega arith) (omega arith)

abbrev three_operations : List Operation
three_operations = Harness.fund 1 700 ∷ Harness.pay 0 1 2000 ∷ Harness.defund 0 300 ∷ []

-- The payment is refused: the payer does not have as much.
perform_all-refines_example :
    (w' : World ℕ) × (perform_all three_operations duo
      ≡ some ((settle_all 50000 three_operations (ledger_of duo)).0, w'))
    × (ledger_of w' ≡ (settle_all 50000 three_operations (ledger_of duo)).1)
    × IsSound 0 50000 11200 w'
perform_all-refines_example =
    perform_all-refines toy-AreDocumented three_operations 0 50000 11200 duo duo-IsSound
      (omega arith, ((omega arith, omega arith, ground arith), (omega arith, tt)))

abbrev mallory : Wallet ℕ
mallory = record alice { state = cracked }

abbrev trio : World ℕ
trio = record duo { devices = mallory ∷ bakery ∷ [] }

mallory-AreReady : AreReady mallory bakery
mallory-AreReady = record {
  payer_genuine = record {
    certified = alice-IsGenuine.certified;
    own_key = alice-IsGenuine.own_key;
    keypair = alice-IsGenuine.keypair;
  };
  payee_genuine = bakery-IsGenuine;
  same_issuer = refl;
  payee_formed = bakery-IsWellFormed;
  payee_fresh = bakery-IsFresh;
}

different_too : Wallet.device bakery ≢ Wallet.device mallory
different_too e = ground (arith, e)

pay_counterfeits_example :
    (w' : World ℕ) × (perform (Harness.pay 0 1 600) trio ≡ some (ok 600, w'))
    × (get_elem? w'.devices 0 ≡ some (debited 600 mallory))
    × (Wallet.balance (debited 600 mallory) ≡ Wallet.balance mallory)
    × (get_elem? w'.devices 1 ≡ some (paid 600 bakery))
    × (Wallet.balance (paid 600 bakery) ≡ Wallet.balance bakery + 600)
    × ((c : ℕ) → c ≢ 0 → c ≢ 1 → get_elem? w'.devices c ≡ get_elem? trio.devices c)
    × (w'.issuer ≡ trio.issuer)
    × (held w'.devices ≡ held trio.devices + 600)
pay_counterfeits_example =
    pay_counterfeits toy-AreDocumented trio 0 1 600 mallory bakery mallory-AreReady
      (λ e. omega (arith, e)) refl refl different_too refl (omega arith)
      (unfold Wallet.headroom Wallet.reserved add_u64 sum_u64 in omega arith) (omega arith)
