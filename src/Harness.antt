-- ===== src/Harness.antt =====
-- src/main.rs: the acceptance harness, its world of devices, and the random run with the checks
-- after each operation.
pub mod DoubleSpend
pub mod Members
pub mod Outcomes
pub mod Membership
pub mod Supply
pub mod Ledger
pub mod Sound
pub mod Cases
pub mod Steps
pub mod Funds
pub mod Defunds
pub mod Payments
pub mod Run
pub mod Refinement
pub mod CommandLine
pub mod Play
pub mod Untouched
pub mod Kept
pub mod Endings
pub mod Called
pub mod Stands
pub mod Scenarios
pub mod Acceptance
pub mod Counterfeit
pub mod Opening
pub mod Grown
pub mod Enlarged
pub mod Joins
pub mod Stranger
pub mod Turns
pub mod Openable
pub mod Opened
use digital_euro_wallet.Prelude.{
  ℕ, zero, suc, ◌+◌, ◌/◌, ◌%◌, ◌^◌, not, PartialEq, Option, none, some, List, [], ◌∷◌, ◌==◌, nat_eq,
  list_eq, pair_eq, option_eq, leb, if◌then◌else◌, StdResult, ok, err, get_elem?, set, map,
  sum_u128,
}
use digital_euro_wallet.Prelude.Int.{ℤ, pos, wrap_i128, int_eq}
use digital_euro_wallet.Crates.{Crates, Rng, RangeRng}
use digital_euro_wallet.Id.{AccountId}
use digital_euro_wallet.Error.{Error, Result}
use digital_euro_wallet.Wallet
use digital_euro_wallet.Wallet.{Wallet}
use digital_euro_wallet.Issuer
use digital_euro_wallet.Issuer.{Issuer}
use digital_euro_wallet.Protocol

pub record World (R : Type 0) : Type 0 where
  pub issuer : Issuer
  pub accounts : List AccountId
  pub devices : List (Wallet R)

-- What `check_invariants` finds, in place of the text that it prints.
pub data Violation : Type 0 where
  -- the index, its balance, and the limit
  over_limit : ℕ → ℕ → ℕ → Violation
  kept_reservation : ℕ → Violation
  -- the value on devices, and the float
  float_differs : ℕ → ℤ → Violation
  -- online, on devices, and the money at the start
  supply_moved : ℕ → ℕ → ℕ → Violation

pub data Failure : Type 0 where
  -- an index out of range, or `pair` of one device
  panicked : Failure
  refused_changed : Error → Failure
  violated : Violation → Failure

pub data Operation : Type 0 where
  fund defund : ℕ → ℕ → Operation
  pay : ℕ → ℕ → ℕ → Operation

abbrev both : {A B : Type 0} → Option A → Option B → Option (A × B)
both (some a) (some b) = some (a, b)
both _ _ = none

abbrev pub and_then : {A B : Type 0} → Option A → (A → Option B) → Option B
and_then none f = none
and_then (some a) f = f a

abbrev pub unwrap_or : Option ℕ → ℕ → ℕ
unwrap_or none default = default
unwrap_or (some v) default = v

-- balance and reservations of every device, every account's balance, and the float
abbrev pub Snapshot : Type 0
Snapshot = List (ℕ × ℕ) × (List (Option ℕ) × ℤ)

instance abbrev pub snapshot_eq : PartialEq Snapshot
snapshot_eq = pair_eq

module _ {R : Type 0} where
  -- `none` is a panic: of `assert_ne!`, or of an index
  unfoldable pub pair : ℕ → ℕ → List (Wallet R) → Option (Wallet R × Wallet R)
  pair a b devices = if a == b then none else both (get_elem? devices a) (get_elem? devices b)

  unfoldable pub snapshot : World R → Snapshot
  snapshot w = (
    map (λ d. (Wallet.balance d, Wallet.reserved d)) w.devices,
    (map (λ a. Issuer.balance_of a w.issuer) w.accounts, w.issuer.offline_float),
  )

  -- the loop over the devices, from an index on
  unfoldable pub check_devices : ℕ → ℕ → List (Wallet R) → StdResult Violation (Unit {0})
  check_devices limit index [] = ok tt
  check_devices limit index (d ∷ devices) =
      if not (leb (Wallet.balance d) limit)
      then err (over_limit index (Wallet.balance d) limit)
      else if not (Wallet.reserved d == 0)
      then err (kept_reservation index)
      else check_devices limit (suc index) devices

  unfoldable pub on_devices : World R → ℕ
  on_devices w = sum_u128 (map (λ d. Wallet.balance d) w.devices)

  unfoldable pub online : World R → ℕ
  online w = sum_u128 (map (λ a. unwrap_or (Issuer.balance_of a w.issuer) 0) w.accounts)

  unfoldable pub check_invariants : ℕ → ℕ → World R → StdResult Violation (Unit {0})
  check_invariants limit money w = elim (check_devices limit 0 w.devices) [
    | err violation ↦ err violation
    | ok _ ↦
        if not (wrap_i128 (pos (on_devices w)) == w.issuer.offline_float)
        then err (float_differs (on_devices w) w.issuer.offline_float)
        else if not ((online w + on_devices w) % 2 ^ 128 == money)
        then err (supply_moved (online w) (on_devices w) money)
        else ok tt
  ]

  -- the checks after one operation
  unfoldable pub judge : ℕ → ℕ → World R → Option (Result ℕ × World R) → StdResult Failure (World R)
  judge limit money before none = err panicked
  judge limit money before (some (ok _, w)) = elim (check_invariants limit money w) [
    | ok _ ↦ ok w
    | err violation ↦ err (violated violation)
  ]
  judge limit money before (some (err error, w)) =
      if not (snapshot w == snapshot before)
      then err (refused_changed error)
      else elim (check_invariants limit money w) [
        | ok _ ↦ ok w
        | err violation ↦ err (violated violation)
      ]

module _ {R : Type 0} ⦃x : Crates⦄ ⦃g : Rng R⦄ where
  -- The references into the vector are read here and written back after the call.
  unfoldable pub perform : Operation → World R → Option (Result ℕ × World R)
  perform (fund a amount) w = elim (get_elem? w.devices a) [
    | none ↦ none
    | some d ↦
        let (result, d', issuer) = Protocol.fund d w.issuer amount in
        some (result, record w { issuer = issuer; devices = set a d' w.devices })
  ]
  perform (defund a amount) w = elim (get_elem? w.devices a) [
    | none ↦ none
    | some d ↦
        let (result, d', issuer) = Protocol.defund d w.issuer amount in
        some (result, record w { issuer = issuer; devices = set a d' w.devices })
  ]
  perform (pay a b amount) w = elim (pair a b w.devices) [
    | none ↦ none
    | some (payer, payee) ↦
        let (result, payer', payee') = Protocol.pay payer payee amount in
        some (result, record w { devices = set b payee' (set a payer' w.devices) })
  ]

module _ {G : Type 0} ⦃g : RangeRng G⦄ where
  -- the draws of one step, in the source's order
  unfoldable pub draw : ℕ → ℕ → G → Option (Operation × G)
  draw n limit rng = and_then (g.gen_range 0 n rng) (λ (a, rng).
      and_then (g.gen_range 1 (limit / 2 + 1) rng) (λ (amount, rng).
        and_then (g.gen_range 0 10 rng) (λ (kind, rng).
          if leb kind 1
          then some (fund a amount, rng)
          else if kind == 2
          then some (defund a amount, rng)
          else and_then (g.gen_range 1 n rng)
              (λ (offset, rng). some (pay a ((a + offset) % n) amount, rng)))))

module _ {R G : Type 0} ⦃x : Crates⦄ ⦃q : Rng R⦄ ⦃g : RangeRng G⦄ where
  -- the loop of `run_fuzz`: the world after all operations, or why it stopped
  unfoldable pub run_fuzz : ℕ → ℕ → ℕ → ℕ → World R → G → StdResult Failure (World R)
  run_fuzz zero n limit money w rng = ok w
  run_fuzz (suc ops) n limit money w rng = elim (draw n limit rng) [
    | none ↦ err panicked
    | some (operation, rng') ↦ elim (judge limit money w (perform operation w)) [
      | err failure ↦ err failure
      | ok w' ↦ run_fuzz ops n limit money w' rng'
    ]
  ]
