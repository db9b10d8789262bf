-- ===== src/Signature/Trial.antt =====
-- What the trial division of src/signature.rs rules out.
use Prim.Native.Nat.{◌∣◌}
use native.Mathlib.Nat
use digital_euro_wallet.Prelude.{
  ℕ, zero, suc, ◌%◌, ◌≤◌, ◌<◌, ◌≡◌, ◌≢◌, ◌⊎◌, inl, inr, refl, Bool, true, false, List, [], ◌∷◌,
  none, some, arith, Every, ◌==◌, nat_eq, ltb, ◌||◌, if◌then◌else◌, Bool-cases,
}
use digital_euro_wallet.Crates.{Crates, KeyCrates, BigRng, AreDocumented}
use digital_euro_wallet.Signature.Primality.{small_primes, trial_division, is_probable_prime}

-- whether one of the numbers divides `d`
unfoldable has_factor : List ℕ → ℕ → Bool
has_factor [] d = false
has_factor (s ∷ smalls) d = if d % s == 0 then true else has_factor smalls d

-- whether every number from 2 to below `bound` has one of them as a factor
unfoldable all_have_factor : List ℕ → ℕ → Bool
all_have_factor smalls zero = true
all_have_factor smalls (suc d) =
    if ltb d 2 || has_factor smalls d then all_have_factor smalls d else false

all_have_factor-each :
    (smalls : List ℕ) (bound d : ℕ)
    → all_have_factor smalls bound ≡ true
    → 2 ≤ d
    → d < bound
    → has_factor smalls d ≡ true
unfolding all_have_factor
all_have_factor-each smalls zero d h least less = absurd (omega (arith, less))
all_have_factor-each smalls (suc bound) d h least less = elim (Bool-cases (d == bound)) [
  | inl same ↦ ground (arith, same, h, least)
  | inr other ↦
      all_have_factor-each smalls bound d (ground (arith, h)) least (ground (arith, other, less))
]

-- Every number from 2 to 78 is even or has one of the small primes as a factor.
small_primes-all : all_have_factor (2 ∷ small_primes) 79 ≡ true
unfolding all_have_factor has_factor
small_primes-all = refl

factor-undivided :
    (smalls : List ℕ) (n d : ℕ)
    → Every smalls (λ s. n % s ≢ 0)
    → has_factor smalls d ≡ true
    → n % d ≢ 0
unfolding has_factor
factor-undivided [] n d h found whole = absurd (ground (arith, found))
factor-undivided (s ∷ smalls) n d (undivided, rest) found whole = elim (Bool-cases (d % s == 0)) [
  | inl divides ↦
      let divisor : s ∣ d = Nat.dvd_of_mod-eq-zero s (ground (arith, divides)) in
      let whole' : s ∣ n = Nat.dvd_trans s divisor (Nat.dvd_of_mod-eq-zero d whole) in
      undivided (Nat.mod-eq-zero_of_dvd s whole')
  | inr other ↦ factor-undivided smalls n d rest (ground (arith, other, found)) whole
]

module _ ⦃x : Crates⦄ (doc : AreDocumented x) where
  -- Of divisors below `n`, the loop finds one, or none divides.
  trial_division-cases :
      (smalls : List ℕ) (n : ℕ)
      → Every smalls (λ s. (0 < s) × (s < n))
      → (trial_division smalls n ≡ some false)
        ⊎ ((trial_division smalls n ≡ none) × Every smalls (λ s. n % s ≢ 0))
  unfolding trial_division
  trial_division-cases [] n below = inr (refl, tt)
  trial_division-cases (s ∷ smalls) n ((positive, less), below) =
      ground (arith, doc.mod_floor_lem n s positive, trial_division-cases smalls n below)

  small_primes-below : (n : ℕ) → 73 < n → Every small_primes (λ s. (0 < s) × (s < n))
  small_primes-below n h = ground arith

  module _ {G : Type 0} ⦃y : KeyCrates⦄ ⦃g : BigRng G⦄ (n rounds : ℕ) (rng : G) (large : 73 < n)
      (accepted : (is_probable_prime n rounds rng).0 ≡ true) where
    pub accepted_odd : n % 2 ≢ 0
    unfolding is_probable_prime
    accepted_odd even = ground (arith, accepted, even, large)

    accepted_undivided : trial_division small_primes n ≢ some false
    unfolding is_probable_prime
    accepted_undivided found = ground (arith, accepted, found, large)

    -- The trial division has left it to the rounds.
    pub trial_division_undecided : trial_division small_primes n ≡ none
    trial_division_undecided =
        elim (trial_division-cases small_primes n (small_primes-below n large)) [
          | inl found ↦ absurd (accepted_undivided found)
          | inr (undecided, _) ↦ undecided
        ]

    -- No number from 2 to 78 divides a number above 73 that the primality test accepts, whatever bases
    -- are drawn; when the crates are as documented.
    pub is_probable_prime-trial : (d : ℕ) → 2 ≤ d → d < 79 → n % d ≢ 0
    is_probable_prime-trial d least less =
        elim (trial_division-cases small_primes n (small_primes-below n large)) [
          | inl found ↦ absurd (accepted_undivided found)
          | inr (_, undivided) ↦
              factor-undivided (2 ∷ small_primes) n d (accepted_odd, undivided)
                (all_have_factor-each (2 ∷ small_primes) 79 d small_primes-all least less)
        ]
