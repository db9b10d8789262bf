-- ===== src/Tests/Euclid.antt =====
-- What key generation takes from its crates, by Euclid's algorithm and by halving.
use digital_euro_wallet.Prelude.{
  ℕ, zero, suc, ◌+◌, ◌-◌, ◌*◌, ◌/◌, ◌%◌, ◌^◌, ◌<◌, ◌≤◌, ◌≡◌, refl, ap, none, some, inl, inr, arith,
  leb, if◌then◌else◌,
}
use native.Mathlib.Nat
use native.Mathlib.Numerals.{add-one}
use digital_euro_wallet.Prelude.Int.{ℤ, pos, negsuc, pos_part, neg_part, sub_ℕ}
use digital_euro_wallet.Crates.{KeyCrates, AreKeyCratesDocumented}

-- The greatest common divisor, and the coefficients of the first and the second number as
-- differences.
pub record Bezout : Type 0 where
  pub gcd : ℕ
  pub x_pos : ℕ
  pub x_neg : ℕ
  pub y_pos : ℕ
  pub y_neg : ℕ

abbrev turned : ℕ → Bezout → Bezout
turned quotient r = record {
  gcd = r.gcd;
  x_pos = r.y_pos;
  x_neg = r.y_neg;
  y_pos = r.x_pos + quotient * r.y_neg;
  y_neg = r.x_neg + quotient * r.y_pos;
}

-- the fuel is above the second number
abbrev pub euclid : ℕ → ℕ → ℕ → Bezout
euclid zero a b = record { gcd = a; x_pos = 1; x_neg = 0; y_pos = 0; y_neg = 0 }
euclid (suc fuel) a zero = record { gcd = a; x_pos = 1; x_neg = 0; y_pos = 0; y_neg = 0 }
euclid (suc fuel) a (suc b) = turned (a / suc b) (euclid fuel (suc b) (a % suc b))

IsBezout : ℕ → ℕ → Bezout → Type 0
IsBezout a b r = a * r.x_pos + b * r.y_pos ≡ a * r.x_neg + b * r.y_neg + r.gcd

euclid-IsBezout : (fuel a b : ℕ) → b < fuel → IsBezout a b (euclid fuel a b)
unfolding IsBezout
euclid-IsBezout zero a b h = absurd (omega (arith, h))
euclid-IsBezout (suc fuel) a zero h = omega arith
euclid-IsBezout (suc fuel) a (suc b) h =
    let q = a / suc b in
    let r = euclid fuel (suc b) (a % suc b) in
    let split : suc b * q + a % suc b ≡ a = Nat.div-add-mod a (suc b) in
    let rest : IsBezout (suc b) (a % suc b) r =
      euclid-IsBezout fuel (suc b) (a % suc b) (omega (arith, h)) in
    omega (arith, rest, ap (λ (t : ℕ). t * r.y_pos) split, ap (λ (t : ℕ). t * r.y_neg) split)

abbrev floor_int : ℤ → ℕ → ℤ
floor_int (pos n) m = pos (n % m)
floor_int (negsuc n) m = pos (m - 1 - n % m)

-- the exponent of 2, on fuel
abbrev twos : ℕ → ℕ → ℕ
twos zero n = 0
twos (suc fuel) n = let rest = twos fuel (n / 2) in if leb 1 (n % 2) then 0 else rest + 1

instance abbrev pub keys : KeyCrates
keys = record {
  gcd = λ a b. (euclid (suc a) b a).gcd;
  extended_gcd = λ a b.
      let r = euclid (suc (pos_part b)) (pos_part a) (pos_part b) in
      (pos r.gcd, sub_ℕ r.x_pos r.x_neg);
  mod_floor_int = λ a b. floor_int a (pos_part b);
  trailing_zeros = λ n. if leb 1 n then some (twos n n) else none;
  set_bit = λ n k. n;
}

floored :
    (c : ℤ) (m : ℕ)
    → 0 < m
    → (r : ℕ) × (floor_int c m ≡ pos r)
      × (r < m)
      × (j : ℕ) × (l : ℕ) × (pos_part c + m * j ≡ neg_part c + r + m * l)
floored (pos n) m h = (n % m, refl, Nat.mod-lt n h, 0, n / m, omega (arith, Nat.div-add-mod n m))
floored (negsuc n) m h = (
  m - 1 - n % m,
  refl,
  omega (arith, h),
  n / m + 1,
  0,
  omega (arith, h, Nat.div-add-mod n m, Nat.mod-lt n h),
)

twos_split :
    (fuel n : ℕ) → 0 < n → n ≤ fuel → (odd : ℕ) × (n ≡ 2 ^ twos fuel n * odd) × (odd % 2 ≡ 1)
twos_split zero n h small = absurd (omega (arith, h, small))
twos_split (suc fuel) n h small = elim (Nat.eq-zero-or-pos (n % 2)) [
  | inr odd_left ↦
      let none_left : twos (suc fuel) n ≡ 0 = ground (arith, odd_left) in
      (n, rw (none_left, Nat.pow-zero 2) (omega arith), omega (arith, odd_left))
  | inl even ↦
      let once_more : twos (suc fuel) n ≡ twos fuel (n / 2) + 1 = ground (arith, even) in
      let (odd, split, odd_left) =
        twos_split fuel (n / 2) (omega (arith, even, h)) (omega (arith, small, h)) in
      let power : 2 ^ (twos fuel (n / 2) + 1) ≡ 2 ^ twos fuel (n / 2) * 2 =
        rw (add-one, Nat.pow-suc) refl in
      (odd, rw (once_more, power) (omega (arith, even, split)), odd_left)
]

sub_parts : (m n : ℕ) → pos_part (sub_ℕ m n) + n ≡ neg_part (sub_ℕ m n) + m
sub_parts m n = ground arith

pub keys-AreKeyCratesDocumented : AreKeyCratesDocumented keys
unfolding IsBezout
keys-AreKeyCratesDocumented = record {
  extended_gcd_lem = λ a b. refl;
  extended_gcd-bezout = λ a b.
      let r = euclid (suc b) a b in
      let parts = sub_parts r.x_pos r.x_neg in
      (
        r.y_pos,
        r.y_neg,
        omega (arith, euclid-IsBezout (suc b) a b (omega arith), ap (λ (t : ℕ). a * t) parts),
      );
  mod_floor_int_lem = λ c m h. floored c m h;
  trailing_zeros_lem = λ n h.
      let (odd, split, odd_left) = twos_split n n h (omega arith) in
      (twos n n, odd, ground (arith, h), split, odd_left);
}
