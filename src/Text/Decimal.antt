-- ===== src/Text/Decimal.antt =====
-- A `u64` is read back from its decimal print.
use digital_euro_wallet.Prelude.{
  ℕ, zero, suc, ◌+◌, ◌-◌, ◌*◌, ◌/◌, ◌%◌, ◌≤◌, ◌<◌, ◌≡◌, ◌∙◌, ap, sym, refl, some, [], ◌∷◌, ◌++◌,
  arith, u64_modulus, Bool-cases, ltb, ltb→lt, inl, inr,
}
use mathlib.Core.List.{append_assoc, append-nil}
use digital_euro_wallet.Text.{Text, digits, decimal, scan_u64, parse_u64}

pub digits_last : (fuel n : ℕ) → n < 10 → digits (suc fuel) n ≡ (48 + n) ∷ []
unfolding digits
digits_last fuel n h =
    let tenth : n / 10 ≡ 0 = omega (arith, h) in
    let rest : n % 10 ≡ n = omega (arith, h) in rw (digits, tenth, rest) refl

pub digits_more :
    (fuel n : ℕ) → 10 ≤ n → digits (suc fuel) n ≡ digits fuel (n / 10) ++ ((48 + n % 10) ∷ [])
unfolding digits
digits_more fuel n h =
    let tenth : n / 10 ≡ suc (n / 10 - 1) = omega (arith, h) in more_of (n / 10) (n / 10 - 1) tenth
  where
    more_of :
        (m q : ℕ)
        → m ≡ suc q
        → elim m [ zero ↦ (48 + n % 10) ∷ [] | suc r ↦ digits fuel (suc r) ++ ((48 + n % 10) ∷ []) ]
          ≡ digits fuel m ++ ((48 + n % 10) ∷ [])
    more_of zero q e = absurd (omega (arith, e))
    more_of (suc m) q e = refl

scan_u64-digit :
    (acc d : ℕ) (s : Text)
    → d < 10
    → acc * 10 + d < u64_modulus
    → scan_u64 acc ((48 + d) ∷ s) ≡ scan_u64 (acc * 10 + d) s
unfolding scan_u64
scan_u64-digit acc d s h fits = ground (arith, h, fits)

-- Digits in front of a text are scanned to the number that they print.
pub scan_u64-digits :
    (fuel n : ℕ) (s : Text)
    → n < fuel
    → n < u64_modulus
    → scan_u64 0 (digits fuel n ++ s) ≡ scan_u64 n s
scan_u64-digits zero n s h fits = absurd (omega (arith, h))
scan_u64-digits (suc fuel) n s h fits = elim (Bool-cases (ltb n 10)) [
  | inl small ↦
      let plain : 0 * 10 + n ≡ n = omega arith in
      rw (digits_last fuel n (ltb→lt n 10 small)) (
        scan_u64-digit 0 n s (ltb→lt n 10 small) (omega (arith, fits))
        ∙ ap (λ m. scan_u64 m s) plain)
  | inr large ↦
      let ten : 10 ≤ n = ground (arith, large) in
      let whole : n / 10 * 10 + n % 10 ≡ n = omega arith in
      rw
        (
          digits_more fuel n ten,
          append_assoc,
          scan_u64-digits fuel (n / 10) ((48 + n % 10) ∷ s) (omega (arith, h, ten))
              (omega (arith, fits)),
        )
        (scan_u64-digit (n / 10) (n % 10) s (omega arith) (omega (arith, whole, fits))
          ∙ rw whole refl)
]

pub decimal-cons : (n : ℕ) → (c : ℕ) × (s : Text) × (decimal n ≡ c ∷ s) × (48 ≤ c) × (c ≤ 57)
unfolding decimal
decimal-cons n = first (suc n) n (omega arith)
  where
    first :
        (fuel n : ℕ)
        → n < fuel
        → (c : ℕ) × (s : Text) × (digits fuel n ≡ c ∷ s) × (48 ≤ c) × (c ≤ 57)
    first zero n h = absurd (omega (arith, h))
    first (suc fuel) n h = elim (Bool-cases (ltb n 10)) [
      | inl small ↦
          (48 + n, [], digits_last fuel n (ltb→lt n 10 small), omega arith, ground (arith, small))
      | inr large ↦
          let ten : 10 ≤ n = ground (arith, large) in
          let (c, s, e, low, high) = first fuel (n / 10) (omega (arith, h, ten)) in
          (c, s ++ ((48 + n % 10) ∷ []), rw (digits_more fuel n ten, e) refl, low, high)
    ]

scan_decimal : (n : ℕ) → n < u64_modulus → scan_u64 0 (decimal n) ≡ some n
unfolding decimal scan_u64
scan_decimal n fits = rw append-nil at (scan_u64-digits (suc n) n [] (omega arith) fits)

parse_u64-scan : (c : ℕ) (s : Text) → 48 ≤ c → c ≤ 57 → parse_u64 (c ∷ s) ≡ scan_u64 0 (c ∷ s)
unfolding parse_u64
parse_u64-scan c [] low high = refl
parse_u64-scan c (d ∷ s) low high = ground (arith, low, high)

-- `parse::<u64>()` reads back what `{}` prints, for every `u64`.
pub parse_u64-decimal : (n : ℕ) → n < u64_modulus → parse_u64 (decimal n) ≡ some n
unfolding parse_u64
parse_u64-decimal n fits =
    let (c, s, e, low, high) = decimal-cons n in
    ap parse_u64 e ∙ parse_u64-scan c s low high ∙ sym (ap (scan_u64 0) e) ∙ scan_decimal n fits
