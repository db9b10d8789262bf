-- ===== src/Text.antt =====
-- Texts as lists of code points, and what the program uses of `format!` and of `str::parse`.
pub mod Decimal
pub mod Hex
use digital_euro_wallet.Prelude.{
  ℕ, zero, suc, ◌+◌, ◌-◌, ◌*◌, ◌/◌, ◌%◌, ◌^◌, Bool, Option, none, some, List, [], ◌∷◌, ◌++◌, ◌&&◌,
  ◌==◌, nat_eq, leb, ltb, if◌then◌else◌, u64_modulus,
}

abbrev pub Text : Type 0
Text = List ℕ

-- `{}` of an unsigned integer: the digits before the last, then the last. The number itself is
-- fuel enough, as each round divides by ten.
unfoldable pub digits : ℕ → ℕ → Text
digits zero n = []
digits (suc fuel) n = elim (n / 10) [
  | zero ↦ (48 + n % 10) ∷ []
  | suc q ↦ digits fuel (suc q) ++ ((48 + n % 10) ∷ [])
]

unfoldable pub decimal : ℕ → Text
decimal n = digits (suc n) n

-- `{:02}`
unfoldable pub decimal02 : ℕ → Text
decimal02 n = if ltb n 10 then 48 ∷ decimal n else decimal n

-- a digit of `{:x}`
abbrev pub hex_digit : ℕ → ℕ
hex_digit d = if ltb d 10 then 48 + d else 87 + d

-- `{:02x}` of a byte
unfoldable pub hex02 : ℕ → Text
hex02 byte = hex_digit (byte / 16) ∷ hex_digit (byte % 16) ∷ []

-- bytes, each by `{:02x}`
unfoldable pub hex : List ℕ → Text
hex [] = []
hex (byte ∷ bytes) = hex02 byte ++ hex bytes

abbrev is_digit : ℕ → Bool
is_digit c = leb 48 c && leb c 57

-- the digits of `parse::<u64>()`: a digit that carries past 64 bits is an error
unfoldable pub scan_u64 : ℕ → Text → Option ℕ
scan_u64 acc [] = some acc
scan_u64 acc (c ∷ s) =
    if is_digit c && ltb (acc * 10 + (c - 48)) u64_modulus
    then scan_u64 (acc * 10 + (c - 48)) s
    else none

-- `parse::<u64>()`: a `+` may stand before the digits, and there is at least one digit
unfoldable pub parse_u64 : Text → Option ℕ
parse_u64 [] = none
parse_u64 (c ∷ []) = scan_u64 0 (c ∷ [])
parse_u64 (c ∷ d ∷ s) = if c == 43 then scan_u64 0 (d ∷ s) else scan_u64 0 (c ∷ d ∷ s)
