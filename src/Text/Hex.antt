-- ===== src/Text/Hex.antt =====
-- Two bytes that print alike in hexadecimal are equal.
use digital_euro_wallet.Prelude.{ℕ, ◌/◌, ◌%◌, ◌<◌, ◌≡◌, refl, [], ◌∷◌, ◌++◌, arith, Bytes, Every}
use digital_euro_wallet.Text.{Text, hex_digit, hex02, hex}

hex_digit-injective : (d e : ℕ) → d < 16 → e < 16 → hex_digit d ≡ hex_digit e → d ≡ e
hex_digit-injective d e hd he h = ground (arith, hd, he, h)

two_heads : (u v u' v' : ℕ) (s t : Text) → u ∷ v ∷ s ≡ u' ∷ v' ∷ t → (u ≡ u') × (v ≡ v') × (s ≡ t)
two_heads u v u' v' s t h = ground (arith, h)

hex02-injective :
    (b c : ℕ) (s t : Text) → b < 256 → c < 256 → hex02 b ++ s ≡ hex02 c ++ t → (b ≡ c) × (s ≡ t)
unfolding hex02
hex02-injective b c s t hb hc h =
    let (same_high, same_low, rest) = two_heads _ _ _ _ s t h in
    let high = hex_digit-injective (b / 16) (c / 16) (omega arith) (omega arith) same_high in
    let low = hex_digit-injective (b % 16) (c % 16) (omega arith) (omega arith) same_low in
    (omega (arith, high, low), rest)

-- The hexadecimal print of bytes tells them apart.
pub hex-injective :
    (xs ys : Bytes) → Every xs (λ b. b < 256) → Every ys (λ b. b < 256) → hex xs ≡ hex ys → xs ≡ ys
unfolding hex hex02
hex-injective [] [] hx hy h = refl
hex-injective [] (y ∷ ys) hx hy h = ground (arith, h)
hex-injective (x ∷ xs) [] hx hy h = ground (arith, h)
hex-injective (x ∷ xs) (y ∷ ys) (bx, hx) (by, hy) h =
    let (head, rest) = hex02-injective x y (hex xs) (hex ys) bx by h in
    cc (head, hex-injective xs ys hx hy rest)
