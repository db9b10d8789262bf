-- ===== src/Signature/Expansion.antt =====
-- The expansion loop of the full-domain hash ends by its test: the fuel is enough.
use digital_euro_wallet.Prelude.{
  ℕ, zero, suc, ◌+◌, ◌*◌, ◌%◌, ◌^◌, ◌≤◌, ◌≡◌, refl, [], ◌∷◌, ◌++◌, Bytes, arith, length,
  length-append, to_be_bytes,
}
use digital_euro_wallet.Crates.{Crates, AreDocumented}
use digital_euro_wallet.Hash.{tagged}
use digital_euro_wallet.Signature.{PublicKey, modulus_bytes, expand}

module _ ⦃x : Crates⦄ (doc : AreDocumented x) where
  length-tagged-block :
      (digest : Bytes) (counter : ℕ)
      → length (tagged "euro/fdh" (digest ∷ to_be_bytes 4 counter ∷ [])) ≡ 32
  unfolding tagged
  length-tagged-block digest counter = doc.length-sha256 _

  expand_long :
      (fuel width : ℕ) (digest expanded : Bytes) (counter : ℕ)
      → width ≤ length expanded + 32 * fuel
      → width ≤ length (expand fuel width digest expanded counter)
  unfolding expand
  expand_long zero width digest expanded counter h = omega arith
  expand_long (suc fuel) width digest expanded counter h =
      let block = tagged "euro/fdh" (digest ∷ to_be_bytes 4 counter ∷ []) in
      ground (
        arith,
        length-append expanded block,
        length-tagged-block digest counter,
        expand_long fuel width digest (expanded ++ block) ((counter + 1) % 2 ^ 32),
      )

  expand_fuel :
      (f f' width : ℕ) (digest expanded : Bytes) (counter : ℕ)
      → width ≤ length expanded + 32 * f
      → width ≤ length expanded + 32 * f'
      → expand f width digest expanded counter ≡ expand f' width digest expanded counter
  unfolding expand
  expand_fuel zero zero width digest expanded counter h h' = refl
  expand_fuel zero (suc f') width digest expanded counter h h' = ground arith
  expand_fuel (suc f) zero width digest expanded counter h h' = ground arith
  expand_fuel (suc f) (suc f') width digest expanded counter h h' =
      let block = tagged "euro/fdh" (digest ∷ to_be_bytes 4 counter ∷ []) in
      ground (
        arith,
        length-append expanded block,
        length-tagged-block digest counter,
        expand_fuel f f' width digest (expanded ++ block) ((counter + 1) % 2 ^ 32),
      )

  -- Given that SHA-256 returns 32 bytes, the expansion loop stops by its own test: it fills the
  -- width of the modulus, and any larger fuel gives the same bytes.
  pub expand-full :
      (key : PublicKey) (digest : Bytes) (more : ℕ)
      → let width = modulus_bytes key in
        (width ≤ length (expand width width digest [] 0))
        × (expand (width + more) width digest [] 0 ≡ expand width width digest [] 0)
  expand-full key digest more =
      let width = modulus_bytes key in
      (
        expand_long width width digest [] 0 (omega arith),
        expand_fuel (width + more) width width digest [] 0 (omega arith) (omega arith),
      )
