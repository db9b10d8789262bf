-- ===== src/Signature.antt =====
-- src/signature.rs: RSA signatures with a full-domain hash.
pub mod RoundTrip
pub mod Forged
pub mod Rsa
pub mod Generated
pub mod MillerRabin
pub mod Search
pub mod Expansion
pub mod Primality
pub mod Candidates
pub mod Bases
pub mod Trial
pub mod Generation
pub mod Keys
use Prim.Native.Nat.{bit_and}
use digital_euro_wallet.Prelude.{
  ℕ, zero, suc, ◌+◌, ◌/◌, ◌%◌, ◌^◌, Bool, false, [], ◌∷◌, ◌++◌, ◌&&◌, ◌≡◌, ◌↔◌, true, arith, Bytes,
  PartialEq, ◌==◌, nat_eq, nat_same, nat_same_iff, length, take, leb, ltb, if◌then◌else◌,
  to_be_bytes,
}
use digital_euro_wallet.Crates.{Crates, BigUint}
use digital_euro_wallet.Hash.{tagged}

pub record PublicKey : Type 0 where
  pub n : BigUint
  pub e : BigUint

abbrev pub key_same : PublicKey → PublicKey → Bool
key_same k l = nat_same k.n l.n && nat_same k.e l.e

pub key_same_iff : (k l : PublicKey) → (key_same k l ≡ true) ↔ (k ≡ l)
key_same_iff k l = ground arith

instance abbrev pub key_eq : PartialEq PublicKey
key_eq = record { same = key_same; same_iff = key_same_iff }

pub record Keypair : Type 0 where
  pub public : PublicKey
  pub d : BigUint

-- `expanded[0] &= 0x3f`. No byte is there only if the modulus is 0, where the source would panic:
-- `verify` returns before that, and `Keypair::generate` makes no such key.
unfoldable pub mask_first : Bytes → Bytes
mask_first [] = []
mask_first (b ∷ bs) = bit_and b 0x3f ∷ bs

module _ ⦃x : Crates⦄ where
  -- `div_ceil(8)` of the modulus's bits
  unfoldable pub modulus_bytes : PublicKey → ℕ
  modulus_bytes key = (x.bits key.n + 7) / 8

  -- the `while` loop, on fuel; the counter is a `u32`
  unfoldable pub expand : ℕ → ℕ → Bytes → Bytes → ℕ → Bytes
  expand zero width digest expanded counter = expanded
  expand (suc fuel) width digest expanded counter =
      let block = tagged "euro/fdh" (digest ∷ to_be_bytes 4 counter ∷ []) in
      let rest = expand fuel width digest (expanded ++ block) ((counter + 1) % 2 ^ 32) in
      if ltb (length expanded) width then rest else expanded

  unfoldable pub full_domain_hash : PublicKey → Bytes → BigUint
  full_domain_hash key digest =
      let width = modulus_bytes key in
      let expanded = take width (expand width width digest [] 0) in
      x.mod_floor (x.from_bytes_be (mask_first expanded)) key.n

  unfoldable pub verify : PublicKey → Bytes → BigUint → Bool
  verify key digest signature =
      if leb key.n signature
      then false
      else x.modpow signature key.e key.n == full_domain_hash key digest

  unfoldable pub sign : Keypair → Bytes → BigUint
  sign key digest = x.modpow (full_domain_hash key.public digest) key.d key.public.n
