-- ===== src/Tests/Toy.antt =====
-- Crates and a generator that meet their documentation, and two small RSA keys.
use digital_euro_wallet.Prelude.{
  ℕ, zero, suc, ◌+◌, ◌*◌, ◌/◌, ◌%◌, ◌^◌, ◌<◌, ◌≡◌, refl, Bool, true, ◌&&◌, [], ◌∷◌, Bytes, arith,
  nat_same, nat_same_iff, replicate, sum, if◌then◌else◌,
}
use digital_euro_wallet.Crates.{Crates, AreDocumented, Rng}
use digital_euro_wallet.Signature.{Keypair}
use digital_euro_wallet.Signature.RoundTrip.{IsKeypair}

-- how often a number can be halved
abbrev halvings : ℕ → ℕ → ℕ
halvings zero n = 0
halvings (suc fuel) n = let rest = halvings fuel (n / 2) in if nat_same n 0 then 0 else rest + 1

abbrev from_digits : ℕ → Bytes → ℕ
from_digits acc [] = acc
from_digits acc (b ∷ bs) = from_digits (acc * 256 + b) bs

instance abbrev pub toy : Crates
toy = record {
  sha256 = λ m. sum m % 256 ∷ replicate 31 0;
  modpow = λ b e n. b ^ e % n;
  mod_floor = λ a n. a % n;
  bits = λ n. halvings n n;
  to_bytes_be = λ n. n ∷ [];
  from_bytes_be = from_digits 0;
}

pub toy-AreDocumented : AreDocumented toy
toy-AreDocumented = record {
  length-sha256 = λ m. refl;
  modpow_lem = λ b e n h. refl;
  mod_floor_lem = λ a n h. refl;
  from_bytes_be-to_bytes_be = λ n. omega arith;
}

-- It counts: each draw is sixteen bytes of the count.
instance abbrev pub counting : Rng ℕ
counting = record { gen_bytes16 = λ s. (replicate 16 s, s + 1) }

-- 3 * 11, and 3 * 7 is 1 modulo 20
abbrev pub issuer_key : Keypair
issuer_key = record { public = record { n = 33; e = 3 }; d = 7 }

-- 5 * 11, and 3 * 27 is 1 modulo 40
abbrev pub device_key : Keypair
device_key = record { public = record { n = 55; e = 3 }; d = 27 }

-- every residue below `bound` passes the test
unfoldable pub residues_pass : (ℕ → Bool) → ℕ → Bool
residues_pass test zero = true
residues_pass test (suc bound) = residues_pass test bound && test bound

pub residue_passes :
    (test : ℕ → Bool) (bound m : ℕ) → m < bound → residues_pass test bound ≡ true → test m ≡ true
unfolding residues_pass
residue_passes test zero m lt h = elim lt [ ]
residue_passes test (suc bound) m lt h = ground (arith, residue_passes test bound m)

inverts : ℕ → ℕ → ℕ → ℕ → Bool
inverts n e d m = nat_same ((m ^ d % n) ^ e % n) m

issuer_table : residues_pass (inverts 33 3 7) 33 ≡ true
unfolding residues_pass inverts
issuer_table = refl

device_table : residues_pass (inverts 55 3 27) 55 ≡ true
unfolding residues_pass inverts
device_table = refl

pub issuer_key-IsKeypair : IsKeypair issuer_key
unfolding inverts
issuer_key-IsKeypair = record {
  modulus_pos = omega arith;
  inverse = λ m h. (nat_same_iff _ m).0 (residue_passes (inverts 33 3 7) 33 m h issuer_table);
}

pub device_key-IsKeypair : IsKeypair device_key
unfolding inverts
device_key-IsKeypair = record {
  modulus_pos = omega arith;
  inverse = λ m h. (nat_same_iff _ m).0 (residue_passes (inverts 55 3 27) 55 m h device_table);
}

-- 3 * 5; the public exponent is 1 modulo 8
abbrev pub drawn_key : Keypair
drawn_key = record { public = record { n = 15; e = 65537 }; d = 1 }

drawn_table : residues_pass (inverts 15 65537 1) 15 ≡ true
unfolding residues_pass inverts
drawn_table = refl

pub drawn_key-IsKeypair : IsKeypair drawn_key
unfolding inverts
drawn_key-IsKeypair = record {
  modulus_pos = omega arith;
  inverse = λ m h. (nat_same_iff _ m).0 (residue_passes (inverts 15 65537 1) 15 m h drawn_table);
}

-- for a harness that asks for keys of so many bits
abbrev pub sized : ℕ → Crates
sized size = record toy { bits = λ n. size }

pub sized-AreDocumented : (size : ℕ) → AreDocumented (sized size)
sized-AreDocumented size = record {
  length-sha256 = λ m. refl;
  modpow_lem = λ b e n h. refl;
  mod_floor_lem = λ a n h. refl;
  from_bytes_be-to_bytes_be = λ n. omega arith;
}

abbrev pub wide : Crates
wide = sized 512

pub wide-AreDocumented : AreDocumented wide
wide-AreDocumented = sized-AreDocumented 512
