-- ===== src/Hash/Encoding.antt =====
-- The hasher's input determines the tag and the parts, so equal hashes of different messages are a
-- collision of SHA-256.
use native.Mathlib.Nat.{mod-eq_of_lt}
use digital_euro_wallet.Prelude.{
  ℕ, ◌^◌, ◌<◌, ◌≡◌, ◌≢◌, refl, ◌∙◌, ◌⊎◌, inl, inr, List, [], ◌∷◌, ◌++◌, String, Bytes, Every,
  length, codes, to_be_bytes, append-injective, Bool-cases, list_eq, nat_eq, ◌==◌, list_same_iff,
  sym,
}
use digital_euro_wallet.Prelude.BigEndian.{to_be_bytes-injective, length-to_be_bytes}
use digital_euro_wallet.Crates.{Crates}
use digital_euro_wallet.Hash.{encode_parts, encode, tagged}

-- Lengths fit the integers that carry them.
abbrev pub AreSized : List Bytes → Type 0
AreSized parts = Every parts (λ part. length part < 2 ^ 64)

same_lengths : (k : ℕ) (u v : ℕ) → length (to_be_bytes k u) ≡ length (to_be_bytes k v)
same_lengths k u v = length-to_be_bytes k u ∙ sym (length-to_be_bytes k v)

-- A piece behind its length, in `k` bytes, is determined with all that follows.
prefixed-injective :
    (k : ℕ) (xs ys us vs : Bytes)
    → length xs < 256 ^ k
    → length ys < 256 ^ k
    → to_be_bytes k (length xs) ++ (xs ++ us) ≡ to_be_bytes k (length ys) ++ (ys ++ vs)
    → (xs ≡ ys) × (us ≡ vs)
prefixed-injective k xs ys us vs hx hy e =
    let (lengths, rest) =
      append-injective (to_be_bytes k (length xs)) (to_be_bytes k (length ys)) (xs ++ us) (ys ++ vs)
        (same_lengths k (length xs) (length ys)) e in
    append-injective xs ys us vs (to_be_bytes-injective k (length xs) (length ys) hx hy lengths)
      rest

encode_parts-injective :
    (ps qs : List Bytes) → AreSized ps → AreSized qs → encode_parts ps ≡ encode_parts qs → ps ≡ qs
unfolding encode_parts
encode_parts-injective [] [] hp hq e = refl
encode_parts-injective [] (q ∷ qs) hp hq e = unfold to_be_bytes in cc
encode_parts-injective (p ∷ ps) [] hp hq e = unfold to_be_bytes in cc
encode_parts-injective (p ∷ ps) (q ∷ qs) hp hq e =
    let (same, rest) = prefixed-injective 8 p q (encode_parts ps) (encode_parts qs) hp.0 hq.0 e in
    cc (same, encode_parts-injective ps qs hp.1 hq.1 rest)

-- Concatenation is unambiguous: two inputs of the hasher are equal only for the same tag and the
-- same parts, if no tag has 2^32 bytes and no part has 2^64.
pub encode-injective :
    (tag tag' : String) (ps qs : List Bytes)
    → length (codes tag) < 2 ^ 32
    → length (codes tag') < 2 ^ 32
    → AreSized ps
    → AreSized qs
    → encode tag ps ≡ encode tag' qs
    → (codes tag ≡ codes tag') × (ps ≡ qs)
unfolding encode
encode-injective tag tag' ps qs ht ht' hp hq e =
    let (same, rest) =
      prefixed-injective 4 (codes tag) (codes tag') (encode_parts ps) (encode_parts qs) ht ht'
        (rw (mod-eq_of_lt ht, mod-eq_of_lt ht') at e) in
    (same, encode_parts-injective ps qs hp hq rest)

module _ ⦃x : Crates⦄ where
  -- Two different inputs of SHA-256 with one hash.
  pub record Collision : Type 0 where
    pub left : Bytes
    pub right : Bytes
    pub differ : left ≢ right
    pub same_hash : x.sha256 left ≡ x.sha256 right

  pub tagged-injective :
      (tag tag' : String) (ps qs : List Bytes)
      → length (codes tag) < 2 ^ 32
      → length (codes tag') < 2 ^ 32
      → AreSized ps
      → AreSized qs
      → tagged tag ps ≡ tagged tag' qs
      → ((codes tag ≡ codes tag') × (ps ≡ qs)) ⊎ Collision
  unfolding tagged
  tagged-injective tag tag' ps qs ht ht' hp hq e =
      elim (Bool-cases (encode tag ps == encode tag' qs)) [
        | inl same ↦ inl (encode-injective tag tag' ps qs ht ht' hp hq ((list_same_iff _ _).0 same))
        | inr other ↦ inr (record {
          left = encode tag ps;
          right = encode tag' qs;
          differ = λ p. cc ((list_same_iff (encode tag ps) (encode tag' qs)).1 p);
          same_hash = e;
        })
      ]
