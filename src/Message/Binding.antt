-- ===== src/Message/Binding.antt =====
-- What a signature binds: the digest of a certificate or a message determines its kind and each
-- signed field, up to a collision of SHA-256.
use digital_euro_wallet.Prelude.{
  ℕ, ◌<◌, ◌^◌, ◌≡◌, refl, ap, ◌⊎◌, inl, inr, List, [], ◌∷◌, String, Bytes, arith, length, codes,
  to_be_bytes,
}
use digital_euro_wallet.Prelude.BigEndian.{to_be_bytes-injective, length-to_be_bytes}
use digital_euro_wallet.Crates.{Crates, AreDocumented}
use digital_euro_wallet.Hash.{tagged}
use digital_euro_wallet.Hash.Encoding.{AreSized, Collision, tagged-injective}
use digital_euro_wallet.Certificate
use digital_euro_wallet.Certificate.{DeviceCertificate}
use digital_euro_wallet.Message.Transfer
use digital_euro_wallet.Message.Transfer.{Transfer}
use digital_euro_wallet.Message.FundingRequest
use digital_euro_wallet.Message.FundingRequest.{FundingRequest}
use digital_euro_wallet.Message.Funding
use digital_euro_wallet.Message.Funding.{Funding}
use digital_euro_wallet.Message.Defunding
use digital_euro_wallet.Message.Defunding.{Defunding}

-- All that is ever signed.
pub data Signed : Type 0 where
  certificate : DeviceCertificate → Signed
  transfer : Transfer → Signed
  funding_request : FundingRequest → Signed
  funding : Funding → Signed
  defunding : Defunding → Signed

-- The same kind, with the same signed fields.
abbrev pub SameSigned : Signed → Signed → Type 0
SameSigned (certificate c) (certificate c') =
    (c.device ≡ c'.device)
    × (c.public_key ≡ c'.public_key)
    × (c.holding_limit_cents ≡ c'.holding_limit_cents)
SameSigned (transfer t) (transfer t') =
    (t.payer.device ≡ t'.payer.device)
    × (t.payee ≡ t'.payee)
    × (t.amount_cents ≡ t'.amount_cents)
    × (t.nonce ≡ t'.nonce)
    × (t.counter ≡ t'.counter)
SameSigned (funding_request m) (funding_request m') =
    (m.device ≡ m'.device) × (m.amount_cents ≡ m'.amount_cents) × (m.nonce ≡ m'.nonce)
SameSigned (funding m) (funding m') =
    (m.device ≡ m'.device) × (m.amount_cents ≡ m'.amount_cents) × (m.nonce ≡ m'.nonce)
SameSigned (defunding m) (defunding m') =
    (m.device ≡ m'.device) × (m.amount_cents ≡ m'.amount_cents) × (m.counter ≡ m'.counter)
SameSigned _ _ = ⊥

tag_of : Signed → String
tag_of (certificate c) = "euro/device-certificate"
tag_of (transfer t) = "euro/transfer"
tag_of (funding_request m) = "euro/funding-request"
tag_of (funding m) = "euro/funding"
tag_of (defunding m) = "euro/defunding"

module _ ⦃x : Crates⦄ where
  abbrev pub digest_of : Signed → Bytes
  digest_of (certificate c) = Certificate.digest c
  digest_of (transfer t) = Transfer.digest t
  digest_of (funding_request m) = FundingRequest.digest m
  digest_of (funding m) = Funding.digest m
  digest_of (defunding m) = Defunding.digest m

  -- Amounts, limits and counters are 64-bit, identifiers and nonces have their 16 bytes, and no key
  -- has 2^64 bytes.
  abbrev pub IsTyped : Signed → Type 0
  IsTyped (certificate c) =
      (length c.device.bytes ≡ 16)
      × (length (x.to_bytes_be c.public_key.n) < 2 ^ 64)
      × (length (x.to_bytes_be c.public_key.e) < 2 ^ 64)
      × (c.holding_limit_cents < 2 ^ 64)
  IsTyped (transfer t) =
      (length t.payer.device.bytes ≡ 16)
      × (length t.payee.bytes ≡ 16)
      × (t.amount_cents < 2 ^ 64)
      × (length t.nonce ≡ 16)
      × (t.counter < 2 ^ 64)
  IsTyped (funding_request m) =
      (length m.device.bytes ≡ 16) × (m.amount_cents < 2 ^ 64) × (length m.nonce ≡ 16)
  IsTyped (funding m) =
      (length m.device.bytes ≡ 16) × (m.amount_cents < 2 ^ 64) × (length m.nonce ≡ 16)
  IsTyped (defunding m) =
      (length m.device.bytes ≡ 16) × (m.amount_cents < 2 ^ 64) × (m.counter < 2 ^ 64)

  parts_of : Signed → List Bytes
  parts_of (certificate c) =
      c.device.bytes
      ∷ x.to_bytes_be c.public_key.n
      ∷ x.to_bytes_be c.public_key.e
      ∷ to_be_bytes 8 c.holding_limit_cents
      ∷ []
  parts_of (transfer t) =
      t.payer.device.bytes
      ∷ t.payee.bytes
      ∷ to_be_bytes 8 t.amount_cents
      ∷ t.nonce
      ∷ to_be_bytes 8 t.counter
      ∷ []
  parts_of (funding_request m) = m.device.bytes ∷ to_be_bytes 8 m.amount_cents ∷ m.nonce ∷ []
  parts_of (funding m) = m.device.bytes ∷ to_be_bytes 8 m.amount_cents ∷ m.nonce ∷ []
  parts_of (defunding m) =
      m.device.bytes ∷ to_be_bytes 8 m.amount_cents ∷ to_be_bytes 8 m.counter ∷ []

  digest_of-eq-tagged : (m : Signed) → digest_of m ≡ tagged (tag_of m) (parts_of m)
  unfolding Certificate.digest Transfer.digest FundingRequest.digest Funding.digest Defunding.digest
      tag_of parts_of
  digest_of-eq-tagged (certificate c) = refl
  digest_of-eq-tagged (transfer t) = refl
  digest_of-eq-tagged (funding_request m) = refl
  digest_of-eq-tagged (funding m) = refl
  digest_of-eq-tagged (defunding m) = refl

  length-tag_of : (m : Signed) → length (codes (tag_of m)) < 2 ^ 32
  unfolding tag_of
  length-tag_of (certificate c) = omega arith
  length-tag_of _ = omega arith

  parts_of-AreSized : (m : Signed) → IsTyped m → AreSized (parts_of m)
  unfolding parts_of
  parts_of-AreSized (certificate c) h = omega (arith, length-to_be_bytes 8 c.holding_limit_cents)
  parts_of-AreSized (transfer t) h =
      omega (arith, length-to_be_bytes 8 t.amount_cents, length-to_be_bytes 8 t.counter)
  parts_of-AreSized (funding_request m) h = omega (arith, length-to_be_bytes 8 m.amount_cents)
  parts_of-AreSized (funding m) h = omega (arith, length-to_be_bytes 8 m.amount_cents)
  parts_of-AreSized (defunding m) h =
      omega (arith, length-to_be_bytes 8 m.amount_cents, length-to_be_bytes 8 m.counter)

  eight_bytes : (u v : ℕ) → u < 2 ^ 64 → v < 2 ^ 64 → to_be_bytes 8 u ≡ to_be_bytes 8 v → u ≡ v
  eight_bytes u v hu hv e = to_be_bytes-injective 8 u v hu hv e

  module _ (doc : AreDocumented x) where
    same_number : (m n : ℕ) → x.to_bytes_be m ≡ x.to_bytes_be n → m ≡ n
    same_number m n e =
        cc (doc.from_bytes_be-to_bytes_be m, doc.from_bytes_be-to_bytes_be n, ap x.from_bytes_be e)

    same_signed :
        (m m' : Signed)
        → IsTyped m
        → IsTyped m'
        → codes (tag_of m) ≡ codes (tag_of m')
        → parts_of m ≡ parts_of m'
        → SameSigned m m'
    unfolding tag_of parts_of
    same_signed (certificate c) (certificate c') h h' t p = ground (
      arith,
      same_number c.public_key.n c'.public_key.n,
      same_number c.public_key.e c'.public_key.e,
      eight_bytes c.holding_limit_cents c'.holding_limit_cents,
    )
    same_signed (transfer m) (transfer m') h h' t p =
        ground (arith, eight_bytes m.amount_cents m'.amount_cents, eight_bytes m.counter m'.counter)
    same_signed (funding_request m) (funding_request m') h h' t p =
        ground (arith, eight_bytes m.amount_cents m'.amount_cents)
    same_signed (funding m) (funding m') h h' t p =
        ground (arith, eight_bytes m.amount_cents m'.amount_cents)
    same_signed (defunding m) (defunding m') h h' t p =
        ground (arith, eight_bytes m.amount_cents m'.amount_cents, eight_bytes m.counter m'.counter)
    same_signed _ _ h h' t p = ground arith

    -- If two certificates or messages, each with fields of its Rust type, have one digest, then they
    -- are of the same kind and agree in every signed field, or two different inputs with one SHA-256
    -- hash are at hand. So no signature on a transfer passes for a defunding order, or for another
    -- amount.
    pub digest-binds :
        (m m' : Signed)
        → IsTyped m
        → IsTyped m'
        → digest_of m ≡ digest_of m'
        → SameSigned m m' ⊎ Collision
    digest-binds m m' h h' e =
        elim (tagged-injective (tag_of m) (tag_of m') (parts_of m) (parts_of m') (length-tag_of m)
          (length-tag_of m') (parts_of-AreSized m h) (parts_of-AreSized m' h')
          (cc (digest_of-eq-tagged m, digest_of-eq-tagged m', e))) [
            | inl (tags, parts) ↦ inl (same_signed m m' h h' tags parts)
            | inr collision ↦ inr collision
          ]
