-- ===== src/Tests/Parties.antt =====
-- Alice, the bakery, and their issuer. Alice holds 10 €, the bakery 2 €; each account holds 50 €.
use digital_euro_wallet.Prelude.{
  ℕ, refl, [], ◌∷◌, arith, replicate, list_eq, nat_eq, pair_eq, to_be_bytes, add_u64,
}
use digital_euro_wallet.Prelude.Int.{pos}
use digital_euro_wallet.HashMap
use digital_euro_wallet.Hash
use digital_euro_wallet.Id.{account_eq, device_eq}
use digital_euro_wallet.Signature
use digital_euro_wallet.Certificate
use digital_euro_wallet.Certificate.{DeviceCertificate}
use digital_euro_wallet.Wallet.{Wallet, sealed}
use digital_euro_wallet.Wallet.Accounting.{IsWellFormed}
use digital_euro_wallet.Wallet.Genuine.{IsGenuine}
use digital_euro_wallet.Wallet.Request.{IsFresh}
use digital_euro_wallet.Issuer.{Issuer, DeviceRecord}
use digital_euro_wallet.Protocol.Enrolled.{IsEnrolled, IsFreshFunding}
use digital_euro_wallet.Protocol.Payment.{AreReady}
use digital_euro_wallet.Tests.Toy.{
  toy, counting, issuer_key, device_key, issuer_key-IsKeypair, device_key-IsKeypair,
}

-- a proof that unfolds this computes with certificates
unfoldable pub Signing : Type 0
unfolding Certificate.verify Certificate.digest Signature.verify Signature.sign
    Signature.full_domain_hash Signature.modulus_bytes Signature.expand Signature.mask_first
    Hash.tagged Hash.encode Hash.encode_parts to_be_bytes add_u64
Signing = Unit

abbrev pub certificate_of : ℕ → ℕ → DeviceCertificate
certificate_of device signature = record {
  device = record { bytes = replicate 16 device };
  public_key = device_key.public;
  holding_limit_cents = 50000;
  signature = signature;
}

-- The second number is the issuer's signature.
abbrev pub alice_certificate : DeviceCertificate
alice_certificate = certificate_of 1 32

abbrev pub bakery_certificate : DeviceCertificate
bakery_certificate = certificate_of 2 27

abbrev pub wallet_of : DeviceCertificate → ℕ → ℕ → Wallet ℕ
wallet_of certificate balance_cents rng = record {
  certificate = certificate;
  keypair = device_key;
  issuer = issuer_key.public;
  balance_cents = balance_cents;
  incoming = [];
  pending_funding = [];
  credited = [];
  counter = 3;
  state = sealed;
  rng = rng;
}

abbrev pub alice : Wallet ℕ
alice = wallet_of alice_certificate 1000 40

abbrev pub bakery : Wallet ℕ
bakery = wallet_of bakery_certificate 200 70

abbrev pub entry_of : ℕ → DeviceRecord
entry_of account = record {
  account = record { bytes = replicate 16 account };
  public_key = device_key.public;
  last_defunding_counter = 3;
}

abbrev pub bank : Issuer
bank = record {
  keypair = issuer_key;
  accounts =
      (record { bytes = replicate 16 11 }, 5000) ∷ (record { bytes = replicate 16 12 }, 5000) ∷ [];
  devices =
      (record { bytes = replicate 16 1 }, entry_of 11)
      ∷ (record { bytes = replicate 16 2 }, entry_of 12)
      ∷ [];
  funding_nonces = [];
  offline_float = pos 1200;
}

pub alice-IsGenuine : IsGenuine alice
unfolding Signing
alice-IsGenuine = record { certified = refl; own_key = refl; keypair = device_key-IsKeypair }

pub bakery-IsGenuine : IsGenuine bakery
unfolding Signing
bakery-IsGenuine = record { certified = refl; own_key = refl; keypair = device_key-IsKeypair }

pub alice-IsWellFormed : IsWellFormed alice
alice-IsWellFormed = ground arith

pub bakery-IsWellFormed : IsWellFormed bakery
bakery-IsWellFormed = ground arith

pub bakery-IsFresh : IsFresh bakery
unfolding HashMap.get
bakery-IsFresh = record { not_open = refl; not_credited = refl }

pub parties-AreReady : AreReady alice bakery
parties-AreReady = record {
  payer_genuine = alice-IsGenuine;
  payee_genuine = bakery-IsGenuine;
  same_issuer = refl;
  payee_formed = bakery-IsWellFormed;
  payee_fresh = bakery-IsFresh;
}

pub alice-IsEnrolled : IsEnrolled alice bank (entry_of 11) 5000
unfolding HashMap.get
alice-IsEnrolled = record {
  genuine = alice-IsGenuine;
  formed = alice-IsWellFormed;
  issuer_key = refl;
  issuer_keypair = issuer_key-IsKeypair;
  known = refl;
  same_key = refl;
  behind = omega arith;
  account_open = refl;
}

pub bakery-IsEnrolled : IsEnrolled bakery bank (entry_of 12) 5000
unfolding HashMap.get
bakery-IsEnrolled = record {
  genuine = bakery-IsGenuine;
  formed = bakery-IsWellFormed;
  issuer_key = refl;
  issuer_keypair = issuer_key-IsKeypair;
  known = refl;
  same_key = refl;
  behind = omega arith;
  account_open = refl;
}

pub alice-IsFreshFunding : IsFreshFunding alice bank
unfolding HashMap.get
alice-IsFreshFunding = record { not_pending = refl; not_credited = refl; not_used = refl }
