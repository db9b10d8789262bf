-- ===== src/Protocol/Enrolment.antt =====
-- `enrol` of src/lib.rs, after the key was generated: a new device for an account.
use digital_euro_wallet.Prelude.{
  ℕ, ◌<◌, ◌≡◌, ◌∙◌, refl, true, some, [], ok, err, arith, u64_modulus, if◌then◌else◌, list_eq,
  nat_eq, same_self,
}
use digital_euro_wallet.HashMap
use digital_euro_wallet.HashMap.Laws.{get-insert_self}
use digital_euro_wallet.Crates.{Crates, Rng, AreDocumented}
use digital_euro_wallet.Id.{AccountId, DeviceId, account_eq, device_eq}
use digital_euro_wallet.Error.{Result, unknown_account}
use digital_euro_wallet.Signature
use digital_euro_wallet.Signature.{Keypair, key_eq}
use digital_euro_wallet.Signature.RoundTrip.{IsKeypair, verify-sign}
use digital_euro_wallet.Certificate
use digital_euro_wallet.Certificate.{DeviceCertificate}
use digital_euro_wallet.Wallet
use digital_euro_wallet.Wallet.{Wallet, sealed}
use digital_euro_wallet.Issuer
use digital_euro_wallet.Issuer.{Issuer, DeviceRecord}
use digital_euro_wallet.Protocol
use digital_euro_wallet.Protocol.Enrolled.{IsEnrolled}

module _ {R G : Type 0} ⦃x : Crates⦄ ⦃q : Rng G⦄ (key : Keypair) (i : Issuer) (account : AccountId)
    (limit : ℕ) (device_rng : R) (rng : G) where
  -- the pseudonym drawn, and the certificate for it
  abbrev pub pseudonym : DeviceId
  pseudonym = record { bytes = (q.gen_bytes16 rng).0 }

  abbrev unsigned_certificate : DeviceCertificate
  unsigned_certificate = record {
    device = pseudonym;
    public_key = key.public;
    holding_limit_cents = limit;
    signature = 0;
  }

  abbrev pub issued_certificate : DeviceCertificate
  issued_certificate = record unsigned_certificate {
    signature = Signature.sign i.keypair (Certificate.digest unsigned_certificate);
  }

  -- an element with nothing on it
  abbrev pub new_wallet : Wallet R
  new_wallet = record {
    certificate = issued_certificate;
    keypair = key;
    issuer = i.keypair.public;
    balance_cents = 0;
    incoming = [];
    pending_funding = [];
    credited = [];
    counter = 0;
    state = sealed;
    rng = device_rng;
  }

  abbrev pub new_entry : DeviceRecord
  new_entry = record { account = account; public_key = key.public; last_defunding_counter = 0 }

  abbrev pub registered : Issuer
  registered = record i { devices = HashMap.insert pseudonym new_entry i.devices }

  abbrev pub enrolment : Result (Wallet R) × Issuer × G
  enrolment =
      if HashMap.contains account i.accounts
      then (ok new_wallet, registered, (q.gen_bytes16 rng).1)
      else (err (unknown_account account), i, rng)

  module _ (doc : AreDocumented x) (issuer_key : IsKeypair i.keypair) where
    issued-verifies : Certificate.verify issued_certificate i.keypair.public ≡ true
    unfolding Certificate.verify Certificate.digest
    issued-verifies = verify-sign doc i.keypair _ issuer_key

    -- What follows the key generation of `enrol`, under an issuer with an RSA key, is exactly
    -- `enrolment`: for an account that is not open it is refused and nothing has changed; otherwise
    -- the device is registered under a new pseudonym and its certificate always installs.
    pub install-eq-enrolment : Protocol.install key i account limit device_rng rng ≡ enrolment
    unfolding Protocol.install Issuer.certify_device Wallet.new
    install-eq-enrolment = ground (arith, issued-verifies, same_self key.public)

    pub install_known :
        (balance : ℕ)
        → HashMap.get account i.accounts ≡ some balance
        → Protocol.install key i account limit device_rng rng
          ≡ (ok new_wallet, registered, (q.gen_bytes16 rng).1)
    install_known balance open_at = install-eq-enrolment ∙ rw open_at refl

    new_wallet-IsEnrolled :
        (balance : ℕ)
        → IsKeypair key
        → limit < u64_modulus
        → HashMap.get account i.accounts ≡ some balance
        → IsEnrolled new_wallet registered new_entry balance
    new_wallet-IsEnrolled balance own_key fits open_at = record {
      genuine = record { certified = issued-verifies; own_key = refl; keypair = own_key };
      formed = record {
        within = omega arith;
        limit_fits = fits;
        incoming_unique = tt;
        pending_unique = tt;
      };
      issuer_key = refl;
      issuer_keypair = issuer_key;
      known = get-insert_self pseudonym new_entry i.devices;
      same_key = refl;
      behind = omega arith;
      account_open = open_at;
    }

    -- For an open account, a device key that is an RSA key and a limit that is a `u64`, under an
    -- issuer with an RSA key, what follows the key generation of `enrol` succeeds, and the wallet is
    -- enrolled: its certificate verifies, the issuer knows its key, and it is within its limit.
    pub install-IsEnrolled :
        (balance : ℕ)
        → IsKeypair key
        → limit < u64_modulus
        → HashMap.get account i.accounts ≡ some balance
        → (Protocol.install key i account limit device_rng rng
            ≡ (ok new_wallet, registered, (q.gen_bytes16 rng).1))
          × IsEnrolled new_wallet registered new_entry balance
    install-IsEnrolled balance own_key fits open_at =
        (install_known balance open_at, new_wallet-IsEnrolled balance own_key fits open_at)
