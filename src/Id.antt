-- ===== src/Id.antt =====
-- src/id.rs: identifiers of accounts and devices, sixteen bytes each.
use digital_euro_wallet.Prelude.{
  ◌≡◌, ◌↔◌, ◌<◌, ◌++◌, true, Bytes, PartialEq, ◌==◌, list_same_iff, list_eq, nat_eq, arith, take,
  codes, String, Every,
}
use digital_euro_wallet.Text.{Text, hex}
use digital_euro_wallet.Text.Hex.{hex-injective}

pub record AccountId : Type 0 where
  pub bytes : Bytes

pub record DeviceId : Type 0 where
  pub bytes : Bytes

pub account_same_iff : (a b : AccountId) → ((a.bytes == b.bytes) ≡ true) ↔ (a ≡ b)
account_same_iff a b = ground (arith, list_same_iff a.bytes b.bytes)

pub device_same_iff : (a b : DeviceId) → ((a.bytes == b.bytes) ≡ true) ↔ (a ≡ b)
device_same_iff a b = ground (arith, list_same_iff a.bytes b.bytes)

instance abbrev pub account_eq : PartialEq AccountId
account_eq = record { same = λ a b. a.bytes == b.bytes; same_iff = account_same_iff }

instance abbrev pub device_eq : PartialEq DeviceId
device_eq = record { same = λ a b. a.bytes == b.bytes; same_iff = device_same_iff }

-- `short` of either identifier
unfoldable pub short : Bytes → Text
short bytes = hex (take 4 bytes)

-- `Display` of either identifier
unfoldable pub display : Bytes → Text
display bytes = hex bytes

-- `Debug` of the identifier type with the given name
unfoldable pub debug : String → Bytes → Text
debug name bytes = codes name ++ (codes "(" ++ (short bytes ++ codes "…)"))

-- Identifiers of bytes that are displayed alike are equal.
pub display-injective :
    (a b : DeviceId)
    → Every a.bytes (λ v. v < 256)
    → Every b.bytes (λ v. v < 256)
    → display a.bytes ≡ display b.bytes
    → a ≡ b
unfolding display
display-injective a b ha hb h = cc (hex-injective a.bytes b.bytes ha hb h)
