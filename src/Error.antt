-- ===== src/Error.antt =====
-- src/error.rs: the errors of the protocol.
use digital_euro_wallet.Prelude.{ℕ, ◌++◌, StdResult, Exec, codes}
use digital_euro_wallet.Text.{Text, decimal}
use digital_euro_wallet.Id
use digital_euro_wallet.Id.{AccountId, DeviceId}

pub data Error : Type 0 where
  invalid_certificate : Error
  invalid_signature : Error
  not_for_this_device : Error
  self_payment : Error
  zero_amount : Error
  -- requested, available
  insufficient_funds : ℕ → ℕ → Error
  -- requested, headroom
  holding_limit_exceeded : ℕ → ℕ → Error
  unknown_request : Error
  already_credited : Error
  -- expected, found
  amount_mismatch : ℕ → ℕ → Error
  replay : Error
  unknown_account : AccountId → Error
  unknown_device : DeviceId → Error

abbrev pub Result : Type 0 → Type 0
Result A = StdResult Error A

-- A method on `&mut self` that returns a `Result`.
abbrev pub Action : Type 0 → Type 0 → Type 0
Action S A = Exec Error S A

-- `Display`
unfoldable pub display : Error → Text
display invalid_certificate = codes "device certificate not issued by the Eurosystem"
display invalid_signature = codes "signature does not verify"
display not_for_this_device = codes "message is addressed to another device"
display self_payment = codes "a device cannot pay itself"
display zero_amount = codes "amount must be non-zero"
display (insufficient_funds requested available) =
    codes "insufficient funds: need "
    ++ (decimal requested ++ (codes " cents, have " ++ decimal available))
display (holding_limit_exceeded requested headroom) =
    codes "holding limit: "
    ++ (decimal requested
        ++ (codes " cents requested, only " ++ (decimal headroom ++ codes " of room left")))
display unknown_request = codes "no open request matches this message"
display already_credited = codes "already credited"
display (amount_mismatch expected found) =
    codes "amount mismatch: requested "
    ++ (decimal expected ++ (codes " cents, got " ++ decimal found))
display replay = codes "message already processed"
display (unknown_account id) = codes "unknown account " ++ Id.short id.bytes
display (unknown_device id) = codes "unknown device " ++ Id.short id.bytes
