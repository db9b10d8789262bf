-- ===== src/Harness/CommandLine.antt =====
-- src/main.rs: the arguments, as the loop of `main` reads them, and the tests of their values.
pub mod RoundTrip
pub mod Settled
use digital_euro_wallet.Prelude.{
  ℕ, ◌%◌, ◌||◌, not, ltb, if◌then◌else◌, List, [], ◌∷◌, ◌++◌, Option, none, some, ◌==◌, nat_eq,
  list_eq, codes, StdResult, ok, err,
}
use digital_euro_wallet.Text.{Text, parse_u64}

pub data Command : Type 0 where
  check fuzz both : Command

-- the local variables of `main`
pub record Settings : Type 0 where
  pub command : Command
  pub seed : ℕ
  pub key_bits : ℕ
  pub limit : ℕ
  pub devices : ℕ
  pub ops : ℕ

abbrev pub defaults : Settings
defaults = record {
  command = check;
  seed = 2026;
  key_bits = 2048;
  limit = 50000;
  devices = 6;
  ops = 400;
}

-- an option that takes a number
pub data Numbered : Type 0 where
  seed_option key_bits_option limit_option devices_option ops_option : Numbered

pub data Kind : Type 0 where
  help : Kind
  chosen : Command → Kind
  numbered : Numbered → Kind
  other : Kind

-- the arms of `match arg`
unfoldable pub kind : Text → Kind
kind arg =
    if arg == codes "-h" || arg == codes "--help"
    then help
    else if arg == codes "check"
    then chosen check
    else if arg == codes "fuzz"
    then chosen fuzz
    else if arg == codes "all"
    then chosen both
    else if arg == codes "--seed"
    then numbered seed_option
    else if arg == codes "--key-bits"
    then numbered key_bits_option
    else if arg == codes "--limit"
    then numbered limit_option
    else if arg == codes "--devices"
    then numbered devices_option
    else if arg == codes "--ops"
    then numbered ops_option
    else other

-- the inner `match arg`; `as usize` keeps a `u64` on a machine of 64 bits
abbrev pub assign : Numbered → ℕ → Settings → Settings
assign seed_option parsed s = record s { seed = parsed }
assign key_bits_option parsed s = record s { key_bits = parsed }
assign limit_option parsed s = record s { limit = parsed }
assign devices_option parsed s = record s { devices = parsed }
assign ops_option parsed s = record s { ops = parsed }

-- The loop ends early with the usage, or with an error; else with the settings.
pub data Parsed : Type 0 where
  shown_usage : Parsed
  -- the text on the standard error
  refused : Text → Parsed
  settled : Settings → Parsed

abbrev pub needs_value : Text → Text
needs_value arg = codes "error: " ++ (arg ++ codes " needs a value")

abbrev pub expects_number : Text → Text → Text
expects_number arg raw =
    codes "error: " ++ (arg ++ (codes " expects a number, got '" ++ (raw ++ codes "'")))

-- with the line break at its end; what `usage` prints behind it is left out
abbrev pub unrecognised : Text → Text
unrecognised arg = codes "error: unrecognised argument '" ++ (arg ++ (codes "'" ++ 10 ∷ []))

-- the loop over the arguments that are left
unfoldable pub parse_args : List Text → Settings → Parsed
parse_args [] s = settled s
parse_args (arg ∷ []) s = elim (kind arg) [
  | help ↦ shown_usage
  | chosen command ↦ settled (record s { command = command })
  | numbered option ↦ refused (needs_value arg)
  | other ↦ refused (unrecognised arg)
]
parse_args (arg ∷ raw ∷ rest) s = elim (kind arg) [
  | help ↦ shown_usage
  | chosen command ↦ parse_args (raw ∷ rest) (record s { command = command })
  | numbered option ↦ elim (parse_u64 raw) [
    | none ↦ refused (expects_number arg raw)
    | some parsed ↦ parse_args rest (assign option parsed s)
  ]
  | other ↦ refused (unrecognised arg)
]

-- the three tests after the loop
unfoldable pub validate : Settings → StdResult Text (Unit {0})
validate s =
    if ltb s.key_bits 512 || not (s.key_bits % 2 == 0)
    then err (codes "error: --key-bits must be even and at least 512")
    else if ltb s.limit 2000
    then err (codes "error: --limit must be at least 2000 cents (the scenarios pay up to 20 €)")
    else if ltb s.devices 2
    then err (codes "error: --devices must be at least 2")
    else ok tt

unfoldable pub settle_arguments : List Text → Parsed
settle_arguments args = elim (parse_args args defaults) [
  | shown_usage ↦ shown_usage
  | refused message ↦ refused message
  | settled s ↦ elim (validate s) [ ok _ ↦ settled s | err message ↦ refused message ]
]
