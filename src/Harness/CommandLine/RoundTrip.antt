-- ===== src/Harness/CommandLine/RoundTrip.antt =====
-- Settings written as arguments and read back.
use digital_euro_wallet.Prelude.{
  ℕ, ◌<◌, ◌≡◌, ◌∙◌, refl, List, [], ◌∷◌, some, codes, list_eq, nat_eq, u64_modulus,
}
use digital_euro_wallet.Text.{Text, decimal, parse_u64}
use digital_euro_wallet.Text.Decimal.{parse_u64-decimal}
use digital_euro_wallet.Harness.CommandLine.{
  Command, check, fuzz, both, Settings, Numbered, seed_option, key_bits_option, limit_option,
  devices_option, ops_option, chosen, numbered, kind, assign, settled, parse_args,
}

abbrev pub command_word : Command → Text
command_word check = codes "check"
command_word fuzz = codes "fuzz"
command_word both = codes "all"

abbrev pub option_word : Numbered → Text
option_word seed_option = codes "--seed"
option_word key_bits_option = codes "--key-bits"
option_word limit_option = codes "--limit"
option_word devices_option = codes "--devices"
option_word ops_option = codes "--ops"

-- every setting as arguments
unfoldable pub arguments : Settings → List Text
arguments s =
    command_word s.command
    ∷ option_word seed_option
    ∷ decimal s.seed
    ∷ option_word key_bits_option
    ∷ decimal s.key_bits
    ∷ option_word limit_option
    ∷ decimal s.limit
    ∷ option_word devices_option
    ∷ decimal s.devices
    ∷ option_word ops_option
    ∷ decimal s.ops
    ∷ []

pub record AreWords (s : Settings) : Type 0 where
  pub seed : s.seed < u64_modulus
  pub key_bits : s.key_bits < u64_modulus
  pub limit : s.limit < u64_modulus
  pub devices : s.devices < u64_modulus
  pub ops : s.ops < u64_modulus

kind-command_word : (c : Command) → kind (command_word c) ≡ chosen c
unfolding kind
kind-command_word check = refl
kind-command_word fuzz = refl
kind-command_word both = refl

kind-option_word : (o : Numbered) → kind (option_word o) ≡ numbered o
unfolding kind
kind-option_word seed_option = refl
kind-option_word key_bits_option = refl
kind-option_word limit_option = refl
kind-option_word devices_option = refl
kind-option_word ops_option = refl

pub parse_args-numbered :
    (arg raw : Text) (o : Numbered) (n : ℕ) (rest : List Text) (s : Settings)
    → kind arg ≡ numbered o
    → parse_u64 raw ≡ some n
    → parse_args (arg ∷ raw ∷ rest) s ≡ parse_args rest (assign o n s)
unfolding parse_args
parse_args-numbered arg raw o n rest s k p = rw (parse_args, k, p) refl

parse_args-option :
    (o : Numbered) (n : ℕ) (rest : List Text) (s : Settings)
    → n < u64_modulus
    → parse_args (option_word o ∷ decimal n ∷ rest) s ≡ parse_args rest (assign o n s)
parse_args-option o n rest s h =
    parse_args-numbered (option_word o) (decimal n) o n rest s (kind-option_word o)
      (parse_u64-decimal n h)

pub parse_args-chosen :
    (arg raw : Text) (c : Command) (rest : List Text) (s : Settings)
    → kind arg ≡ chosen c
    → parse_args (arg ∷ raw ∷ rest) s ≡ parse_args (raw ∷ rest) (record s { command = c })
unfolding parse_args
parse_args-chosen arg raw c rest s k = rw (parse_args, k) refl

parse_args-command :
    (c : Command) (raw : Text) (rest : List Text) (s : Settings)
    → parse_args (command_word c ∷ raw ∷ rest) s
      ≡ parse_args (raw ∷ rest) (record s { command = c })
parse_args-command c raw rest s =
    parse_args-chosen (command_word c) raw c rest s (kind-command_word c)

-- Written as arguments, all settings are read back, whatever the variables held before, as long as
-- the numbers fit 64 bits.
pub parse_args-arguments :
    (s before : Settings) → AreWords s → parse_args (arguments s) before ≡ settled s
unfolding arguments
parse_args-arguments s before h =
    let to_ops = option_word ops_option ∷ decimal s.ops ∷ [] in
    let to_devices = option_word devices_option ∷ decimal s.devices ∷ to_ops in
    let to_limit = option_word limit_option ∷ decimal s.limit ∷ to_devices in
    let to_key_bits = option_word key_bits_option ∷ decimal s.key_bits ∷ to_limit in
    let with_command : Settings = record before { command = s.command } in
    let with_seed = assign seed_option s.seed with_command in
    let with_key_bits = assign key_bits_option s.key_bits with_seed in
    let with_limit = assign limit_option s.limit with_key_bits in
    parse_args-command s.command (option_word seed_option) (decimal s.seed ∷ to_key_bits) before
    ∙ parse_args-option seed_option s.seed to_key_bits with_command h.seed
    ∙ parse_args-option key_bits_option s.key_bits to_limit with_seed h.key_bits
    ∙ parse_args-option limit_option s.limit to_devices with_key_bits h.limit
    ∙ parse_args-option devices_option s.devices to_ops with_limit h.devices
    ∙ parse_args-option ops_option s.ops [] (assign devices_option s.devices with_limit) h.ops
    ∙ unfold parse_args in refl
