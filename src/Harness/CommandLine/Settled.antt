-- ===== src/Harness/CommandLine/Settled.antt =====
-- What is known of the settings that `main` of src/main.rs goes on with.
use digital_euro_wallet.Prelude.{
  ℕ, ◌+◌, ◌*◌, ◌-◌, ◌%◌, ◌≤◌, ◌<◌, ◌≡◌, ◌∙◌, refl, sym, List, [], ◌∷◌, some, Option-cases, inl, inr,
  list_eq, nat_eq, arith, u64_modulus, ok, err,
}
use digital_euro_wallet.Text.{Text, parse_u64, scan_u64}
use digital_euro_wallet.Harness.CommandLine.{
  Command, Settings, Numbered, seed_option, key_bits_option, limit_option, devices_option,
  ops_option, Kind, help, chosen, numbered, other, kind, assign, Parsed, shown_usage, refused,
  settled, parse_args, defaults, validate, settle_arguments,
}
use digital_euro_wallet.Harness.CommandLine.RoundTrip.{
  AreWords, parse_args-chosen, parse_args-numbered,
}

scan_u64-fits :
    (acc n : ℕ) (s : Text) → acc < u64_modulus → scan_u64 acc s ≡ some n → n < u64_modulus
unfolding scan_u64
scan_u64-fits acc n [] h e = ground (arith, e, h)
scan_u64-fits acc n (c ∷ s) h e = ground (arith, e, scan_u64-fits (acc * 10 + (c - 48)) n s)

pub parse_u64-fits : (n : ℕ) (s : Text) → parse_u64 s ≡ some n → n < u64_modulus
unfolding parse_u64
parse_u64-fits n [] e = ground (arith, e)
parse_u64-fits n (c ∷ []) e = scan_u64-fits 0 n (c ∷ []) (omega arith) e
parse_u64-fits n (c ∷ d ∷ s) e =
    ground (arith, e, scan_u64-fits 0 n (d ∷ s), scan_u64-fits 0 n (c ∷ d ∷ s))

assign-AreWords :
    (o : Numbered) (n : ℕ) (s : Settings) → n < u64_modulus → AreWords s → AreWords (assign o n s)
assign-AreWords seed_option n s h a = record {
  seed = h;
  key_bits = a.key_bits;
  limit = a.limit;
  devices = a.devices;
  ops = a.ops;
}
assign-AreWords key_bits_option n s h a = record {
  seed = a.seed;
  key_bits = h;
  limit = a.limit;
  devices = a.devices;
  ops = a.ops;
}
assign-AreWords limit_option n s h a = record {
  seed = a.seed;
  key_bits = a.key_bits;
  limit = h;
  devices = a.devices;
  ops = a.ops;
}
assign-AreWords devices_option n s h a = record {
  seed = a.seed;
  key_bits = a.key_bits;
  limit = a.limit;
  devices = h;
  ops = a.ops;
}
assign-AreWords ops_option n s h a = record {
  seed = a.seed;
  key_bits = a.key_bits;
  limit = a.limit;
  devices = a.devices;
  ops = h;
}

settled-injective : (s t : Settings) → settled s ≡ settled t → s ≡ t
settled-injective s t e = ground (arith, e)

-- What the loop makes of the first argument and the one behind it, arm by arm.
data Arm (arg : Text) : Type 0 where
  help_arm : kind arg ≡ help → Arm arg
  chosen_arm : (c : Command) → kind arg ≡ chosen c → Arm arg
  numbered_arm : (o : Numbered) → kind arg ≡ numbered o → Arm arg
  other_arm : kind arg ≡ other → Arm arg

arm : (arg : Text) → Arm arg
arm arg = of (kind arg) refl
  where
    of : (k : Kind) → kind arg ≡ k → Arm arg
    of help e = help_arm e
    of (chosen c) e = chosen_arm c e
    of (numbered o) e = numbered_arm o e
    of other e = other_arm e

with_command : (c : Command) (s : Settings) → AreWords s → AreWords (record s { command = c })
with_command c s h = record {
  seed = h.seed;
  key_bits = h.key_bits;
  limit = h.limit;
  devices = h.devices;
  ops = h.ops;
}

parse_args-AreWords :
    (args : List Text) (s t : Settings) → AreWords s → parse_args args s ≡ settled t → AreWords t
unfolding parse_args
parse_args-AreWords [] s t h e = rw (settled-injective s t e) at h
parse_args-AreWords (arg ∷ []) s t h e = elim (arm arg) [
  | help_arm k ↦ absurd (ground (arith, k, e))
  | chosen_arm c k ↦ rw (settled-injective _ t (rw (parse_args, k) at e)) at (with_command c s h)
  | numbered_arm o k ↦ absurd (ground (arith, k, e))
  | other_arm k ↦ absurd (ground (arith, k, e))
]
parse_args-AreWords (arg ∷ raw ∷ rest) s t h e =
    let after_command = λ (c : Command).
      parse_args-AreWords (raw ∷ rest) (record s { command = c }) t (with_command c s h) in
    let after_number = λ (o : Numbered) (n : ℕ) (fits : n < u64_modulus).
      parse_args-AreWords rest (assign o n s) t (assign-AreWords o n s fits h) in
    elim (arm arg) [
      | help_arm k ↦ absurd (ground (arith, k, e))
      | chosen_arm c k ↦ after_command c (sym (parse_args-chosen arg raw c rest s k) ∙ e)
      | numbered_arm o k ↦ elim (Option-cases (parse_u64 raw)) [
        | inl p ↦ absurd (ground (arith, k, p, e))
        | inr (n, p) ↦
            after_number o n (parse_u64-fits n raw p)
              (sym (parse_args-numbered arg raw o n rest s k p) ∙ e)
      ]
      | other_arm k ↦ absurd (ground (arith, k, e))
    ]

-- What `main` goes on with.
pub record AreAccepted (s : Settings) : Type 0 where
  pub words : AreWords s
  pub key_bits_even : s.key_bits % 2 ≡ 0
  pub key_bits_least : 512 ≤ s.key_bits
  pub limit_least : 2000 ≤ s.limit
  pub devices_least : 2 ≤ s.devices

defaults-AreWords : AreWords defaults
defaults-AreWords = record {
  seed = omega arith;
  key_bits = omega arith;
  limit = omega arith;
  devices = omega arith;
  ops = omega arith;
}

validate-ok : (s : Settings) → AreWords s → validate s ≡ ok tt → AreAccepted s
unfolding validate
validate-ok s h e = record {
  words = h;
  key_bits_even = ground (arith, e);
  key_bits_least = ground (arith, e);
  limit_least = ground (arith, e);
  devices_least = ground (arith, e);
}

-- The settings with which `main` goes on past the arguments and their tests: every number fits 64
-- bits, the key size is even and at least 512, the limit at least 2000, and there are two devices.
pub settle_arguments-AreAccepted :
    (args : List Text) (s : Settings) → settle_arguments args ≡ settled s → AreAccepted s
settle_arguments-AreAccepted args s e =
    checked (parse_args args defaults) refl (unfold settle_arguments in e)
  where
    checked :
        (p : Parsed)
        → parse_args args defaults ≡ p
        → elim p [
          | shown_usage ↦ shown_usage
          | refused message ↦ refused message
          | settled s ↦ elim (validate s) [ ok _ ↦ settled s | err message ↦ refused message ]
        ]
          ≡ settled s
        → AreAccepted s
    checked shown_usage p e = absurd (ground (arith, e))
    checked (refused message) p e = absurd (ground (arith, e))
    checked (settled t) p e =
        let valid : validate t ≡ ok tt = ground (arith, e) in
        let same : t ≡ s = settled-injective t s (rw valid at e) in
        rw same at (validate-ok t (parse_args-AreWords args defaults t defaults-AreWords p) valid)
