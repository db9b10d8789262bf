-- ===== src/Tests/Verdicts.antt =====
-- The verdicts of the acceptance scenarios, on worlds opened with a generator that counts.
use digital_euro_wallet.Prelude.{
  ℕ, ◌≡◌, ◌≢◌, ◌↔◌, ◌≤◌, refl, List, [], ◌∷◌, some, ok, arith, true, replicate,
}
use digital_euro_wallet.Message.Transfer
use digital_euro_wallet.Harness.Opening.{Config}
use digital_euro_wallet.Harness.Acceptance
use digital_euro_wallet.Harness.Acceptance.Verdicts.{
  IsOpened, IsUsable, lost_device_strands_its_balance_iff, run_check_short_limit,
}
use digital_euro_wallet.Harness.Acceptance.Checked.{
  IsForeign, IsTellingApart, AreOpened, run_check-passes,
}
use digital_euro_wallet.Tests.Toy.{
  counting, wide-AreDocumented, issuer_key, issuer_key-IsKeypair, drawn_key, drawn_key-IsKeypair,
}
use digital_euro_wallet.Tests.Drawn.{Drawn, drawn, wallet_of, drawn_world, drawn_world-IsWellDrawn}
use digital_euro_wallet.Tests.Euclid.{keys}
use digital_euro_wallet.Tests.Openings.{Enrolling, config, crates, primes, seeds, drawn-IsKeySource}

-- as `main` makes it of its arguments
abbrev pub high : Config
high = record config { issuer_key = drawn_key; seed = 2; limit = 5000 }

high-IsUsable : IsUsable ℕ 1 1 high
high-IsUsable = record {
  issuer_key = drawn_key-IsKeypair;
  limit_fits = omega arith;
  source = drawn-IsKeySource;
}

config-IsUsable : IsUsable ℕ 1 1 config
config-IsUsable = record {
  issuer_key = issuer_key-IsKeypair;
  limit_fits = omega arith;
  source = drawn-IsKeySource;
}

abbrev partial_draws : List Drawn
partial_draws =
    drawn 2 10000 5 9 4294967298 ∷ drawn 6 0 9 13 8589934594 ∷ drawn 10 0 13 2 12884901890 ∷ []

partial-IsOpened : IsOpened ℕ 1 1 high 3 2 (10000 ∷ 0 ∷ 0 ∷ [])
unfolding Enrolling
partial-IsOpened = record {
  start = drawn_world drawn_key 5000 partial_draws;
  opened = refl;
  drawn =
      drawn_world-IsWellDrawn 3 drawn_key 5000 partial_draws
        ((ground arith, (ground arith, tt)), ((ground arith, tt), (tt, tt)))
        ((ground arith, (ground arith, tt)), ((ground arith, tt), (tt, tt)));
}

abbrev received_draws : List Drawn
received_draws =
    drawn 3 10000 6 7 4294967299 ∷ drawn 7 0 10 11 8589934595 ∷ drawn 11 0 14 14 12884901891 ∷ []

received-IsOpened : IsOpened ℕ 1 1 high 4 3 (10000 ∷ 0 ∷ 0 ∷ [])
unfolding Enrolling
received-IsOpened = record {
  start = drawn_world drawn_key 5000 received_draws;
  opened = refl;
  drawn =
      drawn_world-IsWellDrawn 4 drawn_key 5000 received_draws
        ((ground arith, (ground arith, tt)), ((ground arith, tt), (tt, tt)))
        ((ground arith, (ground arith, tt)), ((ground arith, tt), (tt, tt)));
}

abbrev refused_draws : List Drawn
refused_draws = drawn 4 10000 7 9 4294967300 ∷ drawn 8 0 11 13 8589934596 ∷ []

refused-IsOpened : IsOpened ℕ 1 1 high 3 4 (10000 ∷ 0 ∷ [])
unfolding Enrolling
refused-IsOpened = record {
  start = drawn_world drawn_key 5000 refused_draws;
  opened = refl;
  drawn =
      drawn_world-IsWellDrawn 3 drawn_key 5000 refused_draws ((ground arith, tt), (tt, tt))
        ((ground arith, tt), (tt, tt));
}

abbrev holding_draws : List Drawn
holding_draws = drawn 5 5000 8 11 4294967301 ∷ drawn 9 5000 12 0 8589934597 ∷ []

holding-IsOpened : IsOpened ℕ 1 1 high 4 5 (5000 ∷ 5000 ∷ [])
unfolding Enrolling
holding-IsOpened = record {
  start = drawn_world drawn_key 5000 holding_draws;
  opened = refl;
  drawn =
      drawn_world-IsWellDrawn 4 drawn_key 5000 holding_draws ((ground arith, tt), (tt, tt))
        ((ground arith, tt), (tt, tt));
}

abbrev tampering_draws : List Drawn
tampering_draws =
    drawn 6 10000 9 13 4294967302 ∷ drawn 10 0 13 2 8589934598 ∷ drawn 14 0 17 5 12884901894 ∷ []

tampering-IsOpened : IsOpened ℕ 1 1 high 2 6 (10000 ∷ 0 ∷ 0 ∷ [])
unfolding Enrolling
tampering-IsOpened = record {
  start = drawn_world drawn_key 5000 tampering_draws;
  opened = refl;
  drawn =
      drawn_world-IsWellDrawn 2 drawn_key 5000 tampering_draws
        ((ground arith, (ground arith, tt)), ((ground arith, tt), (tt, tt)))
        ((ground arith, (ground arith, tt)), ((ground arith, tt), (tt, tt)));
}

abbrev round_trip_draws : List Drawn
round_trip_draws = drawn 7 10000 10 11 4294967303 ∷ []

round_trip-IsOpened : IsOpened ℕ 1 1 high 2 7 (10000 ∷ [])
unfolding Enrolling
round_trip-IsOpened = record {
  start = drawn_world drawn_key 5000 round_trip_draws;
  opened = refl;
  drawn = drawn_world-IsWellDrawn 2 drawn_key 5000 round_trip_draws (tt, tt) (tt, tt);
}

abbrev lost_draws : List Drawn
lost_draws = drawn 8 10000 11 13 4294967304 ∷ []

lost-IsOpened : IsOpened ℕ 1 1 high 1 8 (10000 ∷ [])
unfolding Enrolling
lost-IsOpened = record {
  start = drawn_world drawn_key 5000 lost_draws;
  opened = refl;
  drawn = drawn_world-IsWellDrawn 1 drawn_key 5000 lost_draws (tt, tt) (tt, tt);
}

abbrev broken_draws : List Drawn
broken_draws =
    drawn 9 10000 12 0 4294967305 ∷ drawn 13 0 16 3 8589934601 ∷ drawn 17 0 20 7 12884901897 ∷ []

broken-IsOpened : IsOpened ℕ 1 1 high 4 9 (10000 ∷ 0 ∷ 0 ∷ [])
unfolding Enrolling
broken-IsOpened = record {
  start = drawn_world drawn_key 5000 broken_draws;
  opened = refl;
  drawn =
      drawn_world-IsWellDrawn 4 drawn_key 5000 broken_draws
        ((ground arith, (ground arith, tt)), ((ground arith, tt), (tt, tt)))
        ((ground arith, (ground arith, tt)), ((ground arith, tt), (tt, tt)));
}

lost_device_strands_its_balance_iff_example :
    (Acceptance.lost_device_strands_its_balance ℕ 1 1 high ≡ some (ok tt)) ↔ (4000 ≤ high.limit)
lost_device_strands_its_balance_iff_example =
    lost_device_strands_its_balance_iff ℕ 1 1 high wide-AreDocumented high-IsUsable
      (unfold Enrolling in lost-IsOpened)

abbrev short_draws : List Drawn
short_draws = drawn 7 10000 10 30 4294967303 ∷ []

short-IsOpened : IsOpened ℕ 1 1 config 1 7 (10000 ∷ [])
unfolding Enrolling
short-IsOpened = record {
  start = drawn_world issuer_key 2000 short_draws;
  opened = refl;
  drawn = drawn_world-IsWellDrawn 1 issuer_key 2000 short_draws (tt, tt) (tt, tt);
}

run_check_short_limit_example : Acceptance.run_check ℕ 1 1 config ≢ some true
run_check_short_limit_example =
    run_check_short_limit ℕ 1 1 config wide-AreDocumented config-IsUsable (omega arith)
      (unfold Enrolling in short-IsOpened)

refused-IsForeign : IsForeign ℕ 1 1 high
unfolding Enrolling Acceptance.rogue_certificate refused-IsOpened
refused-IsForeign = record {
  world = refused-IsOpened;
  rogue = record {
    device = record { bytes = replicate 16 2995 };
    public_key = record { n = 33; e = 65537 };
    holding_limit_cents = 5000;
    signature = 2;
  };
  made = refl;
  foreign = refl;
}

tampering-IsTellingApart : IsTellingApart ℕ 1 1 high
unfolding Enrolling tampering-IsOpened Transfer.digest
tampering-IsTellingApart = record {
  world = tampering-IsOpened;
  payer = wallet_of drawn_key 5000 (drawn 6 10000 9 13 4294967302);
  payee = wallet_of drawn_key 5000 (drawn 10 0 13 2 8589934598);
  third = wallet_of drawn_key 5000 (drawn 14 0 17 5 12884901894);
  payer_at = refl;
  payee_at = refl;
  third_at = refl;
  apart = record { amounts = λ e. ground (arith, e); payees = λ e. ground (arith, e) };
}

pub all-AreOpened : AreOpened ℕ 1 1 high
unfolding Enrolling
all-AreOpened = record {
  partial = partial-IsOpened;
  received = received-IsOpened;
  refused = refused-IsForeign;
  holding = holding-IsOpened;
  tampering = tampering-IsTellingApart;
  round_trip = round_trip-IsOpened;
  lost = lost-IsOpened;
  broken = broken-IsOpened;
}

run_check-passes_example : Acceptance.run_check ℕ 1 1 high ≡ some true
run_check-passes_example =
    run_check-passes ℕ 1 1 high wide-AreDocumented high-IsUsable (omega arith) (omega arith)
      all-AreOpened
