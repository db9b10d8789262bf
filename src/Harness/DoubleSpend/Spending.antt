-- ===== src/Harness/DoubleSpend/Spending.antt =====
-- The double spending step by step.
use digital_euro_wallet.Prelude.{
  ℕ, ◌+◌, ◌≡◌, ◌≢◌, ◌∙◌, refl, sym, some, ok, arith, get_elem?, set, get_elem?-set_self,
  get_elem?-set_ne,
}
use digital_euro_wallet.Crates.{Crates, Rng, AreDocumented}
use digital_euro_wallet.Wallet.{Wallet, cracked}
use digital_euro_wallet.Wallet.Genuine.{debited, signed_defunding}
use digital_euro_wallet.Wallet.Request.{paid}
use digital_euro_wallet.Issuer.Redemptions.{cashed}
use digital_euro_wallet.Harness
use digital_euro_wallet.Harness.{World, perform}
use digital_euro_wallet.Harness.Members.{IsMember, cashed-IsMember}
use digital_euro_wallet.Harness.Outcomes.{paid-IsMember}
use digital_euro_wallet.Harness.Counterfeit.{perform-inflated}
use digital_euro_wallet.Harness.Scenarios.Cracked.{
  cracked-AreReady, debited-AreReady, perform-defund_member,
}
use digital_euro_wallet.Harness.DoubleSpend.{AreReadyThree, IsSpentTwice, broken}

module _ {R : Type 0} ⦃x : Crates⦄ ⦃g : Rng R⦄ where
  module _ (limit a b c v p q : ℕ) (w : World R) (doc : AreDocumented x) (d e f : Wallet R)
      (h : AreReadyThree limit a b c v p q w d e f) where
    abbrev mallory : Wallet R
    mallory = record d { state = cracked }

    abbrev spent_once : Wallet R
    spent_once = debited v mallory

    abbrev spent_twice : Wallet R
    spent_twice = debited v spent_once

    abbrev first_paid : World R
    first_paid = record w { devices = set b (paid v e) (set a spent_once (broken a w d).devices) }

    abbrev second_paid : World R
    second_paid = record w { devices = set c (paid v f) (set a spent_twice first_paid.devices) }

    mallory_at : get_elem? (broken a w d).devices a ≡ some mallory
    mallory_at = get_elem?-set_self a mallory d w.devices h.payer_at

    first_spend : perform (Harness.pay a b v) (broken a w d) ≡ some (ok v, first_paid)
    first_spend =
        perform-inflated doc (broken a w d) a b v mallory e (cracked-AreReady d e h.first_ready)
          h.payer_not_first mallory_at
          (get_elem?-set_ne a b mallory w.devices h.payer_not_first ∙ h.first_at) h.first_other refl
          h.positive h.first_room h.payer_holds

    spent_at : get_elem? first_paid.devices a ≡ some spent_once
    spent_at =
        get_elem?-set_ne b a (paid v e) (set a spent_once (broken a w d).devices)
          (λ s. h.payer_not_first (sym s))
        ∙ get_elem?-set_self a spent_once mallory (broken a w d).devices mallory_at

    f_in_first : get_elem? first_paid.devices c ≡ some f
    f_in_first =
        get_elem?-set_ne b c (paid v e) (set a spent_once (broken a w d).devices) h.first_not_second
        ∙ get_elem?-set_ne a c spent_once (broken a w d).devices h.payer_not_second
        ∙ get_elem?-set_ne a c mallory w.devices h.payer_not_second
        ∙ h.second_at

    second_spend : perform (Harness.pay a c v) first_paid ≡ some (ok v, second_paid)
    second_spend =
        perform-inflated doc first_paid a c v spent_once f
          (debited-AreReady v mallory f (cracked-AreReady d f h.second_ready)) h.payer_not_second
          spent_at f_in_first h.second_other refl h.positive h.second_room h.payer_holds

    abbrev e' : Wallet R
    e' = paid v e

    abbrev f' : Wallet R
    f' = paid v f

    e'-IsMember : IsMember 2 limit w.issuer h.first_account e'
    e'-IsMember = paid-IsMember h.first_member v h.first_room

    f'-IsMember : IsMember 2 limit w.issuer h.second_account f'
    f'-IsMember = paid-IsMember h.second_member v h.second_room

    e'_in : get_elem? second_paid.devices b ≡ some e'
    e'_in =
        get_elem?-set_ne c b f' (set a spent_twice first_paid.devices)
          (λ s. h.first_not_second (sym s))
        ∙ get_elem?-set_ne a b spent_twice first_paid.devices h.payer_not_first
        ∙ get_elem?-set_self b e' e (set a spent_once (broken a w d).devices) (
            get_elem?-set_ne a b spent_once (broken a w d).devices h.payer_not_first
            ∙ get_elem?-set_ne a b mallory w.devices h.payer_not_first
            ∙ h.first_at)

    f'_in : get_elem? second_paid.devices c ≡ some f'
    f'_in =
        get_elem?-set_self c f' f (set a spent_twice first_paid.devices)
          (get_elem?-set_ne a c spent_twice first_paid.devices h.payer_not_second ∙ f_in_first)

    mallory_in : get_elem? second_paid.devices a ≡ some spent_twice
    mallory_in =
        get_elem?-set_ne c a f' (set a spent_twice first_paid.devices)
          (λ s. h.payer_not_second (sym s))
        ∙ get_elem?-set_self a spent_twice spent_once first_paid.devices spent_at

    abbrev first_cashed : World R
    first_cashed = record w {
      issuer = cashed (signed_defunding (p + v) e') e'-IsMember.entry e'-IsMember.balance w.issuer;
      devices = set b (debited (p + v) e') second_paid.devices;
    }

    first_back : perform (Harness.defund b (p + v)) second_paid ≡ some (ok (p + v), first_cashed)
    first_back =
        perform-defund_member doc b (p + v) second_paid e' h.first_account e'-IsMember e'_in
          (omega (arith, h.positive)) (omega (arith, h.first_holds))

    f'-IsMember_still : IsMember 2 limit first_cashed.issuer h.second_account f'
    f'-IsMember_still =
        cashed-IsMember (signed_defunding (p + v) e') e'-IsMember.entry e'-IsMember.balance
          h.devices_apart (λ s. h.accounts_apart (sym e'-IsMember.own_account ∙ s)) f'-IsMember

    f'_in_cashed : get_elem? first_cashed.devices c ≡ some f'
    f'_in_cashed =
        get_elem?-set_ne b c (debited (p + v) e') second_paid.devices h.first_not_second ∙ f'_in

    abbrev last : World R
    last = record w {
      issuer =
          cashed (signed_defunding (q + v) f') f'-IsMember_still.entry f'-IsMember_still.balance
            first_cashed.issuer;
      devices = set c (debited (q + v) f') first_cashed.devices;
    }

    second_back : perform (Harness.defund c (q + v)) first_cashed ≡ some (ok (q + v), last)
    second_back =
        perform-defund_member doc c (q + v) first_cashed f' h.second_account f'-IsMember_still
          f'_in_cashed (omega (arith, h.positive)) (omega (arith, h.second_holds))

    mallory_last : get_elem? last.devices a ≡ some spent_twice
    mallory_last =
        get_elem?-set_ne c a (debited (q + v) f') first_cashed.devices
          (λ s. h.payer_not_second (sym s))
        ∙ get_elem?-set_ne b a (debited (p + v) e') second_paid.devices
            (λ s. h.payer_not_first (sym s))
        ∙ mallory_in

    untouched : (i : ℕ) → a ≢ i → b ≢ i → c ≢ i → get_elem? last.devices i ≡ get_elem? w.devices i
    untouched i na nb nc =
        get_elem?-set_ne c i (debited (q + v) f') first_cashed.devices nc
        ∙ get_elem?-set_ne b i (debited (p + v) e') second_paid.devices nb
        ∙ get_elem?-set_ne c i f' (set a spent_twice first_paid.devices) nc
        ∙ get_elem?-set_ne a i spent_twice first_paid.devices na
        ∙ get_elem?-set_ne b i e' (set a spent_once (broken a w d).devices) nb
        ∙ get_elem?-set_ne a i spent_once (broken a w d).devices na
        ∙ get_elem?-set_ne a i mallory w.devices na

    -- Every step is accepted.
    pub AreReadyThree-IsSpentTwice : IsSpentTwice a b c v p q w d
    AreReadyThree-IsSpentTwice = record {
      first_paid = first_paid;
      second_paid = second_paid;
      first_cashed = first_cashed;
      last = last;
      first_spend = first_spend;
      second_spend = second_spend;
      first_back = first_back;
      second_back = second_back;
      first_takings = rw (e'_in, h.first_holds) refl;
      second_takings = rw (f'_in, h.second_holds) refl;
      second_takings_kept = rw (f'_in_cashed, h.second_holds) refl;
      shown = rw mallory_in refl;
      still_shown = rw mallory_last refl;
      float = refl;
      others = untouched;
    }
