-- ===== src/Harness/Kept.antt =====
-- What an operation of src/main.rs never changes: the accounts' names, and the issuer's key.
use digital_euro_wallet.Prelude.{
  ℕ, zero, suc, Option-cases, inl, inr, ◌≡◌, ◌≢◌, ◌∙◌, refl, sym, ap, some, List, [], ◌∷◌, map,
  arith, Bytes, get_elem?, get_elem?-set_ne, set, pair_eq, list_eq, nat_eq,
}
use digital_euro_wallet.HashMap
use digital_euro_wallet.Id.{DeviceId, device_eq}
use digital_euro_wallet.Harness.Ledger.{get_elem?-map}
use digital_euro_wallet.Harness.Sound.{map-set_same}
use digital_euro_wallet.Harness.Untouched.{
  fund-device, fund-nonces, defund-device, defund-nonces, pay-device,
}
use digital_euro_wallet.Crates.{Crates, Rng}
use digital_euro_wallet.Error.{Result}
use digital_euro_wallet.Wallet
use digital_euro_wallet.Wallet.{Wallet}
use digital_euro_wallet.Harness
use digital_euro_wallet.Harness.{World, Operation, perform, pair}
use digital_euro_wallet.Issuer
use digital_euro_wallet.Issuer.{Issuer}
use digital_euro_wallet.Protocol

get_elem?-of_map :
    {S T : Type 0} (f : S → T) (xs : List S) (a : ℕ) (t : T)
    → get_elem? (map f xs) a ≡ some t
    → (s : S) × (get_elem? xs a ≡ some s) × (f s ≡ t)
get_elem?-of_map f [] a t h = absurd (ground (arith, h))
get_elem?-of_map f (x ∷ xs) zero t h = (x, refl, ground (arith, h))
get_elem?-of_map f (x ∷ xs) (suc a) t h = get_elem?-of_map f xs a t h

module _ {R : Type 0} ⦃x : Crates⦄ ⦃g : Rng R⦄ where
  -- No device of the world has the pseudonym.
  abbrev pub IsStranger : DeviceId → World R → Type 0
  IsStranger id w = (a : ℕ) (d : Wallet R) → get_elem? w.devices a ≡ some d → Wallet.device d ≢ id

  pub IsStranger-kept :
      (w w' : World R) (id : DeviceId)
      → map (λ d. Wallet.device d) w'.devices ≡ map (λ d. Wallet.device d) w.devices
      → IsStranger id w
      → IsStranger id w'
  IsStranger-kept w w' id same stranger a d at e =
      let there : get_elem? (map (λ d. Wallet.device d) w.devices) a ≡ some id =
        ap (λ l. get_elem? l a) (sym same)
        ∙ get_elem?-map (λ d. Wallet.device d) w'.devices a d at
        ∙ ap some e in
      let (d', at', e') = get_elem?-of_map (λ d. Wallet.device d) w.devices a id there in
      stranger a d' at' e'

  pub record Keeps (w w' : World R) : Type 0 where
    pub accounts : w'.accounts ≡ w.accounts
    pub keypair : w'.issuer.keypair ≡ w.issuer.keypair
    pub pseudonyms : map (λ d. Wallet.device d) w'.devices ≡ map (λ d. Wallet.device d) w.devices
    pub other_nonces :
        (id : DeviceId) (nonce : Bytes)
        → IsStranger id w
        → HashMap.get (id, nonce) w'.issuer.funding_nonces
          ≡ HashMap.get (id, nonce) w.issuer.funding_nonces

  pair-parts :
      (a b : ℕ) (devices : List (Wallet R)) (d e : Wallet R)
      → pair a b devices ≡ some (d, e)
      → (get_elem? devices a ≡ some d) × (get_elem? devices b ≡ some e) × (a ≢ b)
  unfolding pair
  pair-parts a b devices d e h =
      (ground (arith, h), ground (arith, h), λ same. absurd (ground (arith, h, same)))

  fund-keypair :
      (d : Wallet R) (i : Issuer) (amount : ℕ) → (Protocol.fund d i amount).2.keypair ≡ i.keypair
  unfolding Protocol.fund Issuer.fund
  fund-keypair d i amount = ground arith

  defund-keypair :
      (d : Wallet R) (i : Issuer) (amount : ℕ) → (Protocol.defund d i amount).2.keypair ≡ i.keypair
  unfolding Protocol.defund Issuer.defund
  defund-keypair d i amount = ground arith

  pub perform-Keeps :
      (operation : Operation) (w w' : World R) (result : Result ℕ)
      → perform operation w ≡ some (result, w')
      → Keeps w w'
  unfolding perform
  perform-Keeps (Harness.fund a v) w w' result e = elim (Option-cases (get_elem? w.devices a)) [
    | inl missing ↦ absurd (ground (arith, e, missing))
    | inr (d, at) ↦
        let d' = (Protocol.fund d w.issuer v).1 in
        let issuer : w'.issuer ≡ (Protocol.fund d w.issuer v).2 = ground (arith, e, at) in
        let devices : w'.devices ≡ set a d' w.devices = ground (arith, e, at) in
        record {
          accounts = ground (arith, e, at);
          keypair = rw issuer (fund-keypair d w.issuer v);
          pseudonyms =
              rw devices (
                map-set_same (λ d. Wallet.device d) a d d' w.devices at (fund-device d w.issuer v));
          other_nonces =
              λ id nonce stranger. rw issuer (fund-nonces d w.issuer v id nonce (stranger a d at));
        }
  ]
  perform-Keeps (Harness.defund a v) w w' result e = elim (Option-cases (get_elem? w.devices a)) [
    | inl missing ↦ absurd (ground (arith, e, missing))
    | inr (d, at) ↦
        let d' = (Protocol.defund d w.issuer v).1 in
        let issuer : w'.issuer ≡ (Protocol.defund d w.issuer v).2 = ground (arith, e, at) in
        let devices : w'.devices ≡ set a d' w.devices = ground (arith, e, at) in
        record {
          accounts = ground (arith, e, at);
          keypair = rw issuer (defund-keypair d w.issuer v);
          pseudonyms = rw devices (
              map-set_same (λ d. Wallet.device d) a d d' w.devices at (defund-device d w.issuer v));
          other_nonces = λ id nonce stranger. rw issuer (rw (defund-nonces d w.issuer v) refl);
        }
  ]
  perform-Keeps (Harness.pay a b v) w w' result e = elim (Option-cases (pair a b w.devices)) [
    | inl missing ↦ absurd (ground (arith, e, missing))
    | inr ((payer, payee), at) ↦
        let d' = (Protocol.pay payer payee v).1 in
        let e' = (Protocol.pay payer payee v).2 in
        let (payer_at, payee_at, apart) = pair-parts a b w.devices payer payee at in
        let devices : w'.devices ≡ set b e' (set a d' w.devices) = ground (arith, e, at) in
        let (same_payer, same_payee) = pay-device payer payee v in
        record {
          accounts = ground (arith, e, at);
          keypair = ground (arith, e, at);
          pseudonyms = rw devices (
              map-set_same (λ d. Wallet.device d) b payee e' (set a d' w.devices)
                (get_elem?-set_ne a b d' w.devices apart ∙ payee_at) same_payee
              ∙ map-set_same (λ d. Wallet.device d) a payer d' w.devices payer_at same_payer);
          other_nonces = λ id nonce stranger. ground (arith, e, at);
        }
  ]

  pub Keeps-trans : {w w' w'' : World R} → Keeps w w' → Keeps w' w'' → Keeps w w''
  Keeps-trans {w} {w'} h k = record {
    accounts = k.accounts ∙ h.accounts;
    keypair = k.keypair ∙ h.keypair;
    pseudonyms = k.pseudonyms ∙ h.pseudonyms;
    other_nonces = λ id nonce stranger.
        k.other_nonces id nonce (IsStranger-kept w w' id h.pseudonyms stranger)
        ∙ h.other_nonces id nonce stranger;
  }
