-- ===== src/Wallet/Accounting.antt =====
-- The invariant of a wallet, and its figures without wrap-around.
use digital_euro_wallet.Prelude.{
  ◌+◌, ◌≤◌, ◌<◌, ◌≡◌, arith, u64_modulus, sum_u64, sum_u64-eq-sum, add_u64_exact, list_eq, nat_eq,
}
use digital_euro_wallet.HashMap
use digital_euro_wallet.HashMap.{IsUnique}
use digital_euro_wallet.HashMap.Sums.{total}
use digital_euro_wallet.Wallet.{Wallet, holding_limit, reserved, headroom}

-- What is held and what is promised stay within the holding limit, which is a `u64`.
pub record IsWellFormed {R : Type 0} (w : Wallet R) : Type 0 where
  pub within : w.balance_cents + total w.incoming + total w.pending_funding ≤ holding_limit w
  pub limit_fits : holding_limit w < u64_modulus
  pub incoming_unique : IsUnique w.incoming
  pub pending_unique : IsUnique w.pending_funding

module _ {R : Type 0} (w : Wallet R) (h : IsWellFormed w) where
  -- The sums of `reserved` do not wrap.
  pub reserved-eq-total : reserved w ≡ total w.incoming + total w.pending_funding
  unfolding reserved
  reserved-eq-total = omega (
    arith,
    sum_u64-eq-sum (HashMap.values w.incoming) (omega (arith, h.within, h.limit_fits)),
    sum_u64-eq-sum (HashMap.values w.pending_funding) (omega (arith, h.within, h.limit_fits)),
    add_u64_exact (sum_u64 (HashMap.values w.incoming))
        (sum_u64 (HashMap.values w.pending_funding)),
    h.within,
    h.limit_fits,
  )

  -- The room left is exactly what is neither held nor promised.
  pub headroom-exact : w.balance_cents + reserved w + headroom w ≡ holding_limit w
  unfolding headroom
  headroom-exact = omega (arith, reserved-eq-total, h.within)
