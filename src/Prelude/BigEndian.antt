-- ===== src/Prelude/BigEndian.antt =====
-- The big-endian bytes of an integer determine it.
use Prim.Native.Nat.{ℕ, zero, suc, ◌+◌, ◌*◌, ◌/◌, ◌%◌, ◌^◌, ◌<◌}
use mathlib.Core.Path.{◌≡◌, refl, ap}
use mathlib.Core.List.{[], ◌∷◌}
use native.Mathlib.Nat.{div-div-eq-div-mul, mod-add-div', pow-suc, div-eq_of_lt}
use native.Mathlib.Omega.{arith}
use digital_euro_wallet.Prelude.Lists.{length}
use digital_euro_wallet.Prelude.Words.{Bytes, to_be_bytes}

-- the number that big-endian bytes denote, behind `acc`
from_be : ℕ → Bytes → ℕ
from_be acc [] = acc
from_be acc (b ∷ bs) = from_be (acc * 256 + b) bs

from_be-to_be_bytes :
    (k acc v : ℕ) → from_be acc (to_be_bytes k v) + v / 256 ^ k * 256 ^ k ≡ acc * 256 ^ k + v
unfolding from_be to_be_bytes
from_be-to_be_bytes zero acc v = omega arith
from_be-to_be_bytes (suc k) acc v =
    let q = v / 256 ^ k in
    rw (pow-suc, ← div-div-eq-div-mul)
      (omega (
        arith,
        from_be-to_be_bytes k (acc * 256 + q % 256) v,
        ap (λ (t : ℕ). t * 256 ^ k) (mod-add-div' q 256),
      ))

pub to_be_bytes-injective :
    (k u v : ℕ) → u < 256 ^ k → v < 256 ^ k → to_be_bytes k u ≡ to_be_bytes k v → u ≡ v
to_be_bytes-injective k u v hu hv e = omega (
  arith,
  from_be-to_be_bytes k 0 u,
  from_be-to_be_bytes k 0 v,
  ap (from_be 0) e,
  ap (λ (t : ℕ). t * 256 ^ k) (div-eq_of_lt hu),
  ap (λ (t : ℕ). t * 256 ^ k) (div-eq_of_lt hv),
)

pub length-to_be_bytes : (k v : ℕ) → length (to_be_bytes k v) ≡ k
unfolding to_be_bytes
length-to_be_bytes zero v = refl
length-to_be_bytes (suc k) v = ap suc (length-to_be_bytes k v)
