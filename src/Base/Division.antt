-- ===== src/Base/Division.antt =====
-- Residues: two positions of one window with the same residue are the same position.
use Prim.Native.Nat.{ℕ, suc, ◌+◌, ◌*◌, ◌/◌, ◌%◌, ◌≤◌, ◌<◌}
use mathlib.Core.Path.{◌≡◌}
use native.Mathlib.Decide.{dec_le}
use native.Mathlib.Nat.{div-add-mod, mul-le-mul_left}
use native.Mathlib.Omega.{arith}

-- Two numbers with one residue that lie less than a period apart are equal.
pub mod-injective : (n a b : ℕ) → a % n ≡ b % n → a ≤ b → b < a + n → a ≡ b
mod-injective n a b e h k = elim (dec_le (b / n) (a / n)) [
  | yes p ↦ omega (arith, div-add-mod a n, div-add-mod b n, mul-le-mul_left n p)
  | no p ↦ absurd (omega (arith, div-add-mod a n, div-add-mod b n, scaled (omega arith)))
]
  where
    scaled : suc (a / n) ≤ b / n → n * suc (a / n) ≤ n * (b / n)
    scaled q = mul-le-mul_left n q
