-- ===== src/Base/BitOps.antt =====
-- `x & (2^k - 1)` is `x % 2^k`, for every width, from the digit recursion of the native operation.
use Prim.Native.Nat.{
  ℕ, zero, suc, ◌+◌, ◌-◌, ◌*◌, ◌/◌, ◌%◌, ◌^◌, ◌≤◌, ◌<◌, min, bit_and, digits, bit_and-bitwise,
}
use mathlib.Core.Path.{◌≡◌, refl, sym, ap, ◌∙◌}
use native.Mathlib.Nat.{
  pow-suc, one-mul, mod-eq_of_lt, mod-one, mod-lt, div-add-mod, mul-add-mod_self_left,
}
use native.Mathlib.Decide.{dec_le}
use native.Mathlib.Omega.{arith}

abbrev pub conjunction : ℕ → ℕ → ℕ → ℕ
conjunction fuel a b = digits (λ b. zero) min fuel a b

pub pow-two_pos : (k : ℕ) → 0 < 2 ^ k
pow-two_pos zero = omega arith
pow-two_pos (suc k) = rw (pow-suc 2 k) (omega (arith, pow-two_pos k))

conjunction-zero : (fuel a : ℕ) → a ≤ fuel → conjunction fuel a 0 ≡ 0
conjunction-zero zero a h = refl
conjunction-zero (suc fuel) zero h = refl
conjunction-zero (suc fuel) (suc a) h =
    omega (arith, conjunction-zero fuel (suc a / 2) (omega arith))

-- The last digit of a residue, and the rest of it.
mod-double : (a p : ℕ) → 0 < p → (a / 2 % p) * 2 + a % 2 ≡ a % (p * 2)
mod-double a p h = sym (
    ap (λ n. n % (p * 2)) {x = a} {y = (p * 2) * (a / 2 / p) + (a / 2 % p * 2 + a % 2)}
      (omega (arith, div-add-mod (a / 2) p))
    ∙ mul-add-mod_self_left (p * 2) (a / 2 / p) (a / 2 % p * 2 + a % 2)
    ∙ mod-eq_of_lt (omega (arith, mod-lt (a / 2) h)))

conjunction-mask : (fuel k a : ℕ) → a ≤ fuel → conjunction fuel a (2 ^ k - 1) ≡ a % 2 ^ k
conjunction-mask fuel zero a h = conjunction-zero fuel a h ∙ sym (mod-one a)
conjunction-mask zero (suc k) a h =
    omega (arith, pow-two_pos (suc k), mod-eq_of_lt {n = a} {m = 2 ^ suc k})
conjunction-mask (suc fuel) (suc k) zero h =
    omega (arith, pow-two_pos (suc k), mod-eq_of_lt {n = 0} {m = 2 ^ suc k})
conjunction-mask (suc fuel) (suc k) (suc a) h =
    rw (pow-suc 2 k, halved)
      (omega (
        arith,
        odd,
        conjunction-mask fuel k (suc a / 2) (omega arith),
        mod-double (suc a) (2 ^ k) (pow-two_pos k),
      ))
  where
    halved : (2 ^ k * 2 - 1) / 2 ≡ 2 ^ k - 1
    halved = omega (arith, pow-two_pos k)

    odd : (2 ^ k * 2 - 1) % 2 ≡ 1
    odd = omega (arith, pow-two_pos k)

-- A mask of `k` ones keeps the residue modulo `2^k`.
pub bit_and-mask : (k a : ℕ) → bit_and a (2 ^ k - 1) ≡ a % 2 ^ k
bit_and-mask k a = bit_and-bitwise a (2 ^ k - 1) ∙ conjunction-mask a k a (omega arith)

pub pow-add : (j k : ℕ) → 2 ^ (j + k) ≡ 2 ^ j * 2 ^ k
pow-add zero k = ap (λ n. 2 ^ n) {x = 0 + k} {y = k} (omega arith) ∙ sym (one-mul (2 ^ k))
pow-add (suc j) k =
    ap (λ n. 2 ^ n) {x = suc j + k} {y = suc (j + k)} (omega arith)
    ∙ rw (pow-suc 2 (j + k), pow-suc 2 j, pow-add j k) (omega arith)

-- A power of two that fits in 64 bits divides the modulus of 64-bit arithmetic.
pub power_divides : (k : ℕ) → 2 ^ k < 2 ^ 64 → (q : ℕ) × (2 ^ 64 ≡ 2 ^ k * q)
power_divides k h = elim (dec_le k 64) [
  | yes le ↦
      (2 ^ (64 - k), ap (λ n. 2 ^ n) {x = 64} {y = k + (64 - k)} (omega arith) ∙ pow-add k (64 - k))
  | no gt ↦ absurd (omega (arith, large (omega arith)))
]
  where
    large : 64 ≤ k → 2 ^ 64 ≤ 2 ^ k
    large le =
        rw (ap (λ n. 2 ^ n) {x = k} {y = 64 + (k - 64)} (omega arith) ∙ pow-add 64 (k - 64))
          (omega (arith, pow-two_pos (k - 64)))

-- A number has all its own bits.
pub conjunction_self : (fuel a : ℕ) → a ≤ fuel → conjunction fuel a a ≡ a
conjunction_self zero a h = omega arith
conjunction_self (suc fuel) zero h = refl
conjunction_self (suc fuel) (suc a) h =
    omega (arith, conjunction_self fuel (suc a / 2) (omega arith))
