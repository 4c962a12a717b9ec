-- ===== src/Base/Fields.antt =====
-- Bit fields: how the native bit operations act on a number written as low bits, a field and the
-- rest, for every width and offset.
use Prim.Native.Nat.{
  ℕ, zero, suc, ◌+◌, ◌-◌, ◌*◌, ◌/◌, ◌%◌, ◌^◌, ◌≤◌, ◌<◌, min, max, bit_and, bit_or, digits,
  bit_and-bitwise, bit_or-bitwise,
}
use mathlib.Core.Path.{◌≡◌, refl, ap, ◌∙◌}
use native.Mathlib.Nat.{
  pow-suc, div-div-eq-div-mul, mul-le-mul_left, add-mul-div_left, mul-add-mod_self_left,
  div-eq_of_lt, mod-eq_of_lt,
}
use native.Mathlib.Omega.{arith}
use lci.Base.BitOps.{pow-two_pos, pow-add, bit_and-mask}

module _ (ending : ℕ → ℕ) (digit : ℕ → ℕ → ℕ) where
  -- Any fuel that is not below the first number gives the same digits.
  fuel_irrelevant :
      (j k a b : ℕ) → a ≤ j → a ≤ k → digits ending digit j a b ≡ digits ending digit k a b
  fuel_irrelevant zero zero zero b p q = refl
  fuel_irrelevant zero (suc k) zero b p q = refl
  fuel_irrelevant (suc j) zero zero b p q = refl
  fuel_irrelevant (suc j) (suc k) zero b p q = refl
  fuel_irrelevant zero k (suc a) b p q = absurd (omega arith)
  fuel_irrelevant (suc j) zero (suc a) b p q = absurd (omega arith)
  fuel_irrelevant (suc j) (suc k) (suc a) b p q =
      ap (λ rest. rest * 2 + digit (suc a % 2) (b % 2))
        (fuel_irrelevant j k (suc a / 2) (b / 2) (omega arith) (omega arith))

  digits_halve :
      (a b : ℕ)
      → digits ending digit (suc a) (suc a) b
        ≡ digits ending digit (suc a / 2) (suc a / 2) (b / 2) * 2 + digit (suc a % 2) (b % 2)
  digits_halve a b =
      ap (λ rest. rest * 2 + digit (suc a % 2) (b % 2))
        (fuel_irrelevant a (suc a / 2) (suc a / 2) (b / 2) (omega arith) (omega arith))

pub bit_and_halve : (a b : ℕ) → bit_and a b ≡ bit_and (a / 2) (b / 2) * 2 + min (a % 2) (b % 2)
bit_and_halve zero b = simp bit_and-bitwise (omega arith)
bit_and_halve (suc a) b = simp bit_and-bitwise (digits_halve (λ y. 0) min a b)

pub bit_or_halve : (a b : ℕ) → bit_or a b ≡ bit_or (a / 2) (b / 2) * 2 + max (a % 2) (b % 2)
bit_or_halve zero b = simp bit_or-bitwise (omega arith)
bit_or_halve (suc a) b = simp bit_or-bitwise (digits_halve (λ y. y) max a b)

pub bit_and_zero : (a : ℕ) → bit_and a 0 ≡ 0
bit_and_zero a = bit_and-mask 0 a ∙ omega arith

scaled : (o n : ℕ) → 2 ^ suc o * n ≡ 2 ^ o * n * 2
scaled o n = ap (λ p. p * n) (pow-suc 2 o) ∙ omega arith

-- The conjunction with ones below a field keeps the bits there.
bit_and_above :
    (o l x m : ℕ)
    → l < 2 ^ o
    → bit_and (l + 2 ^ o * x) (2 ^ o - 1 + 2 ^ o * m) ≡ l + 2 ^ o * bit_and x m
bit_and_above zero l x m h =
    ap (λ a. bit_and a (0 + 1 * m)) {x = l + 1 * x} {y = x} (omega arith)
    ∙ ap (λ b. bit_and x b) {x = 0 + 1 * m} {y = m} (omega arith)
    ∙ omega arith
bit_and_above (suc o) l x m h =
    bit_and_halve (l + 2 ^ suc o * x) (2 ^ suc o - 1 + 2 ^ suc o * m)
    ∙ ap (λ a. bit_and a ((2 ^ suc o - 1 + 2 ^ suc o * m) / 2) * 2 + last) halved
    ∙ ap (λ b. bit_and (l / 2 + 2 ^ o * x) b * 2 + last) rest
    ∙ omega
        (arith, scaled o (bit_and x m), ends, bit_and_above o (l / 2) x m (omega (arith, doubled)))
  where
    last : ℕ
    last = min ((l + 2 ^ suc o * x) % 2) ((2 ^ suc o - 1 + 2 ^ suc o * m) % 2)

    doubled : 2 ^ suc o ≡ 2 ^ o * 2
    doubled = pow-suc 2 o

    positive : 0 < 2 ^ o
    positive = pow-two_pos o

    halved : (l + 2 ^ suc o * x) / 2 ≡ l / 2 + 2 ^ o * x
    halved = rw doubled (omega arith)

    rest : (2 ^ suc o - 1 + 2 ^ suc o * m) / 2 ≡ 2 ^ o - 1 + 2 ^ o * m
    rest = rw doubled (omega (arith, positive))

    ends : last ≡ l % 2
    ends = rw doubled (omega (arith, positive))

quotient : (o a : ℕ) → a / 2 / 2 ^ o ≡ a / 2 ^ suc o
quotient o a =
    div-div-eq-div-mul a 2 (2 ^ o)
    ∙ ap (λ p. a / p) {x = 2 * 2 ^ o} {y = 2 ^ suc o} (omega (arith, pow-suc 2 o))

-- The conjunction with a mask that starts above `o` bits clears them.
bit_and_clear : (o a m : ℕ) → bit_and a (2 ^ o * m) ≡ 2 ^ o * bit_and (a / 2 ^ o) m
bit_and_clear zero a m =
    ap (λ b. bit_and a b) {x = 1 * m} {y = m} (omega arith)
    ∙ ap (λ b. bit_and b m) {x = a} {y = a / 1} (omega arith)
    ∙ omega arith
bit_and_clear (suc o) a m =
    bit_and_halve a (2 ^ suc o * m)
    ∙ ap (λ b. bit_and (a / 2) b * 2 + min (a % 2) (2 ^ suc o * m % 2)) halved
    ∙ ap (λ b. bit_and (a / 2) (2 ^ o * m) * 2 + min (a % 2) b) even
    ∙ omega (
      arith,
      bit_and_clear o (a / 2) m,
      ap (λ n. 2 ^ o * bit_and n m) (quotient o a),
      scaled o (bit_and (a / 2 ^ suc o) m),
    )
  where
    halved : 2 ^ suc o * m / 2 ≡ 2 ^ o * m
    halved = omega (arith, scaled o m)

    even : 2 ^ suc o * m % 2 ≡ 0
    even = omega (arith, scaled o m)

or_zero : (fuel a : ℕ) → a ≤ fuel → digits (λ b. b) max fuel a 0 ≡ a
or_zero zero a h = omega arith
or_zero (suc fuel) zero h = refl
or_zero (suc fuel) (suc a) h = omega (arith, or_zero fuel (suc a / 2) (omega arith))

-- The disjunction of a number without low bits and one that has only low bits is their sum.
bit_or_below : (w h v : ℕ) → v < 2 ^ w → bit_or (2 ^ w * h) v ≡ 2 ^ w * h + v
bit_or_below zero h v k =
    ap (λ b. bit_or (1 * h) b) {x = v} {y = 0} (omega arith)
    ∙ bit_or-bitwise (1 * h) 0
    ∙ or_zero (1 * h) (1 * h) (omega arith)
    ∙ omega arith
bit_or_below (suc w) h v k =
    bit_or_halve (2 ^ suc w * h) v
    ∙ ap (λ b. bit_or b (v / 2) * 2 + max (2 ^ suc w * h % 2) (v % 2)) halved
    ∙ omega (arith, even, scaled w h, bit_or_below w h (v / 2) (omega (arith, pow-suc 2 w)))
  where
    halved : 2 ^ suc w * h / 2 ≡ 2 ^ w * h
    halved = omega (arith, scaled w h)

    even : 2 ^ suc w * h % 2 ≡ 0
    even = omega (arith, scaled w h)

-- A disjunction with a number that starts above `o` bits keeps those.
bit_or_above :
    (o l x y : ℕ) → l < 2 ^ o → bit_or (l + 2 ^ o * x) (2 ^ o * y) ≡ l + 2 ^ o * bit_or x y
bit_or_above zero l x y h =
    ap (λ a. bit_or a (1 * y)) {x = l + 1 * x} {y = x} (omega arith)
    ∙ ap (λ b. bit_or x b) {x = 1 * y} {y = y} (omega arith)
    ∙ omega arith
bit_or_above (suc o) l x y h =
    bit_or_halve (l + 2 ^ suc o * x) (2 ^ suc o * y)
    ∙ ap (λ a. bit_or a (2 ^ suc o * y / 2) * 2 + last) halved
    ∙ ap (λ b. bit_or (l / 2 + 2 ^ o * x) b * 2 + last) rest
    ∙ omega (
      arith,
      scaled o (bit_or x y),
      ends,
      bit_or_above o (l / 2) x y (omega (arith, pow-suc 2 o)),
    )
  where
    last : ℕ
    last = max ((l + 2 ^ suc o * x) % 2) (2 ^ suc o * y % 2)

    halved : (l + 2 ^ suc o * x) / 2 ≡ l / 2 + 2 ^ o * x
    halved = omega (arith, scaled o x)

    rest : 2 ^ suc o * y / 2 ≡ 2 ^ o * y
    rest = omega (arith, scaled o y)

    ends : last ≡ l % 2
    ends = omega (arith, scaled o x, scaled o y)

-- The word below `2^k` above a field of `w` bits at offset `o`: with the field it is below the
-- modulus.
pub field_bound : (o w n : ℕ) → n < 2 ^ w → 2 ^ o * n + 2 ^ o ≤ 2 ^ (o + w)
field_bound o w n h =
    rw (pow-add o w) (omega (arith, mul-le-mul_left {m = suc n} {n = 2 ^ w} (2 ^ o) h))

module _ (o w k : ℕ) where
  mask_shifted : ((2 ^ w - 1) * 2 ^ o) % 2 ^ (o + w + k) ≡ (2 ^ w - 1) * 2 ^ o
  mask_shifted = mod-eq_of_lt (
      omega (
        arith,
        field_bound o w (2 ^ w - 1) (omega (arith, pow-two_pos w)),
        field_bound (o + w) k 0 (pow-two_pos k),
        pow-two_pos o,
      ))

  -- The mask that clears a field.
  mask_complement :
      2 ^ (o + w + k) - 1 - ((2 ^ w - 1) * 2 ^ o) % 2 ^ (o + w + k)
      ≡ 2 ^ o - 1 + 2 ^ o * (2 ^ w * (2 ^ k - 1))
  mask_complement =
      rw (mask_shifted, pow-add (o + w) k, pow-add o w)
        (omega (
          arith,
          pow-two_pos o,
          ap (λ n. 2 ^ o * (2 ^ w * n)) {x = 2 ^ k} {y = suc (2 ^ k - 1)}
              (omega (arith, pow-two_pos k)),
          ap (λ n. 2 ^ o * n) {x = 2 ^ w} {y = suc (2 ^ w - 1)} (omega (arith, pow-two_pos w)),
        ))

  -- Clearing a field of `w` bits at offset `o` and setting it to a value that fits changes this
  -- field and nothing else.
  pub clear_and_set :
      (l v h val : ℕ)
      → l < 2 ^ o
      → v < 2 ^ w
      → h < 2 ^ k
      → val < 2 ^ w
      → bit_or
          (bit_and
            (l + 2 ^ o * (v + 2 ^ w * h))
            (2 ^ (o + w + k) - 1 - ((2 ^ w - 1) * 2 ^ o) % 2 ^ (o + w + k)))
          ((bit_and val (2 ^ w - 1) * 2 ^ o) % 2 ^ (o + w + k))
        ≡ l + 2 ^ o * (val + 2 ^ w * h)
  clear_and_set l v h val hl hv hh hval =
      rw
        (
          mask_complement,
          bit_and-mask w val,
          mod-eq_of_lt hval,
          bit_and_above o l (v + 2 ^ w * h) (2 ^ w * (2 ^ k - 1)) hl,
          bit_and_clear w (v + 2 ^ w * h) (2 ^ k - 1),
          add-mul-div_left v h (pow-two_pos w),
          div-eq_of_lt hv,
          bit_and-mask k (0 + h),
          mod-eq_of_lt {n = 0 + h} {m = 2 ^ k} (omega arith),
          mod-eq_of_lt shifted,
        )
        (ap (λ n. bit_or (l + 2 ^ o * (2 ^ w * (0 + h))) n) {x = val * 2 ^ o} {y = 2 ^ o * val}
            (omega arith)
          ∙ bit_or_above o l (2 ^ w * (0 + h)) val hl
          ∙ ap (λ n. l + 2 ^ o * n) (bit_or_below w (0 + h) val hval)
          ∙ omega arith)
    where
      shifted : val * 2 ^ o < 2 ^ (o + w + k)
      shifted =
          omega (
            arith,
            field_bound o w val hval,
            field_bound (o + w) k 0 (pow-two_pos k),
            pow-two_pos o,
          )

-- Shifting down to a field and masking reads it.
pub field_get :
    (o w l v h : ℕ)
    → l < 2 ^ o
    → v < 2 ^ w
    → bit_and ((l + 2 ^ o * (v + 2 ^ w * h)) / 2 ^ o) (2 ^ w - 1) ≡ v
field_get o w l v h hl hv =
    rw
      (
        add-mul-div_left l (v + 2 ^ w * h) (pow-two_pos o),
        div-eq_of_lt hl,
        bit_and-mask w (0 + (v + 2 ^ w * h)),
      )
      (ap (λ n. n % 2 ^ w) {x = 0 + (v + 2 ^ w * h)} {y = 2 ^ w * h + v} (omega arith)
        ∙ mul-add-mod_self_left (2 ^ w) h v
        ∙ mod-eq_of_lt hv)
