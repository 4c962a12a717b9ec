-- ===== src/ShmRing/Geometry.antt =====
-- What `required_size` accepts, and where the slots of an accepted geometry lie in the region.
use Prim.Native.Nat.{bit_and, bit_and-bitwise}
use native.Mathlib.Nat.{le-div_iff_mul-le, pow-suc}
use lci.Base.{
  ℕ, zero, suc, ◌+◌, ◌-◌, ◌*◌, ◌/◌, ◌%◌, ◌^◌, ◌≤◌, ◌≡◌, sym, ap, ◌∙◌, ◌≢◌, true, arith, ℕ_discrete,
  ==→eq,
}
use lci.Base.BitOps.{conjunction, conjunction_self}
use lci.ShmRing.{View, size_max, is_power_of_two, required_size, payload_capacity}
use lci.ShmRing.Invariant.{IsGeometry}

-- A positive number without a bit in common with its predecessor is a power of two.
lone_bit : (fuel a : ℕ) → suc a ≤ fuel → conjunction fuel (suc a) a ≡ 0 → (k : ℕ) × (suc a ≡ 2 ^ k)
lone_bit zero a h e = absurd (omega arith)
lone_bit (suc fuel) a h e = elim (ℕ_discrete (suc a % 2) 1) [
  | yes odd ↦ (
    0,
    omega (
      arith,
      e,
      ap (λ (n : ℕ). conjunction fuel (suc a / 2) n) {x = a / 2} {y = suc a / 2} (omega arith),
      conjunction_self fuel (suc a / 2) (omega arith),
    ),
  )
  | no even ↦ half even (lone_bit fuel (suc a / 2 - 1) (omega arith) (below even))
]
  where
    below : suc a % 2 ≢ 1 → conjunction fuel (suc (suc a / 2 - 1)) (suc a / 2 - 1) ≡ 0
    below even =
        ap (λ (n : ℕ). conjunction fuel n (suc a / 2 - 1)) {x = suc (suc a / 2 - 1)} {y = suc a / 2}
          (omega arith)
        ∙ ap (λ (n : ℕ). conjunction fuel (suc a / 2) n) {x = suc a / 2 - 1} {y = a / 2}
            (omega arith)
        ∙ omega (arith, e)

    half : suc a % 2 ≢ 1 → (k : ℕ) × (suc (suc a / 2 - 1) ≡ 2 ^ k) → (k : ℕ) × (suc a ≡ 2 ^ k)
    half even (k, d) = (suc k, omega (arith, d, pow-suc 2 k))

is_power_of_two_sound : (n : ℕ) → is_power_of_two n ≡ true → (k : ℕ) × (n ≡ 2 ^ k)
unfolding is_power_of_two
is_power_of_two_sound zero e = cc
is_power_of_two_sound (suc n) e = lone_bit (suc n) n (omega arith) (
    sym (bit_and-bitwise (suc n) n)
    ∙ ap (λ (m : ℕ). bit_and (suc n) m) {x = n} {y = suc n - 1} (omega arith)
    ∙ ==→eq (bit_and (suc n) (suc n - 1)) 0 (ground arith))

-- An accepted geometry: the region is as large as the two index lines and all slots together, without
-- overflow of `size_t`; the number of slots is a power of two that a position can count; and a
-- payload fits the 32-bit size field. So a ring over it meets what the other theorems ask of it.
pub required_size-accepts :
    (cache_line : ℕ) (v : View)
    → 2 * cache_line ≤ size_max
    → required_size cache_line v.slot_count v.slot_size ≢ 0
    → (required_size cache_line v.slot_count v.slot_size
        ≡ 2 * cache_line + v.slot_count * v.slot_size)
      × (2 * cache_line + v.slot_count * v.slot_size ≤ size_max)
      × ((k : ℕ) × IsGeometry v k)
unfolding required_size payload_capacity
required_size-accepts cache_line v line h =
    let (k, power) = is_power_of_two_sound v.slot_count (ground arith) in
    (
      ground arith,
      omega (arith, product),
      (k, record { power = power; encodable = ground arith; payload_fits = ground arith }),
    )
  where
    product : v.slot_count * v.slot_size ≤ size_max - 2 * cache_line
    product = (le-div_iff_mul-le {k = v.slot_size} (ground arith)).0 (ground arith)
