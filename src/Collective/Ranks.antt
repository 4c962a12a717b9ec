-- ===== src/Collective/Ranks.antt =====
-- Ranks modulo their number, and the distance of a rank from the root.
use native.Mathlib.Nat.{mod-eq_of_lt, add-mod_right}
use lci.Base.{ℕ, ◌+◌, ◌-◌, ◌%◌, ◌≤◌, ◌<◌, ◌≡◌, ◌≢◌, ap, ◌∙◌, ◌⊎◌, inl, inr, arith, dec_lt, ◌==◌}

-- The distance to the root on the left.
abbrev pub distance : ℕ → ℕ → ℕ → ℕ
distance n root a = (a + n - root) % n

pub wrap_high : (n x : ℕ) → n ≤ x → x < n + n → x % n ≡ x - n
wrap_high n x h k =
    ap (λ y. y % n) {x = x} {y = x - n + n} (omega arith)
    ∙ add-mod_right (x - n) n
    ∙ mod-eq_of_lt (omega arith)

-- A sum of two ranks is reduced by one subtraction at most.
pub wrap_cases : (n x : ℕ) → x < n + n → ((x < n) × (x % n ≡ x)) ⊎ ((n ≤ x) × (x % n ≡ x - n))
wrap_cases n x h = elim (dec_lt x n) [
  | yes p ↦ inl (p, mod-eq_of_lt p)
  | no p ↦ inr (omega arith, wrap_high n x (omega arith) h)
]

-- The distance, by the side of the root on which the rank lies.
pub distance_cases :
    (n root a : ℕ)
    → root < n
    → a < n
    → ((root ≤ a) × (distance n root a ≡ a - root))
      ⊎ ((a < root) × (distance n root a ≡ a + n - root))
distance_cases n root a r h = elim (wrap_cases n (a + n - root) (omega arith)) [
  | inl (lt, e) ↦ inr (omega arith, e)
  | inr (le, e) ↦ inl (omega arith, e ∙ omega arith)
]

-- Going right by `jump` is adding it to the distance, as long as the root is not passed.
pub send_shift :
    (n root a b jump : ℕ)
    → root < n
    → a < n
    → b < n
    → distance n root a + jump < n
    → ((a + jump) % n == b) ≡ (distance n root b == distance n root a + jump)
send_shift n root a b jump r ha hb h = ground (
  arith,
  distance_cases n root a r ha,
  distance_cases n root b r hb,
  wrap_cases n (a + jump) (omega arith),
)

pub recv_shift :
    (n root a b jump : ℕ)
    → root < n
    → a < n
    → b < n
    → 0 < jump
    → jump ≤ distance n root b
    → ((b + n - jump) % n == a) ≡ (distance n root b == distance n root a + jump)
recv_shift n root a b jump r ha hb pos h = ground (
  arith,
  distance_cases n root a r ha,
  distance_cases n root b r hb,
  wrap_cases n (b + n - jump) (omega arith),
)

-- What lies to the left of a rank and to its right are all other ranks.
pub distances_sum :
    (n root a : ℕ) → root < n → a < n → distance n root a + (root + n - 1 - a) % n ≡ n - 1
distances_sum n root a r h =
    omega (arith, distance_cases n root a r h, wrap_cases n (root + n - 1 - a) (omega arith))

pub distance_self : (n root : ℕ) → root < n → distance n root root ≡ 0
distance_self n root r = omega (arith, distance_cases n root root r r)

pub distance_ne : (n root a : ℕ) → root < n → 0 < distance n root a → a ≢ root
distance_ne n root a r away e = omega (arith, distance_self n root r, ap (distance n root) e)
