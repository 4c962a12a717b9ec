-- ===== src/Collective/Tree/Split.antt =====
-- All ranks together: the ranks are split into segments, each led by the one rank of it that has
-- the data, and every rank of a segment knows its two ends.
use native.Mathlib.Nat.{mod-lt}
use lci.Base.{sym, ap, ◌∙◌, ==→eq, ==_refl, ℕ, ◌+◌, ◌-◌, ◌%◌, ◌≤◌, ◌<◌, ◌≡◌, ◌&&◌, ◌==◌, arith}
use lci.Collective.Ranks.{distance, send_shift, recv_shift, distance_cases, wrap_cases}
use lci.Collective.Tree.{Place, sends, next, start}
use lci.Collective.Tree.Places.{IsPlaced, next-IsPlaced}

pub record IsSplit (n root : ℕ) (f : ℕ → Place) : Type 0 where
  pub placed : (a : ℕ) → a < n → IsPlaced (f a)
  pub left : (a : ℕ) → a < n → (f a).distance_left ≤ distance n root a
  pub right : (a : ℕ) → a < n → distance n root a + (f a).distance_right < n
  pub same :
      (a b : ℕ)
      → a < n
      → b < n
      → distance n root a ≤ distance n root b + (f a).distance_left
      → distance n root b ≤ distance n root a + (f a).distance_right
      → (distance n root b + (f a).distance_left ≡ distance n root a + (f b).distance_left)
        × (distance n root b + (f b).distance_right ≡ distance n root a + (f a).distance_right)

abbrev pub all_next : (ℕ → Place) → ℕ → ℕ → Place
all_next f jump a = next (f a) jump

pub next_left : (p : Place) (jump : ℕ) → (next p jump).distance_left ≤ p.distance_left
unfolding next
next_left p jump = ground arith

next_right : (p : Place) (jump : ℕ) → (next p jump).distance_right ≤ p.distance_right
unfolding next
next_right p jump = ground arith

pub next-IsSplit :
    (n root : ℕ) (f : ℕ → Place) (jump : ℕ)
    → 0 < jump
    → IsSplit n root f
    → IsSplit n root (all_next f jump)
unfolding next
next-IsSplit n root f jump pos s = record {
  placed = λ a h. next-IsPlaced (f a) jump pos (s.placed a h);
  left = λ a h. omega (arith, next_left (f a) jump, s.left a h);
  right = λ a h. omega (arith, next_right (f a) jump, s.right a h);
  same = λ a b ha hb l r. ground (
    arith,
    s.same a b ha hb (omega (arith, next_left (f a) jump)) (omega (arith, next_right (f a) jump)),
  );
}

-- A send of the segment's first rank meets the receive of the rank that the jump reaches.
pub matched_round :
    (n root : ℕ) (f : ℕ → Place) (jump a b : ℕ)
    → root < n
    → 0 < jump
    → a < n
    → b < n
    → IsSplit n root f
    → (sends (f a) jump && ((a + jump) % n == b))
      ≡ (((f b).distance_left == jump) && ((b + n - jump) % n == a))
unfolding sends
matched_round n root f jump a b r pos ha hb s = ground (
  arith,
  (s.placed a ha).flag,
  s.left b hb,
  s.right a ha,
  s.same a b ha hb,
  s.same b a hb ha,
  send_shift n root a b jump r ha hb,
  recv_shift n root a b jump r ha hb pos,
)

-- Where a send goes: the first rank of the right part of its segment, which waits for it.
pub send_lands :
    (n root : ℕ) (f : ℕ → Place) (jump a : ℕ)
    → root < n
    → 0 < jump
    → a < n
    → IsSplit n root f
    → (f a).distance_left ≡ 0
    → jump ≤ (f a).distance_right
    → let b = (a + jump) % n in
      (b < n)
      × (distance n root b ≡ distance n root a + jump)
      × ((b + n - jump) % n ≡ a)
      × ((f b).distance_left ≡ jump)
      × (distance n root b + (f b).distance_right ≡ distance n root a + (f a).distance_right)
send_lands n root f jump a r pos ha s z le =
    let b : ℕ = (a + jump) % n in
    let hb : b < n = mod-lt (a + jump) (omega arith) in
    let far : distance n root b ≡ distance n root a + jump =
      ==→eq (distance n root b) (distance n root a + jump)
        (sym (send_shift n root a b jump r ha hb (omega (arith, s.right a ha))) ∙ ==_refl b) in
    let back : (b + n - jump) % n ≡ a = ==→eq ((b + n - jump) % n) a (
      recv_shift n root a b jump r ha hb pos (omega arith)
      ∙ ap (λ d. distance n root b == d) (sym far)
      ∙ ==_refl (distance n root b)) in
    let ends = s.same a b ha hb (omega arith) (omega arith) in
    (hb, far, back, omega (arith, ends), ends.1)

pub start-IsSplit : (n root : ℕ) → root < n → IsSplit n root (start n root)
start-IsSplit n root r = record {
  placed = λ a h. record { flag = ground (arith, distance_cases n root a r h) };
  left = λ a h. omega arith;
  right = λ a h.
      omega (arith, distance_cases n root a r h, wrap_cases n (root + n - 1 - a) (omega arith));
  same = λ a b ha hb _ _. omega (
    arith,
    distance_cases n root a r ha,
    distance_cases n root b r hb,
    wrap_cases n (root + n - 1 - a) (omega arith),
    wrap_cases n (root + n - 1 - b) (omega arith),
  );
}
