-- ===== src/Collective/Reduce/Segments.antt =====
-- All ranks together, from the leaves of the tree to the root: the first rank of a segment gets the
-- values of the segment, combined from the right to the left.
use lci.Base.{
  ℕ, zero, suc, ◌+◌, ◌*◌, ◌%◌, ◌≤◌, ◌<◌, ◌≡◌, refl, sym, ap, subst, ◌∙◌, List, [], ◌∷◌, some, ◌==◌,
  ==→eq, Bool-cases, inl, inr, arith, dec_le,
}
use lci.Collective.{recv_from}
use lci.Collective.Ranks.{distance, distance_cases, wrap_cases}
use lci.Collective.Tree.{Place, rounds, jumps, half, next}
use lci.Collective.Tree.Places.{
  action-sends, action-receives, action_full, action_away, next_taken, next_zero, next_whole,
  next_kept, next_given,
}
use lci.Collective.Tree.Split.{IsSplit, all_next, next-IsSplit, next_left, send_lands}
use lci.Collective.Reduce.Replay.{source, total}

module _ {ℓ} {V : Type ℓ} (op : V → V → V) where
  -- The values from `s` to `s + k`, the last one leftmost.
  abbrev pub segment : (ℕ → V) → ℕ → ℕ → V
  segment v s zero = v s
  segment v s (suc k) = op (v (s + suc k)) (segment v s k)

  pub segment_join :
      ((x y z : V) → op (op x y) z ≡ op x (op y z))
      → (v : ℕ → V) (s i m : ℕ)
      → op (segment v (s + suc i) m) (segment v s i) ≡ segment v s (m + suc i)
  segment_join assoc v s i zero = ap (segment v s) {x = suc i} {y = 0 + suc i} (omega arith)
  segment_join assoc v s i (suc m) =
      assoc (v (s + suc i + suc m)) (segment v (s + suc i) m) (segment v s i)
      ∙ ap (op (v (s + suc i + suc m))) (segment_join assoc v s i m)
      ∙ ap (λ p. op (v p) (segment v s (m + suc i))) {x = s + suc i + suc m}
          {y = s + suc (m + suc i)} (omega arith)
      ∙ ap (segment v s) {x = suc (m + suc i)} {y = suc m + suc i} (omega arith)

  join_at :
      ((x y z : V) → op (op x y) z ≡ op x (op y z))
      → (v : ℕ → V) (s t k l w : ℕ) → t ≡ s + suc k
      → w ≡ l + suc k
      → op (segment v t l) (segment v s k) ≡ segment v s w
  join_at assoc v s t k l w e q =
      ap (λ t. op (segment v t l) (segment v s k)) e
      ∙ segment_join assoc v s k l
      ∙ ap (segment v s) (sym q)

  module _ (assoc : (x y z : V) → op (op x y) z ≡ op x (op y z)) (n root : ℕ) (in_range : root < n)
      (own : ℕ → V) (inbox : ℕ → ℕ → V) where
    -- The value of the rank at a distance from the root.
    abbrev pub value_at : ℕ → V
    value_at p = own ((p + root) % n)

    own_at : (a : ℕ) → a < n → own a ≡ value_at (distance n root a)
    own_at a h = ap own (
        omega (
          arith,
          distance_cases n root a in_range h,
          wrap_cases n (distance n root a + root)
              (omega (arith, distance_cases n root a in_range h)),
        ))

    -- What a rank receives later than now from another is what that rank has then.
    abbrev pub IsDelivered : List ℕ → (ℕ → Place) → Type ℓ
    IsDelivered js f =
        (c : ℕ)
        → c < n
        → 0 < (f c).distance_left
        → (parent : ℕ) → source (rounds n c js (f c)) ≡ some parent
        → inbox parent c ≡ total op (inbox c) (own c) (rounds n c js (f c))

    IsDelivered-next :
        (jump : ℕ) (js : List ℕ) (f : ℕ → Place)
        → 0 < jump
        → IsSplit n root f
        → IsDelivered (jump ∷ js) f
        → IsDelivered js (all_next f jump)
    unfolding rounds
    IsDelivered-next jump js f pos s d c hc away parent from =
        let still = action_away n c (f c) jump pos (s.placed c hc) away in
        let now = d c hc (omega (arith, next_left (f c) jump)) parent in (rw still at now) from

    abbrev IsTotal : List ℕ → (ℕ → Place) → Type ℓ
    IsTotal js f =
        (a : ℕ)
        → a < n
        → (f a).distance_left ≡ 0
        → total op (inbox a) (own a) (rounds n a js (f a))
          ≡ segment value_at (distance n root a) (f a).distance_right

    IsTotal-round :
        (jump : ℕ) (js : List ℕ) (f : ℕ → Place)
        → 0 < jump
        → IsSplit n root f
        → IsDelivered (jump ∷ js) f
        → IsTotal js (all_next f jump)
        → IsTotal (jump ∷ js) f
    unfolding rounds
    IsTotal-round jump js f pos s d later a ha z = elim (dec_le jump (f a).distance_right) [
      | yes p ↦
          let (hb, far, back, left, ends) = send_lands n root f jump a in_range pos ha s z p in
          let b = (a + jump) % n in
          let answer =
            action-receives n b (f b) jump pos (s.placed b hb) left ∙ ap recv_from back in
          let received = d b hb (omega arith) a (rw answer refl) in
          rw (action-sends n a (f a) jump (s.placed a ha) z p) (
            ap (λ x. op x (total op (inbox a) (own a) (rounds n a js (next (f a) jump))))
              ((rw answer at received) ∙ later b hb (next_taken (f b) jump left))
            ∙ ap (op (segment value_at (distance n root b) (next (f b) jump).distance_right))
                (later a ha (next_zero (f a) jump pos z))
            ∙ join_at assoc value_at (distance n root a) (distance n root b)
                (next (f a) jump).distance_right (next (f b) jump).distance_right
                (f a).distance_right (omega (arith, next_kept (f a) jump pos z p))
                (omega (arith, next_kept (f a) jump pos z p, next_given (f b) jump left)))
      | no p ↦ rw (action_full n a (f a) jump pos z (omega arith)) (
          later a ha (next_zero (f a) jump pos z)
          ∙ ap (segment value_at (distance n root a)) (next_whole (f a) jump pos z (omega arith)))
    ]

    abbrev IsNear : ℕ → (ℕ → Place) → Type 0
    IsNear w f = (a : ℕ) → a < n → (f a).distance_left + (f a).distance_right < w

    IsNear-next :
        (jump : ℕ) (f : ℕ → Place) → 0 < jump → IsNear (2 * jump) f → IsNear jump (all_next f jump)
    unfolding next
    IsNear-next jump f pos near a ha = ground (arith, near a ha)

    -- In the end every segment is one rank.
    IsTotal-end : (f : ℕ → Place) → IsNear 1 f → IsTotal [] f
    unfolding rounds
    IsTotal-end f near a ha z =
        own_at a ha
        ∙ ap (segment value_at (distance n root a)) {x = 0} {y = (f a).distance_right}
            (omega (arith, near a ha))

    pub jumps-IsTotal :
        (fuel jump : ℕ) (f : ℕ → Place)
        → 0 < jump
        → jump ≤ fuel
        → IsSplit n root f
        → IsNear (2 * jump) f
        → IsDelivered (jumps fuel jump) f
        → IsTotal (jumps fuel jump) f
    unfolding jumps
    jumps-IsTotal zero jump f pos enough s near d = absurd (omega arith)
    jumps-IsTotal (suc fuel) jump f pos enough s near d =
        let closer = IsNear-next jump f pos near in
        let split = next-IsSplit n root f jump pos s in
        IsTotal-round jump _ f pos s d (elim (Bool-cases (jump == 1)) [
          | inl last ↦ rw last (
              IsTotal-end (all_next f jump)
                (subst (λ w. IsNear w (all_next f jump)) (==→eq jump 1 last) closer))
          | inr more ↦ rw more (
              jumps-IsTotal fuel (half jump) (all_next f jump) (ground arith) (ground arith) split
                (λ a ha. omega (arith, closer a ha))
                (rw more at (IsDelivered-next jump _ f pos s d)))
        ])
