-- ===== src/Collective/Barrier/Dissemination.antt =====
-- What a rank enters the barrier with reaches every rank before it leaves.
use native.Mathlib.Nat.{
  add-mod-mod, add-mod_right, mod-add-mod, mod-lt, mod-eq_of_lt, div-add-mod, mul-add, mul_assoc,
  mul-one, mul-zero, mul-suc, one-mul,
}
use lci.Base.{
  ℕ, zero, suc, ◌+◌, ◌-◌, ◌*◌, ◌/◌, ◌%◌, ◌≤◌, ◌<◌, ◌≡◌, sym, ap, subst, ◌∙◌, List, [], ◌∷◌, none,
  some, ltb, map, get_elem?, arith, ℕ_discrete, ◌⊎◌, Bool-cases, inl, inr,
}
use lci.Collective.Barrier.{Round, round_at, doublings, barrier}

-- The message of a round, or that it waits for the round before, carries knowledge on: from rank
-- `a` with the rounds that it has left to rank `b` when it has none left.
pub data Informs (nranks : ℕ) : ℕ → ℕ → ℕ → Type 0 where
  left : {round a : ℕ} → get_elem? (barrier nranks a) round ≡ none → Informs nranks round a a
  wait : {round a b : ℕ} → Informs nranks (suc round) a b → Informs nranks round a b
  send :
      {round a b : ℕ} {r : Round}
      → get_elem? (barrier nranks a) round ≡ some r
      → Informs nranks (suc round) r.rank_to_send b
      → Informs nranks round a b

-- The rounds from a given one on have these jumps.
abbrev Continues : ℕ → ℕ → List ℕ → Type 0
Continues n round js =
    (a i : ℕ) → get_elem? (barrier n a) (round + i) ≡ get_elem? (map (round_at n a) js) i

Continues-next :
    (n round jump : ℕ) (js : List ℕ) → Continues n round (jump ∷ js) → Continues n (suc round) js
Continues-next n round jump js c a i =
    ap (get_elem? (barrier n a)) {x = suc round + i} {y = round + suc i} (omega arith) ∙ c a (suc i)

Continues-here :
    (n round a : ℕ) (js : List ℕ)
    → Continues n round js
    → get_elem? (barrier n a) round ≡ get_elem? (map (round_at n a) js) 0
Continues-here n round a js c =
    ap (get_elem? (barrier n a)) {x = round} {y = round + 0} (omega arith) ∙ c a 0

double : (jump m : ℕ) → jump * m ≡ (jump * 2) * (m / 2) + jump * (m % 2)
double jump m =
    ap (λ k. jump * k) (sym (div-add-mod m 2))
    ∙ mul-add jump (2 * (m / 2)) (m % 2)
    ∙ ap (λ k. k + jump * (m % 2)) (sym (mul_assoc jump 2 (m / 2)))

double_cases :
    (jump m : ℕ) → (jump * m ≡ jump * 2 * (m / 2)) ⊎ (jump * m ≡ jump + jump * 2 * (m / 2))
double_cases jump m = elim (ℕ_discrete (m % 2) 0) [
  | yes even ↦ inl (
      double jump m
      ∙ ap (λ k. jump * 2 * (m / 2) + jump * k) even
      ∙ ap (λ k. jump * 2 * (m / 2) + k) (mul-zero jump)
      ∙ omega arith)
  | no odd ↦ inr (
      double jump m
      ∙ ap (λ k. jump * 2 * (m / 2) + jump * k) {x = m % 2} {y = 1}
          (omega (arith, mod-lt m {m = 2} (omega arith)))
      ∙ ap (λ k. jump * 2 * (m / 2) + k) (mul-one jump)
      ∙ omega arith)
]

beyond : (jump m n : ℕ) → n ≤ jump → jump * m < n → jump * m ≡ 0
beyond jump zero n le lt = mul-zero jump
beyond jump (suc m) n le lt = absurd (omega (arith, mul-suc jump m))

stay : (n a d : ℕ) → a < n → d ≡ 0 → (a + d) % n ≡ a
stay n a d h e = ap (λ k. k % n) {x = a + d} {y = a} (omega arith) ∙ mod-eq_of_lt h

-- The last round is over for a rank that is to inform itself.
informed :
    (n round a d : ℕ) → a < n → d ≡ 0 → Continues n round [] → Informs n round a ((a + d) % n)
informed n round a d h e c =
    subst (λ b. Informs n round a b) (sym (stay n a d h e)) (left (Continues-here n round a [] c))

informs :
    (n fuel jump round m a : ℕ)
    → 0 < jump
    → n ≤ jump + fuel
    → a < n
    → jump * m < n
    → Continues n round (doublings fuel n jump)
    → Informs n round a ((a + jump * m) % n)
unfolding doublings
informs n zero jump round m a pos enough ha lt c =
    informed n round a (jump * m) ha (beyond jump m n (omega arith) lt) c
informs n (suc fuel) jump round m a pos enough ha lt c = elim (Bool-cases (ltb jump n)) [
  | inr over ↦ informed n round a (jump * m) ha (beyond jump m n (ground arith) lt) (rw over at c)
  | inl more ↦
      let c' = rw more at c in
      let rest = Continues-next n round jump _ c' in
      elim (double_cases jump m) [
        | inl even ↦
            subst (λ d. Informs n round a ((a + d) % n)) (sym even)
              (wait (
                informs n fuel (jump * 2) (suc round) (m / 2) a (omega arith) (omega arith) ha
                  (omega arith) rest))
        | inr odd ↦
            subst (λ b. Informs n round a b)
              (mod-add-mod (a + jump) n (jump * 2 * (m / 2))
                ∙ ap (λ k. k % n) {x = a + jump + jump * 2 * (m / 2)} {y = a + jump * m}
                    (omega arith))
              (send {r = round_at n a jump}
                (Continues-here n round a (jump ∷ doublings fuel n (jump * 2)) c')
                (informs n fuel (jump * 2) (suc round) (m / 2) ((a + jump) % n) (omega arith)
                  (omega arith) (mod-lt (a + jump) (omega arith)) (omega arith) rest))
      ]
]

wrapped_rank : (n a b : ℕ) → a < n → b < n → (a + (b + n - a) % n) % n ≡ b
wrapped_rank n a b ha hb =
    add-mod-mod a (b + n - a) n
    ∙ ap (λ k. k % n) {x = a + (b + n - a)} {y = b + n} (omega arith)
    ∙ add-mod_right b n
    ∙ mod-eq_of_lt hb

-- What rank `a` enters the barrier with, every rank `b` has before it leaves: from `a` in the first
-- round, messages and the waiting of the rounds for one another lead to `b` behind its last round.
pub barrier-Informs : (nranks a b : ℕ) → a < nranks → b < nranks → Informs nranks 0 a b
unfolding barrier
barrier-Informs n a b ha hb =
    let d = (b + n - a) % n in
    subst (λ b. Informs n 0 a b) (ap (λ k. (a + k) % n) (one-mul d) ∙ wrapped_rank n a b ha hb)
      (informs n n 1 0 d a (omega arith) (omega arith) ha
        (omega (arith, one-mul d, mod-lt (b + n - a) {m = n} (omega arith)))
        (λ a i. ap (get_elem? (barrier n a)) {x = 0 + i} {y = i} (omega arith)))
