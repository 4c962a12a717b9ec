-- ===== src/Collective/Barrier/Matched.antt =====
-- Whatever a rank sends in a round of the barrier, its peer receives in the same round.
use lci.Base.{
  ℕ, zero, suc, ◌+◌, ◌-◌, ◌*◌, ◌%◌, ◌<◌, ◌≡◌, refl, List, [], ◌∷◌, Option, none, some, Bool, false,
  ltb, ◌==◌, map, get_elem?, arith, Bool-cases, inl, inr,
}
use lci.Collective.Ranks.{wrap_cases}
use lci.Collective.Barrier.{Round, round_at, doublings, barrier}

-- Whether a round has the send to a rank, or the receive from it.
abbrev pub goes_to : ℕ → Option Round → Bool
goes_to b none = false
goes_to b (some r) = r.rank_to_send == b

abbrev pub comes_from : ℕ → Option Round → Bool
comes_from a none = false
comes_from a (some r) = r.rank_to_recv == a

-- Every jump is from one rank to another.
abbrev IsShort : ℕ → List ℕ → Type 0
IsShort n [] = Unit {0}
IsShort n (jump ∷ js) = (0 < jump) × (jump < n) × IsShort n js

doublings-IsShort : (fuel n jump : ℕ) → 0 < jump → IsShort n (doublings fuel n jump)
unfolding doublings
doublings-IsShort zero n jump pos = tt
doublings-IsShort (suc fuel) n jump pos = elim (Bool-cases (ltb jump n)) [
  | inl more ↦ rw more (pos, ground arith, doublings-IsShort fuel n (jump * 2) (omega arith))
  | inr over ↦ rw over tt
]

opposite_ranks :
    (n a b jump : ℕ) → a < n → b < n → jump < n → ((a + jump) % n == b) ≡ ((b + n - jump) % n == a)
opposite_ranks n a b jump ha hb lt =
    ground (arith, wrap_cases n (a + jump) (omega arith), wrap_cases n (b + n - jump) (omega arith))

rounds_matched :
    (n a b round : ℕ) (js : List ℕ)
    → a < n
    → b < n
    → IsShort n js
    → goes_to b (get_elem? (map (round_at n a) js) round)
      ≡ comes_from a (get_elem? (map (round_at n b) js) round)
rounds_matched n a b round [] ha hb s = refl
rounds_matched n a b zero (jump ∷ js) ha hb s = opposite_ranks n a b jump ha hb s.1
rounds_matched n a b (suc round) (jump ∷ js) ha hb s = rounds_matched n a b round js ha hb s.2

-- In every round of the barrier and for any two ranks, the first sends to the second exactly when
-- the second receives from the first.
pub barrier_matched :
    (nranks a b round : ℕ)
    → a < nranks
    → b < nranks
    → goes_to b (get_elem? (barrier nranks a) round)
      ≡ comes_from a (get_elem? (barrier nranks b) round)
unfolding barrier
barrier_matched n a b round ha hb =
    rounds_matched n a b round (doublings n n 1) ha hb (doublings-IsShort n n 1 (omega arith))
