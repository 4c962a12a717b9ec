-- ===== src/Collective/Tree/Matched.antt =====
-- Whatever a rank sends in a round of the tree, its peer receives in the same round.
use lci.Base.{ℕ, zero, suc, ◌<◌, ◌≡◌, refl, List, [], ◌∷◌, ◌∙◌, sym, arith, get_elem?}
use lci.Collective.{sends_to, receives_from}
use lci.Collective.Tree.{Place, rounds, tree, jumps, half, start}
use lci.Collective.Tree.Places.{sends_to-action, receives_from-action}
use lci.Collective.Tree.Split.{IsSplit, all_next, next-IsSplit, matched_round, start-IsSplit}

-- Every jump is by one rank at least.
abbrev pub IsForward : List ℕ → Type 0
IsForward [] = Unit {0}
IsForward (jump ∷ js) = (0 < jump) × IsForward js

pub jumps-IsForward : (fuel jump : ℕ) → 0 < jump → IsForward (jumps fuel jump)
unfolding jumps
jumps-IsForward zero jump pos = tt
jumps-IsForward (suc fuel) jump pos = ground (arith, jumps-IsForward fuel (half jump))

rounds_matched :
    (n root : ℕ) (js : List ℕ) (f : ℕ → Place) (a b round : ℕ)
    → root < n
    → a < n
    → b < n
    → IsForward js
    → IsSplit n root f
    → sends_to b (get_elem? (rounds n a js (f a)) round)
      ≡ receives_from a (get_elem? (rounds n b js (f b)) round)
unfolding rounds
rounds_matched n root [] f a b round r ha hb fw s = refl
rounds_matched n root (jump ∷ js) f a b zero r ha hb fw s =
    sends_to-action n a b (f a) jump
    ∙ matched_round n root f jump a b r fw.0 ha hb s
    ∙ sym (receives_from-action n b a (f b) jump fw.0 (s.placed b hb))
rounds_matched n root (jump ∷ js) f a b (suc round) r ha hb fw s =
    rounds_matched n root js (all_next f jump) a b round r ha hb fw.1
      (next-IsSplit n root f jump fw.0 s)

-- In every round of the binomial tree of a broadcast and for any two ranks, the first sends to the
-- second exactly when the second receives from the first.
pub tree_matched :
    (nranks root a b round : ℕ)
    → root < nranks
    → a < nranks
    → b < nranks
    → sends_to b (get_elem? (tree nranks root a) round)
      ≡ receives_from a (get_elem? (tree nranks root b) round)
unfolding tree
tree_matched nranks root a b round r ha hb =
    rounds_matched nranks root (jumps nranks (half nranks)) (start nranks root) a b round r ha hb
      (jumps-IsForward nranks (half nranks) (omega arith)) (start-IsSplit nranks root r)
