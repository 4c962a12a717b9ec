-- ===== src/Collective/Tree.antt =====
-- The binomial tree of `build_graph_tree` (src/collective/broadcast.cpp), which the reduction of
-- src/collective/reduce.cpp computes with the same statements and then replays backwards.
use lci.Base.{
  ℕ, zero, suc, ◌+◌, ◌-◌, ◌/◌, ◌%◌, min, List, [], ◌∷◌, Bool, true, false, ◌&&◌, ◌||◌,
  if◌then◌else◌, leb, ◌==◌, length, get_elem?,
}
use lci.Collective.{Action, idle, send_to, recv_from}
pub mod Places
pub mod Split
pub mod Matched
pub mod Spread

-- The locals of the loop: whether the rank has the data, the distance to the first rank on the
-- left that has it, and the number of ranks on the right that do not.
pub record Place : Type 0 where
  pub has_data : Bool
  pub distance_left : ℕ
  pub distance_right : ℕ

abbrev pub start : ℕ → ℕ → ℕ → Place
start nranks root rank = record {
  has_data = rank == root;
  distance_left = (rank + nranks - root) % nranks;
  distance_right = (root + nranks - 1 - rank) % nranks;
}

-- `std::ceil(jump / 2.0)`
abbrev pub half : ℕ → ℕ
half jump = (jump + 1) / 2

-- The values of `jump`: the loop ends behind the round in which it is 1.
unfoldable pub jumps : ℕ → ℕ → List ℕ
jumps zero jump = []
jumps (suc fuel) jump = let rest = jumps fuel (half jump) in jump ∷ (if jump == 1 then [] else rest)

unfoldable pub sends : Place → ℕ → Bool
sends p jump = p.has_data && leb jump p.distance_right

unfoldable pub action : ℕ → ℕ → Place → ℕ → Action
action nranks rank p jump =
    if sends p jump
    then send_to ((rank + jump) % nranks)
    else if p.distance_left == jump
    then recv_from ((rank + nranks - jump) % nranks)
    else idle

unfoldable pub next : Place → ℕ → Place
next p jump = record {
  has_data = if sends p jump then p.has_data else p.has_data || (p.distance_left == jump);
  distance_left = if leb jump p.distance_left then p.distance_left - jump else p.distance_left;
  distance_right =
      if leb jump p.distance_left
      then p.distance_right
      else min (jump - p.distance_left - 1) p.distance_right;
}

unfoldable pub rounds : ℕ → ℕ → List ℕ → Place → List Action
rounds nranks rank [] p = []
rounds nranks rank (jump ∷ js) p = action nranks rank p jump ∷ rounds nranks rank js (next p jump)

unfoldable pub tree : ℕ → ℕ → ℕ → List Action
tree nranks root rank = rounds nranks rank (jumps nranks (half nranks)) (start nranks root rank)
