-- ===== src/Collective/Barrier.antt =====
-- `barrier_x` of src/collective/barrier.cpp: the rounds of the dissemination barrier on one rank. A
-- round starts when both messages of the round before are done.
use lci.Base.{
  ℕ, zero, suc, ◌+◌, ◌-◌, ◌*◌, ◌%◌, List, [], ◌∷◌, Bool, true, false, if◌then◌else◌, ltb, leb, map,
}
pub mod Dissemination
pub mod Graph
pub mod Matched

-- What a rank posts in a round; behind the last one stands the end of the graph, behind any other
-- a node without an operation.
pub record Round : Type 0 where
  pub rank_to_recv : ℕ
  pub rank_to_send : ℕ
  pub is_last : Bool

abbrev pub round_at : ℕ → ℕ → ℕ → Round
round_at nranks rank jump = record {
  rank_to_recv = (rank + nranks - jump) % nranks;
  rank_to_send = (rank + jump) % nranks;
  is_last = leb nranks (jump * 2);
}

-- The values of `jump`.
unfoldable pub doublings : ℕ → ℕ → ℕ → List ℕ
doublings zero nranks jump = []
doublings (suc fuel) nranks jump =
    let rest = doublings fuel nranks (jump * 2) in if ltb jump nranks then jump ∷ rest else []

unfoldable pub barrier : ℕ → ℕ → List Round
barrier nranks rank = map (round_at nranks rank) (doublings nranks nranks 1)
