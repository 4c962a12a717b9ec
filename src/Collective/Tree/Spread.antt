-- ===== src/Collective/Tree/Spread.antt =====
-- Every rank gets the data once, and passes on only what it has.
use lci.Base.{
  ℕ, zero, suc, ◌*◌, ◌<◌, ◌≤◌, ◌≡◌, Bool, true, false, Option, none, some, List, [], ◌∷◌, arith,
  ◌==◌, Bool-cases, inl, inr, ◌∙◌,
}
use lci.Collective.{Action, idle, send_to, recv_from}
use lci.Collective.Ranks.{distance_cases}
use lci.Collective.Tree.{Place, rounds, tree, jumps, half, start, sends, next, action}
use lci.Collective.Tree.Places.{IsPlaced, next-IsPlaced}
use lci.Collective.Tree.Split.{start-IsSplit}

-- A rank with or without the data works its actions off: whether it has the data in the end, none
-- when it sends without it or receives it again.
abbrev pub spread : Bool → List Action → Option Bool
spread has [] = some has
spread has (idle ∷ actions) = spread has actions
spread true (send_to peer ∷ actions) = spread true actions
spread false (send_to peer ∷ actions) = none
spread true (recv_from peer ∷ actions) = none
spread false (recv_from peer ∷ actions) = spread true actions

spread-action :
    (n rank : ℕ) (p : Place) (jump : ℕ) (actions : List Action)
    → 0 < jump
    → IsPlaced p
    → spread p.has_data (action n rank p jump ∷ actions) ≡ spread (next p jump).has_data actions
unfolding action sends next
spread-action n rank p jump actions pos h = ground (arith, h.flag)

-- Behind a round no rank is farther from the data than the jump.
next_near : (p : Place) (jump : ℕ) → p.distance_left < 2 * jump → (next p jump).distance_left < jump
unfolding next
next_near p jump h = ground arith

rounds-spread :
    (n rank fuel jump : ℕ) (p : Place)
    → 0 < jump
    → jump ≤ fuel
    → IsPlaced p
    → p.distance_left < 2 * jump
    → spread p.has_data (rounds n rank (jumps fuel jump) p) ≡ some true
unfolding rounds jumps
rounds-spread n rank zero jump p pos enough h near = absurd (omega arith)
rounds-spread n rank (suc fuel) jump p pos enough h near =
    let placed = next-IsPlaced p jump pos h in
    let closer = next_near p jump near in
    spread-action n rank p jump _ pos h ∙ elim (Bool-cases (jump == 1)) [
      | inl last ↦ rw last (ground (arith, placed.flag))
      | inr more ↦ rw more (
          rounds-spread n rank fuel (half jump) (next p jump) (ground arith) (ground arith) placed
            (omega arith))
    ]

-- In the binomial tree of a broadcast every rank but the root receives the data exactly once and the
-- root never, no rank sends before it has the data, and all have it in the end.
pub tree-spread :
    (nranks root rank : ℕ)
    → root < nranks
    → rank < nranks
    → spread (rank == root) (tree nranks root rank) ≡ some true
unfolding tree
tree-spread nranks root rank r h =
    rounds-spread nranks rank nranks (half nranks) (start nranks root rank) (omega arith)
      (omega arith) ((start-IsSplit nranks root r).placed rank h)
      (omega (arith, distance_cases nranks root rank r h))
