-- ===== src/Collective/Broadcast.antt =====
-- `broadcast_x` of src/collective/broadcast.cpp: the choice of the algorithm, and the ring, in
-- which the buffer goes around in pieces. Sizes are 64-bit words.
use lci.Base.{
  ℕ, zero, suc, ◌+◌, ◌-◌, ◌*◌, ◌/◌, ◌%◌, ◌^◌, min, List, [], ◌∷◌, Bool, true, false, ◌&&◌, ◌||◌,
  not, if◌then◌else◌, leb, ◌==◌, Option, none, some,
}
pub mod Ring
pub mod Pieces

-- `broadcast_algorithm_t`, whose `none` is `auto` here.
pub data Algorithm : Type 0 where
  auto direct tree ring : Algorithm

unfoldable pub choose_algorithm : Algorithm → ℕ → ℕ → Algorithm
choose_algorithm Algorithm.auto size nranks =
    if leb size 65536
    then (if leb nranks 8 then Algorithm.direct else Algorithm.tree)
    else Algorithm.ring
choose_algorithm algorithm size nranks = algorithm

-- A part of the buffer.
pub record Piece : Type 0 where
  pub offset : ℕ
  pub size : ℕ

unfoldable pub step_size : ℕ → ℕ → ℕ
step_size size nsteps = ((size + nsteps - 1) % 2 ^ 64) / nsteps

-- `size - idx * step_size` wraps around below zero.
unfoldable pub piece : ℕ → ℕ → ℕ → Piece
piece size nsteps idx =
    let start = (idx * step_size size nsteps) % 2 ^ 64 in
    record { offset = start; size = min (step_size size nsteps) ((size + 2 ^ 64 - start) % 2 ^ 64) }

-- What a rank posts in a step: the piece received from the left, and the one sent to the right.
pub record Step : Type 0 where
  pub received : Option Piece
  pub sent : Option Piece

abbrev pub when : Bool → Piece → Option Piece
when b p = if b then some p else none

-- The body of the loop; `continue` posts nothing.
unfoldable pub ring_step : ℕ → ℕ → ℕ → ℕ → ℕ → ℕ → Step
ring_step nranks root rank size nsteps step =
    let right = (rank + 1) % nranks in
    if ((step == 0) && (rank == root)) || ((step == nsteps) && (right == root))
    then record { received = none; sent = none }
    else record {
      received = when (not (step == nsteps) && not (rank == root)) (piece size nsteps step);
      sent = when (not (step == 0) && not (right == root)) (piece size nsteps (step - 1));
    }
