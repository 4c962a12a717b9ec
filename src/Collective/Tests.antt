-- ===== src/Collective/Tests.antt =====
-- Four ranks reduce and five broadcast, and buffers that split evenly or not.
use native.Mathlib.Nat.{add_assoc}
use lci.Base.{
  ℕ, zero, suc, ◌+◌, ◌-◌, ◌*◌, ◌<◌, ◌≡◌, refl, ap, true, false, none, some, Option, [], ◌∷◌,
  get_elem?, length, leb, arith, ◌==◌, ◌&&◌, not, if◌then◌else◌, ◌%◌,
}
use lci.Collective.{idle, send_to, recv_from, sends_to, receives_from}
use lci.Collective.Tree.{tree, rounds, jumps, action, next, sends}
use lci.Collective.Tree.Matched.{tree_matched}
use lci.Collective.Tree.Spread.{spread, tree-spread}
use lci.Collective.Reduce.{Memory, read, reduce, output, choose_buffers, replay}
use lci.Collective.Reduce.Segments.{segment}
use lci.Collective.Reduce.Result.{reduce_lem}
use lci.Collective.Barrier.{barrier, doublings}
use lci.Comp.Graph.{Graph}
use lci.Comp.Graph.Build.{IsBuilt}
use lci.Collective.Barrier.Graph.{barrier_graph, barrier_graph-IsBuilt}
use lci.Collective.Barrier.Matched.{goes_to, comes_from, barrier_matched}
use lci.Collective.Barrier.Dissemination.{Informs, barrier-Informs}
use lci.Collective.Peers.{broadcast_direct, alltoall, allgather, allgather_threshold}
use lci.Collective.Peers.Counted.{sends_count, receives_count, once}
use lci.Collective.Peers.Exchanged.{broadcast_direct_lem, exchanges_lem}
use lci.Collective.Broadcast.{piece, step_size, ring_step}
use lci.Collective.Broadcast.Ring.{ring_matched}
use lci.Collective.Broadcast.Pieces.{pieces, tiles, pieces-tiles}

-- The root of five ranks sends to three of them; the rank in the middle passes the data on.
tree_runs :
    (tree 5 1 1 ≡ send_to 4 ∷ send_to 3 ∷ send_to 2 ∷ [])
    × (tree 5 1 4 ≡ recv_from 1 ∷ idle ∷ send_to 0 ∷ [])
unfolding tree rounds jumps action next sends
tree_runs = (refl, refl)

tree_matched_example :
    sends_to 4 (get_elem? (tree 5 1 1) 0) ≡ receives_from 1 (get_elem? (tree 5 1 4) 0)
tree_matched_example = tree_matched 5 1 1 4 0 (omega arith) (omega arith) (omega arith)

tree-spread_example : spread (4 == 1) (tree 5 1 4) ≡ some true
tree-spread_example = tree-spread 5 1 4 (omega arith) (omega arith)

-- Rank `a` has `a + 1`.
abbrev memory_of : ℕ → Memory ℕ
memory_of a = record { sendbuf = a + 1; recvbuf = 0; tmp_block = 0; data_block = 0 }

-- Rank 2 adds what rank 3 sends to it.
abbrev inbox_of : ℕ → ℕ → ℕ
inbox_of parent child = if child == 2 then 7 else child + 1

abbrev value_or_zero : Option (ℕ × ℕ) → ℕ
value_or_zero none = 0
value_or_zero (some (parent, value)) = value

delivered :
    (rank parent value : ℕ)
    → rank < 4
    → (reduce ◌+◌ (inbox_of rank) 4 0 rank false (memory_of rank)).sent ≡ some (parent, value)
    → inbox_of parent rank ≡ value
unfolding reduce replay choose_buffers tree rounds jumps action next sends
delivered zero parent value h e = cc
delivered (suc zero) parent value h e = ap value_or_zero e
delivered (suc (suc zero)) parent value h e = ap value_or_zero e
delivered (suc (suc (suc zero))) parent value h e = ap value_or_zero e
delivered (suc (suc (suc (suc rank)))) parent value h e = absurd (omega (arith, h))

reduce_lem_example :
    read (output false) (reduce ◌+◌ (inbox_of 0) 4 0 0 false (memory_of 0)).memory
    ≡ segment ◌+◌ (λ i. (memory_of ((i + 0) % 4)).sendbuf) 0 (4 - 1)
reduce_lem_example =
    reduce_lem ◌+◌ 4 0 (λ rank. false) memory_of inbox_of add_assoc (omega arith) delivered

reduce_runs : read (output false) (reduce ◌+◌ (inbox_of 0) 4 0 0 false (memory_of 0)).memory ≡ 10
unfolding reduce replay choose_buffers tree rounds jumps action next sends
reduce_runs = refl

barrier_runs : length (barrier 5 2) ≡ 3
unfolding barrier doublings
barrier_runs = refl

barrier_matched_example :
    goes_to 1 (get_elem? (barrier 5 4) 1) ≡ comes_from 4 (get_elem? (barrier 5 1) 1)
barrier_matched_example = barrier_matched 5 4 1 1 (omega arith) (omega arith)

barrier-Informs_example : Informs 5 0 1 0
barrier-Informs_example = barrier-Informs 5 1 0 (omega arith) (omega arith)

broadcast_direct_lem_example :
    (sends_count 2 (broadcast_direct 4 1 1) ≡ (if (1 == 1) && not (2 == 1) then 1 else 0))
    × (receives_count 1 (broadcast_direct 4 1 2) ≡ (if (1 == 1) && not (2 == 1) then 1 else 0))
broadcast_direct_lem_example =
    broadcast_direct_lem 4 1 1 2 (omega arith) (omega arith) (omega arith)

exchanges_lem_example :
    (sends_count 2 (alltoall 4 1) ≡ once 1 2)
    × (receives_count 2 (alltoall 4 1) ≡ once 1 2)
    × (sends_count 2 (allgather 4 1) ≡ once 1 2)
    × (receives_count 2 (allgather 4 1) ≡ once 1 2)
    × (length (allgather 4 1) ≡ allgather_threshold 4)
exchanges_lem_example = exchanges_lem 4 1 2 (omega arith) (omega arith)

ring_matched_example :
    ((ring_step 4 0 1 10 3 2).sent ≡ (ring_step 4 0 2 10 3 1).received)
    × ((ring_step 4 0 1 10 3 1).received ≡ (if 1 == 0 then none else some (piece 10 3 1)))
    × ((ring_step 4 0 1 10 3 0).sent ≡ none)
    × ((ring_step 4 0 1 10 3 3).received ≡ none)
ring_matched_example = ring_matched 4 0 1 10 3 1 (omega arith)

pieces-tiles_example : tiles 10 0 (pieces 10 3 3 0) ≡ leb ((3 - 1) * step_size 10 3) 10
pieces-tiles_example = pieces-tiles 10 3 (omega arith) (omega arith)

-- Five bytes in four steps: the last piece has two bytes from the sixth on.
past_the_buffer : (piece 5 4 3).offset + (piece 5 4 3).size ≡ 8
unfolding piece step_size
past_the_buffer = refl

five_ranks_build : (g : Graph) × (barrier_graph 5 2 ≡ some g) × IsBuilt g
five_ranks_build = barrier_graph-IsBuilt 5 2
