-- ===== src/Collective/Peers.antt =====
-- The collectives in which ranks exchange messages directly: the loops over the other ranks in
-- `build_graph_direct` of src/collective/broadcast.cpp, in src/collective/alltoall.cpp and in
-- src/collective/gather.cpp.
use lci.Base.{
  ℕ, zero, suc, ◌+◌, ◌-◌, ◌*◌, ◌%◌, List, [], ◌∷◌, ◌++◌, Bool, true, false, if◌then◌else◌, ◌==◌,
  map,
}
use lci.Collective.{Action, send_to, recv_from}
pub mod Counted
pub mod Exchanged

-- The values of the loop variable.
unfoldable pub range : ℕ → ℕ → List ℕ
range zero i = []
range (suc n) i = i ∷ range n (i + 1)

-- `for (int i = 1; i < nranks; ++i)` with the peer `(rank + i) % nranks`.
unfoldable pub peers : ℕ → ℕ → List ℕ
peers nranks rank = map (λ i. (rank + i) % nranks) (range (nranks - 1) 1)

abbrev pub skip : ℕ → List ℕ → List ℕ
skip rank [] = []
skip rank (target ∷ targets) =
    let rest = skip rank targets in if target == rank then rest else target ∷ rest

-- The loop of `alltoall` over all ranks, and that of the root of a direct broadcast, which goes
-- around from itself; both pass over the rank itself.
unfoldable pub others : ℕ → ℕ → List ℕ
others nranks rank = skip rank (range nranks 0)

unfoldable pub around : ℕ → ℕ → List ℕ
around nranks rank = skip rank (map (λ i. (i + rank) % nranks) (range nranks 0))

-- `build_graph_direct` of a broadcast: nothing waits for anything else.
unfoldable pub broadcast_direct : ℕ → ℕ → ℕ → List Action
broadcast_direct nranks root rank =
    if rank == root then map send_to (around nranks rank) else recv_from root ∷ []

-- What `alltoall` posts: a receive and a send for each.
abbrev pub exchange : List ℕ → List Action
exchange [] = []
exchange (peer ∷ rest) = recv_from peer ∷ send_to peer ∷ exchange rest

unfoldable pub alltoall : ℕ → ℕ → List Action
alltoall nranks rank = exchange (others nranks rank)

-- What `allgather` posts, first the receives, with one synchronizer that expects a signal of each.
unfoldable pub allgather : ℕ → ℕ → List Action
allgather nranks rank = map recv_from (peers nranks rank) ++ map send_to (peers nranks rank)

unfoldable pub allgather_threshold : ℕ → ℕ
allgather_threshold nranks = 2 * nranks - 2
