-- ===== src/Comp/Tests.antt =====
-- A graph of two nodes side by side, and a synchronizer with a threshold of two.
use lci.Base.{
  ℕ, ◌+◌, ◌<◌, ◌≤◌, ◌≡◌, ◌≢◌, refl, inl, [], ◌∷◌, true, Option, some, none, if◌then◌else◌, ltb,
  ◌==◌, ◌&&◌, arith,
}
use lci.Comp.Graph.{
  Vertex, graph_start, graph_end, node, Graph, empty, add_node, add_edge, link, Status, done,
  posted, retry, Execution, count, remove, signal_node, start, Reaches, started, followed,
}
use lci.Comp.Graph.Counts.{edges_into}
use lci.Comp.Graph.Build.{IsBuilt, empty-IsBuilt, add_node-IsBuilt, add_edge-IsBuilt}
use lci.Comp.Graph.Safe.{graph_ordered, graph_completes}
use lci.Collective.Barrier.{barrier, doublings}
use lci.Collective.Barrier.Graph.{barrier_graph, build_rounds, build_round, add_edges}
use lci.Collective.Barrier.Graph.Waits.{barrier_graph-waits}
use lci.Comp.Sync.{Synchronizer, alloc, signal_all, test}
use lci.Comp.Sync.Batch.{Holds, sync_returns}

abbrev two_nodes : Graph
two_nodes = (add_node (add_node empty).0).0

abbrev side_by_side : Graph
side_by_side =
    link (node 1) graph_end
      (link (node 0) graph_end (link graph_start (node 1) (link graph_start (node 0) two_nodes)))

side_by_side-IsBuilt : IsBuilt side_by_side
unfolding add_node add_edge
side_by_side-IsBuilt =
    add_edge-IsBuilt (node 1) graph_end
      (link (node 0) graph_end (link graph_start (node 1) (link graph_start (node 0) two_nodes)))
      side_by_side
      (add_edge-IsBuilt (node 0) graph_end
        (link graph_start (node 1) (link graph_start (node 0) two_nodes))
        (link (node 0) graph_end (link graph_start (node 1) (link graph_start (node 0) two_nodes)))
        (add_edge-IsBuilt graph_start (node 1) (link graph_start (node 0) two_nodes)
          (link graph_start (node 1) (link graph_start (node 0) two_nodes))
          (add_edge-IsBuilt graph_start (node 0) two_nodes (link graph_start (node 0) two_nodes)
            (add_node-IsBuilt (add_node empty).0 (add_node-IsBuilt empty empty-IsBuilt))
            (omega arith) (omega arith) refl)
          (omega arith) (omega arith) refl)
        (omega arith) (omega arith) refl)
      (omega arith) (omega arith) refl

abbrev at_once : Vertex → Status
at_once v = done

abbrev later : Vertex → Status
later v = posted

at_once_ok : (v : Vertex) → at_once v ≢ retry
at_once_ok v e = cc

later_ok : (v : Vertex) → later v ≢ retry
later_ok v e = cc

starts : 0 < count (node 0) (start side_by_side later).pending
unfolding start add_node
starts = omega arith

abbrev get_or_stay : Execution → Option Execution → Execution
get_or_stay e none = e
get_or_stay e (some after) = after

abbrev follow : (Vertex → Status) → Vertex → Execution → Execution
follow run v e =
    get_or_stay e (signal_node side_by_side run v (record e { pending = remove v e.pending }))

-- The first node is posted.
first_posted : Reaches side_by_side later (follow later (node 0) (start side_by_side later))
unfolding start add_node signal_node
first_posted = followed (node 0) started (omega arith) refl

first_runs : 0 < count (node 0) (follow later (node 0) (start side_by_side later)).running
unfolding start add_node signal_node
first_runs = omega arith

graph_ordered_example :
    let e = follow later (node 0) (start side_by_side later) in
    (edges_into side_by_side.out_edges (node 0) e.unfinished ≡ 0)
    × (count (node 0) e.pending ≡ 0)
    × (count (node 0) e.running + (if ltb 0 (count (node 0) e.unfinished) then 0 else 1) ≤ 1)
graph_ordered_example =
    graph_ordered side_by_side later (node 0) side_by_side-IsBuilt later_ok first_posted
      (inl first_runs)

-- Both nodes are done at once, the second one first.
abbrev last_followed : Execution
last_followed = follow at_once graph_end (
    follow at_once graph_end
      (follow at_once (node 0) (follow at_once (node 1) (start side_by_side at_once))))

last_followed-Reaches : Reaches side_by_side at_once last_followed
unfolding start add_node signal_node
last_followed-Reaches =
    followed graph_end
      (followed graph_end
        (followed (node 0) (followed (node 1) started (omega arith) refl) (omega arith) refl)
        (omega arith) refl)
      (omega arith) refl

is_completed : 0 < last_followed.completed
unfolding start add_node signal_node
is_completed = omega arith

graph_completes_example :
    (last_followed.completed ≡ 1)
    × (last_followed.signals_received graph_end ≡ side_by_side.signals_expected graph_end)
    × (edges_into side_by_side.out_edges graph_end last_followed.unfinished ≡ 0)
    × (count graph_end last_followed.pending ≡ 0)
graph_completes_example =
    graph_completes side_by_side at_once side_by_side-IsBuilt at_once_ok last_followed-Reaches
      is_completed

-- It is the graph of a barrier of two ranks.
is_barrier : barrier_graph 2 0 ≡ some side_by_side
unfolding barrier_graph build_rounds build_round add_edges barrier doublings add_node add_edge
is_barrier = refl

barrier_graph-waits_example : count (node 1) last_followed.unfinished ≡ 0
barrier_graph-waits_example =
    barrier_graph-waits 2 0 side_by_side at_once (node 1) (omega arith) is_barrier at_once_ok
      last_followed-Reaches is_completed (unfold add_node in omega arith)

abbrev pair : Synchronizer ℕ
pair = alloc 0 2

pair-Holds : Holds pair []
pair-Holds = record {
  room = omega arith;
  useful = omega arith;
  sized = refl;
  signalled = refl;
  reserved = refl;
  shows = refl;
}

sync_returns_example :
    (full after : Synchronizer ℕ) × (signal_all (7 ∷ 8 ∷ []) pair ≡ some full)
    × (test true full ≡ (after, (if (2 == 2) && true then some (7 ∷ 8 ∷ []) else none)))
    × Holds after (if (2 == 2) && true then [] else 7 ∷ 8 ∷ [])
sync_returns_example = sync_returns pair (7 ∷ 8 ∷ []) true pair-Holds (omega arith)
