-- ===== src/Comp/Graph.antt =====
-- `graph_t` of src/comp/graph.hpp: a node runs when all edges into it have signalled. A node is a
-- number, and the two ends of the graph are the special handles of the code.
pub mod Counts
pub mod Build
pub mod Sound
pub mod Signals
pub mod Safe
use lci.Base.{
  ℕ, ◌+◌, List, [], ◌∷◌, ◌++◌, Bool, true, false, ◌||◌, Option, none, some, if◌then◌else◌, ltb,
  ◌==◌, ◌≡◌, ◌<◌, suc,
}

pub data Vertex : Type 0 where
  graph_start graph_end : Vertex
  node : ℕ → Vertex

abbrev pub same : Vertex → Vertex → Bool
same graph_start graph_start = true
same graph_end graph_end = true
same (node i) (node j) = i == j
same u v = false

-- The graph: its start and its nodes, with what each signals and how many signals each expects.
pub record Graph : Type 0 where
  pub nnodes : ℕ
  pub nodes : List Vertex
  pub out_edges : Vertex → List Vertex
  pub signals_expected : Vertex → ℕ

abbrev pub empty : Graph
empty = record {
  nnodes = 0;
  nodes = graph_start ∷ [];
  out_edges = λ v. [];
  signals_expected = λ v. 0;
}

unfoldable pub add_node : Graph → Graph × Vertex
add_node g = (record g { nnodes = g.nnodes + 1; nodes = node g.nnodes ∷ g.nodes }, node g.nnodes)

abbrev pub change {ℓ} : {A : Type ℓ} → Vertex → A → (Vertex → A) → Vertex → A
change v a f w = if same w v then a else f w

abbrev pub link : Vertex → Vertex → Graph → Graph
link src dst g = record g {
  out_edges = change src (g.out_edges src ++ (dst ∷ [])) g.out_edges;
  signals_expected = change dst (g.signals_expected dst + 1) g.signals_expected;
}

-- The assertions on the two ends fail with `none`.
unfoldable pub add_edge : Vertex → Vertex → Graph → Option Graph
add_edge src dst g =
    if same dst graph_start || same src graph_end then none else some (link src dst g)

-- What the function of a node returns; a node without one is done at once.
pub data Status : Type 0 where
  done posted retry : Status

-- The execution: the signals received, the edges that the loops of `mark_complete` have still to
-- follow, the nodes whose operation is posted, those that are not complete, and how often the graph
-- was completed.
pub record Execution : Type 0 where
  pub signals_received : Vertex → ℕ
  pub pending : List Vertex
  pub running : List Vertex
  pub unfinished : List Vertex
  pub completed : ℕ

abbrev pub remove : Vertex → List Vertex → List Vertex
remove v [] = []
remove v (u ∷ us) = if same u v then us else u ∷ remove v us

abbrev pub count : Vertex → List Vertex → ℕ
count v [] = 0
count v (u ∷ us) = if same u v then suc (count v us) else count v us

module _ (g : Graph) (run : Vertex → Status) where
  abbrev pub mark_complete : Vertex → Execution → Execution
  mark_complete v e = record e {
    signals_received = change v 0 e.signals_received;
    pending = g.out_edges v ++ e.pending;
    running = remove v e.running;
    unfinished = remove v e.unfinished;
  }

  abbrev pub after_run : Status → Vertex → Execution → Option Execution
  after_run done v e = some (mark_complete v e)
  after_run posted v e = some (record e { running = v ∷ e.running })
  after_run retry v e = none

  abbrev pub trigger_node : Vertex → Execution → Option Execution
  trigger_node v e = after_run (run v) v e

  abbrev pub all_received : Vertex → Execution → Option Execution
  all_received graph_end e = some (record e { completed = e.completed + 1 })
  all_received v e = trigger_node v e

  -- One round of the loop over the edges; the assertion on the number of signals fails with `none`.
  unfoldable pub signal_node : Vertex → Execution → Option Execution
  signal_node v e =
      let signals = e.signals_received v + 1 in
      let counted = record e { signals_received = change v signals e.signals_received } in
      if signals == g.signals_expected v
      then all_received v counted
      else if ltb signals (g.signals_expected v)
      then some counted
      else none

  unfoldable pub start : Execution
  start = mark_complete graph_start (record {
    signals_received = λ v. 0;
    pending = [];
    running = [];
    unfinished = graph_end ∷ g.nodes;
    completed = 0;
  })

  -- Any pending edge may be followed next and any posted operation may complete next: the loops of
  -- several threads and the recursion of `trigger_node` follow them in some such order.
  pub data Reaches : Execution → Type 0 where
    started : Reaches start
    followed :
        {e after : Execution} (v : Vertex)
        → Reaches e
        → 0 < count v e.pending
        → signal_node v (record e { pending = remove v e.pending }) ≡ some after
        → Reaches after
    signalled :
        {e : Execution} (v : Vertex)
        → Reaches e
        → 0 < count v e.running
        → Reaches (mark_complete v e)
