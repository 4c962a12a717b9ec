-- ===== src/Comp/Graph/Safe.antt =====
-- Running a graph, in any order: no node runs before what leads to it, and none runs twice.
use mathlib.Core.Option.{some-injective}
use lci.Base.{
  ◌+◌, ◌≤◌, ◌<◌, ◌≡◌, ◌≢◌, ◌⊎◌, refl, subst, sym, ◌∙◌, [], some, if◌then◌else◌, ltb, arith, inl,
  inr, dec_lt,
}
use lci.Comp.Graph.{
  Vertex, graph_start, graph_end, Graph, Status, retry, Execution, count, remove, signal_node,
  start, Reaches, started, followed, signalled,
}
use lci.Comp.Graph.Counts.{edges_into}
use lci.Comp.Graph.Build.{IsBuilt, vertices}
use lci.Comp.Graph.Sound.{IsSound, mark_complete-IsSound}
use lci.Comp.Graph.Signals.{signal-Goes}

module _ (g : Graph) (run : Vertex → Status) where
  start-IsSound : IsBuilt g → IsSound g (start g run)
  unfolding start
  start-IsSound b =
      mark_complete-IsSound g run graph_start
        (record {
          signals_received = λ v. 0;
          pending = [];
          running = [];
          unfinished = vertices g;
          completed = 0;
        })
        (record {
          expects = λ v h. omega (arith, b.counted v);
          over = λ v h. omega (arith, b.counted v, b.known v h);
          once = b.once;
          runs_once = λ v. omega arith;
          runs_last = λ v h. absurd (omega (arith, h));
          end_stays = omega arith;
          ends_once = refl;
        })
        (omega (arith, b.started)) (sym b.first) refl

  Reaches-IsSound :
      {e : Execution} → IsBuilt g → ((v : Vertex) → run v ≢ retry) → Reaches g run e → IsSound g e
  Reaches-IsSound b ok started = start-IsSound b
  Reaches-IsSound b ok (followed {e = e} v r h eq) =
      let (after, same_after, sound) = signal-Goes g run v e (ok v) (Reaches-IsSound b ok r) h in
      subst (IsSound g) (some-injective _ _ (sym same_after ∙ eq)) sound
  Reaches-IsSound b ok (signalled {e = e} v r h) =
      let s = Reaches-IsSound b ok r in
      let (waits, full, inner) = s.runs_last v h in
      mark_complete-IsSound g run v e s waits full inner

  -- In a graph built by the calls of the code, whose operations never ask for a retry, and in
  -- whatever order edges are followed and operations complete, no signal is one too many: following
  -- an edge fails no assertion.
  pub graph_follows :
      {e : Execution} (v : Vertex)
      → IsBuilt g
      → ((v : Vertex) → run v ≢ retry)
      → Reaches g run e
      → 0 < count v e.pending
      → (after : Execution) × (signal_node g run v (record e { pending = remove v e.pending })
          ≡ some after)
  graph_follows {e = e} v b ok r h =
      let (after, same_after, sound) = signal-Goes g run v e (ok v) (Reaches-IsSound b ok r) h in
      (after, same_after)

  -- In a graph built by the calls of the code, whose operations never ask for a retry, and in
  -- whatever order edges are followed and operations complete: when a vertex runs or is complete,
  -- every vertex with an edge to it is complete and every such edge was followed, and it does not run
  -- twice.
  pub graph_ordered :
      {e : Execution} (v : Vertex)
      → IsBuilt g
      → ((v : Vertex) → run v ≢ retry)
      → Reaches g run e
      → (0 < count v e.running) ⊎ (count v e.unfinished ≡ 0)
      → (edges_into g.out_edges v e.unfinished ≡ 0)
        × (count v e.pending ≡ 0)
        × (count v e.running + (if ltb 0 (count v e.unfinished) then 0 else 1) ≤ 1)
  graph_ordered v b ok r (inl h) =
      let s = Reaches-IsSound b ok r in
      let (waits, full, inner) = s.runs_last v h in
      let kept = s.expects v waits in
      (omega (arith, kept), omega (arith, kept), ground (arith, s.runs_once v, waits))
  graph_ordered {e = e} v b ok r (inr h) =
      let s = Reaches-IsSound b ok r in
      let kept = s.over v h in
      let still : count v e.running ≡ 0 = elim (dec_lt 0 (count v e.running)) [
        | yes p ↦ absurd (omega (arith, h, (s.runs_last v p).0))
        | no p ↦ omega arith
      ] in
      (omega (arith, kept), omega (arith, kept), ground (arith, still, h))

  -- In a graph built by the calls of the code, whose operations never ask for a retry, and in
  -- whatever order edges are followed and operations complete: when the graph is completed, it is
  -- so once, its end has all the signals that it expects, and every vertex with an edge to the end is
  -- complete.
  pub graph_completes :
      {e : Execution}
      → IsBuilt g
      → ((v : Vertex) → run v ≢ retry)
      → Reaches g run e
      → 0 < e.completed
      → (e.completed ≡ 1)
        × (e.signals_received graph_end ≡ g.signals_expected graph_end)
        × (edges_into g.out_edges graph_end e.unfinished ≡ 0)
        × (count graph_end e.pending ≡ 0)
  graph_completes {e = e} b ok r h =
      let s = Reaches-IsSound b ok r in
      let kept = s.expects graph_end s.end_stays in
      let all : e.signals_received graph_end ≡ g.signals_expected graph_end =
        ground (arith, h, s.ends_once) in
      (ground (arith, h, s.ends_once), all, omega (arith, kept), omega (arith, kept))
