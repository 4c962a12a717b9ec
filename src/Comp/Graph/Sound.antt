-- ===== src/Comp/Graph/Sound.antt =====
-- The invariant of a graph that runs, and the completion of a node.
use lci.Base.{
  ℕ, ◌+◌, ◌≤◌, ◌<◌, ◌≡◌, subst, sym, ◌∙◌, ◌++◌, false, ◌&&◌, if◌then◌else◌, ltb, ◌==◌, arith,
  Bool-cases, inl, inr,
}
use lci.Comp.Graph.{Vertex, graph_end, same, Graph, Status, Execution, count, remove, mark_complete}
use lci.Comp.Graph.Counts.{
  edges_into, edges_into-remove, same_eq, same_sym, count-append, count-removed,
}

-- How often the graph is completed once a number of signals has come to its end.
abbrev pub completions : ℕ → ℕ → ℕ
completions signals expected = if ltb 0 signals && (signals == expected) then 1 else 0

-- Every edge into a vertex that is not complete is counted as a signal, is about to be followed, or
-- leaves a vertex that is not complete either; none leads to a vertex that is complete.
pub record IsSound (g : Graph) (e : Execution) : Type 0 where
  pub expects :
      (v : Vertex)
      → 0 < count v e.unfinished
      → e.signals_received v + count v e.pending + edges_into g.out_edges v e.unfinished
        ≡ g.signals_expected v
  pub over :
      (v : Vertex)
      → count v e.unfinished ≡ 0
      → count v e.pending + edges_into g.out_edges v e.unfinished ≡ 0
  pub once : (v : Vertex) → count v e.unfinished ≤ 1
  pub runs_once : (v : Vertex) → count v e.running ≤ 1
  pub runs_last :
      (v : Vertex)
      → 0 < count v e.running
      → (0 < count v e.unfinished)
        × (e.signals_received v ≡ g.signals_expected v)
        × (same v graph_end ≡ false)
  pub end_stays : 0 < count graph_end e.unfinished
  pub ends_once :
      e.completed ≡ completions (e.signals_received graph_end) (g.signals_expected graph_end)

module _ (g : Graph) (run : Vertex → Status) where
  pub mark_complete-IsSound :
      (v : Vertex) (e : Execution)
      → IsSound g e
      → 0 < count v e.unfinished
      → e.signals_received v ≡ g.signals_expected v
      → same v graph_end ≡ false
      → IsSound g (mark_complete g run v e)
  mark_complete-IsSound v e s waits full inner =
      let moved = λ (w : Vertex). edges_into-remove g.out_edges v w e.unfinished waits in
      let added = λ (w : Vertex). count-append w (g.out_edges v) e.pending in
      let left = λ (w : Vertex). count-removed v w e.unfinished (s.once v) in
      let stopped = λ (w : Vertex). count-removed v w e.running (s.runs_once v) in
      record {
        expects = λ w h. elim (Bool-cases (same w v)) [
          | inl eq ↦ absurd (omega (arith, h, rw eq at (left w)))
          | inr ne ↦
              rw ne
                (omega (arith, moved w, added w, s.expects w (omega (arith, h, rw ne at (left w)))))
        ];
        over = λ w h. elim (Bool-cases (same w v)) [
          | inl eq ↦
              subst
                (λ u.
                  count u (g.out_edges v ++ e.pending)
                    + edges_into g.out_edges u (remove v e.unfinished)
                  ≡ 0)
                (sym (same_eq w v eq)) (omega (arith, moved v, added v, s.expects v waits))
          | inr ne ↦ omega (arith, moved w, added w, s.over w (omega (arith, h, rw ne at (left w))))
        ];
        once = λ w. ground (arith, left w, s.once w);
        runs_once = λ w. ground (arith, stopped w, s.runs_once w);
        runs_last = λ w h. elim (Bool-cases (same w v)) [
          | inl eq ↦ absurd (omega (arith, h, rw eq at (stopped w)))
          | inr ne ↦
              let (in_it, all, is_inner) = s.runs_last w (omega (arith, h, rw ne at (stopped w))) in
              (omega (arith, rw ne at (left w)), rw ne all, is_inner)
        ];
        end_stays =
            omega (arith, s.end_stays, rw (same_sym graph_end v ∙ inner) at (left graph_end));
        ends_once = rw (same_sym graph_end v ∙ inner) s.ends_once;
      }
