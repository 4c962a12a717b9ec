-- ===== src/Collective/Barrier/Graph/Waits.antt =====
-- What the completion of a barrier's graph says of its messages: all of them are complete.
use mathlib.Core.Bool.{false≢true}
use mathlib.Core.Option.{some-injective}
use lci.Base.{
  ℕ, zero, suc, ◌+◌, ◌*◌, ◌≤◌, ◌<◌, ◌≡◌, refl, ◌≢◌, ap, subst, sym, ◌∙◌, List, [], ◌∷◌, Bool, true,
  false, some, ltb, leb→le, map, arith, Bool-cases, inl, inr, ◌⊎◌,
}
use lci.Collective.Barrier.{Round, round_at, doublings, barrier}
use lci.Collective.Barrier.Graph.{
  dummy_of, add_edges, build_round, build_rounds, rounds_after, doublings_over, barrier_graph,
  barrier_graph-IsBuilt,
}
use lci.Comp.Graph.{
  Vertex, graph_start, graph_end, same, Graph, empty, add_node, count, Status, retry, Execution,
  Reaches,
}
use lci.Comp.Graph.Build.{IsBuilt}
use lci.Comp.Graph.Counts.{edges_into, same_eq}
use lci.Comp.Graph.Safe.{graph_ordered, graph_completes}
use lci.Collective.Barrier.Graph.Leads.{
  Leads, here, along, links, add_edges_eq, AllLead, new_or_old, messages-AllLead,
}

round_by :
    (is_last : Bool) (o : Vertex) (g : Graph)
    → same o graph_end ≡ false
    → AllLead g o
    → let g' = (dummy_of is_last g).0 in
      let d = (dummy_of is_last g).1 in
      (after : Graph) × (add_edges o
          (add_node g').1
          (add_node (add_node g').0).1
          d
          (add_node (add_node g').0).0
        ≡ some after)
      × AllLead after d
      × (same d graph_end ≡ is_last)
round_by true o g oe lead = (
  links o (add_node g).1 (add_node (add_node g).0).1 graph_end (add_node (add_node g).0).0,
  unfold add_node in add_edges_eq o _ _ graph_end _ oe refl refl refl refl refl,
  messages-AllLead o graph_end g (λ v h. inl (unfold AllLead in lead v h)),
  refl,
)
round_by false o g oe lead = (
  links o (add_node g').1 (add_node (add_node g').0).1 d (add_node (add_node g').0).0,
  unfold add_node in add_edges_eq o _ _ d _ oe refl refl refl refl refl,
  messages-AllLead o d g' old,
  unfold add_node in refl,
)
  where
    g' : Graph
    g' = (add_node g).0

    d : Vertex
    d = (add_node g).1

    old : (v : Vertex) → 0 < count v g'.nodes → Leads g' v o ⊎ (v ≡ d)
    old v h = new_or_old g o v lead h

round-AllLead :
    (r : Round) (o : Vertex) (g : Graph)
    → same o graph_end ≡ false
    → AllLead g o
    → (after : Graph) × ((build_round r o g).0 ≡ some after)
      × AllLead after (build_round r o g).1
      × (same (build_round r o g).1 graph_end ≡ r.is_last)
unfolding build_round
round-AllLead r o g oe lead = round_by r.is_last o g oe lead

rounds-AllLead :
    (fuel n rank jump : ℕ) (o : Vertex) (g : Graph)
    → same o graph_end ≡ false
    → AllLead g o
    → 0 < jump
    → jump < n
    → n ≤ fuel + jump
    → (all : Graph) × (build_rounds (map (round_at n rank) (doublings fuel n jump)) o g ≡ some all)
      × AllLead all graph_end
unfolding build_rounds doublings
rounds-AllLead zero n rank jump o g oe lead pos more enough = absurd (omega arith)
rounds-AllLead (suc fuel) n rank jump o g oe lead pos more enough =
    let r = round_at n rank jump in
    let rest = map (round_at n rank) (doublings fuel n (jump * 2)) in
    let (after, e, lead', last) = round-AllLead r o g oe lead in
    let unrolled = rounds_after r rest o g after e in
    let inside : ltb jump n ≡ true = ground arith in
    elim (Bool-cases r.is_last) [
      | inl ends ↦ rw inside (
        after,
        unrolled
            ∙ ap (λ js. build_rounds (map (round_at n rank) js) (build_round r o g).1 after)
                (doublings_over fuel n (jump * 2) (leb→le n (jump * 2) ends)),
        subst (AllLead after) (same_eq (build_round r o g).1 graph_end (last ∙ ends)) lead',
      )
      | inr goes ↦
          let (all, e', led) =
            rounds-AllLead fuel n rank (jump * 2) (build_round r o g).1 after (last ∙ goes) lead'
              (omega arith) (ground (arith, goes)) (omega arith) in
          rw inside (all, unrolled ∙ e', led)
    ]

-- No vertex of a list has an edge to `v`.
no_edges :
    (out : Vertex → List Vertex) (u v : Vertex) (us : List Vertex)
    → edges_into out v us ≡ 0
    → 0 < count v (out u)
    → count u us ≡ 0
no_edges out u v [] h edge = refl
no_edges out u v (w ∷ us) h edge = elim (Bool-cases (same w u)) [
  | inl e ↦ absurd (omega (arith, h, edge, ap (λ x. count v (out x)) (same_eq w u e)))
  | inr e ↦ rw e (no_edges out u v us (omega (arith, h)) edge)
]

module _ (g : Graph) (run : Vertex → Status) {e : Execution} (b : IsBuilt g)
    (ok : (v : Vertex) → run v ≢ retry) (r : Reaches g run e) (completed : 0 < e.completed) where
  complete_before :
      {u w : Vertex}
      → Leads g u w
      → w ≡ graph_end
      → same u graph_end ≡ false
      → count u e.unfinished ≡ 0
  complete_before here ends other =
      absurd (false≢true (sym other ∙ ap (λ x. same x graph_end) ends))
  complete_before (along {u = u} {v = v} edge l) ends other = elim (Bool-cases (same v graph_end)) [
    | inl is ↦
        no_edges g.out_edges u graph_end e.unfinished (graph_completes g run b ok r completed).2
          (subst (λ x. 0 < count x (g.out_edges u)) (same_eq v graph_end is) edge)
    | inr not_end ↦
        no_edges g.out_edges u v e.unfinished
          (graph_ordered g run v b ok r (inr (complete_before l ends not_end))).0 edge
  ]

start_leads : AllLead empty graph_start
unfolding AllLead
start_leads v h = elim (Bool-cases (same graph_start v)) [
  | inl e ↦ subst (λ u. Leads empty u graph_start) (same_eq graph_start v e) here
  | inr e ↦ absurd (omega (arith, rw e at h))
]

not_the_end : (g : Graph) (v : Vertex) → IsBuilt g → 0 < count v g.nodes → same v graph_end ≡ false
not_the_end g v b h = elim (Bool-cases (same v graph_end)) [
  | inl e ↦
      absurd (omega (arith, h, b.once graph_end, ap (λ x. count x g.nodes) (same_eq v graph_end e)))
  | inr e ↦ e
]

-- In the graph that one of at least two ranks builds for a barrier, whose operations never ask for a
-- retry, and in whatever order edges are followed and operations complete: when the graph is
-- completed, every node that was added to it is complete, in whichever round its message stands.
pub barrier_graph-waits :
    (nranks rank : ℕ) (g : Graph) (run : Vertex → Status) {e : Execution} (v : Vertex)
    → 2 ≤ nranks
    → barrier_graph nranks rank ≡ some g
    → ((v : Vertex) → run v ≢ retry)
    → Reaches g run e
    → 0 < e.completed
    → 0 < count v g.nodes
    → count v e.unfinished ≡ 0
unfolding barrier_graph barrier
barrier_graph-waits n rank g run v two built ok r completed inside =
    let (all, runs, led) =
      rounds-AllLead n n rank 1 graph_start empty refl start_leads (omega arith) (omega arith)
        (omega arith) in
    let (g', runs', b') = barrier_graph-IsBuilt n rank in
    let b = subst IsBuilt (some-injective _ _ (sym runs' ∙ built)) b' in
    let leads = subst (λ h. AllLead h graph_end) (some-injective _ _ (sym runs ∙ built)) led in
    complete_before g run b ok r completed {u = v} {w = graph_end}
      (unfold AllLead in leads v inside) refl (not_the_end g v b inside)
