-- ===== src/Collective/Barrier/Graph.antt =====
-- The graph that the loop of `barrier_x::call_impl` builds, with a node for each message.
pub mod Leads
pub mod Waits
use lci.Base.{
  ℕ, zero, suc, ◌*◌, ◌≤◌, ◌<◌, ◌≡◌, refl, ap, subst, sym, ◌∙◌, List, [], ◌∷◌, Bool, true, false,
  Option, none, some, ltb, leb→le, map, arith, Bool-cases, inl, inr, ==_refl,
}
use lci.Collective.Barrier.{Round, round_at, doublings, barrier}
use lci.Comp.Graph.{
  Vertex, graph_start, graph_end, same, Graph, empty, add_node, add_edge, link, count,
}
use lci.Comp.Graph.Build.{IsBuilt, vertices, empty-IsBuilt, add_node-IsBuilt, link-IsBuilt}

abbrev pub and_then : Option Graph → (Graph → Option Graph) → Option Graph
and_then none f = none
and_then (some g) f = f g

-- The four edges of a round.
unfoldable pub add_edges : Vertex → Vertex → Vertex → Vertex → Graph → Option Graph
add_edges old_node recv_node send_node dummy_node g = and_then (add_edge old_node recv_node g) (λ a.
    and_then (add_edge old_node send_node a)
      (λ b. and_then (add_edge recv_node dummy_node b) (λ c. add_edge send_node dummy_node c)))

-- The node behind a round.
abbrev pub dummy_of : Bool → Graph → Graph × Vertex
dummy_of true g = (g, graph_end)
dummy_of false g = add_node g

-- The body of the loop: the graph and the node that the next round waits for.
unfoldable pub build_round : Round → Vertex → Graph → Option Graph × Vertex
build_round r old_node g =
    let with_dummy = dummy_of r.is_last g in
    let with_recv = add_node with_dummy.0 in
    let with_send = add_node with_recv.0 in
    (add_edges old_node with_recv.1 with_send.1 with_dummy.1 with_send.0, with_dummy.1)

unfoldable pub build_rounds : List Round → Vertex → Graph → Option Graph
build_rounds [] old_node g = some g
build_rounds (r ∷ rounds) old_node g =
    let built = build_round r old_node g in
    elim built.0 [ none ↦ none | some after ↦ build_rounds rounds built.1 after ]

unfoldable pub barrier_graph : ℕ → ℕ → Option Graph
barrier_graph nranks rank = build_rounds (barrier nranks rank) graph_start empty

pub add_edge_eq :
    (src dst : Vertex) (g : Graph)
    → same dst graph_start ≡ false
    → same src graph_end ≡ false
    → add_edge src dst g ≡ some (link src dst g)
unfolding add_edge
add_edge_eq src dst g d s = rw (d, s) refl

-- A node of the graph that is not its end, from which edges may lead.
abbrev IsSource : Graph → Vertex → Type 0
IsSource g v = (0 < count v (vertices g)) × (same v graph_end ≡ false)

abbrev IsTarget : Graph → Vertex → Type 0
IsTarget g v = (0 < count v (vertices g)) × (same v graph_start ≡ false)

add_edges-IsBuilt :
    (old_node recv_node send_node dummy_node : Vertex) (g : Graph)
    → IsBuilt g
    → IsSource g old_node
    → IsSource g recv_node
    → IsSource g send_node
    → IsTarget g recv_node
    → IsTarget g send_node
    → IsTarget g dummy_node
    → (after : Graph) × (add_edges old_node recv_node send_node dummy_node g ≡ some after)
      × IsBuilt after
      × (after.nodes ≡ g.nodes)
unfolding add_edges
add_edges-IsBuilt o r s d g b ho hr hs tr ts td =
    let g1 = link o r g in
    let g2 = link o s g1 in
    let g3 = link r d g2 in
    let b1 = link-IsBuilt o r g b ho.0 tr.0 tr.1 ho.1 in
    let b2 = link-IsBuilt o s g1 b1 ho.0 ts.0 ts.1 ho.1 in
    let b3 = link-IsBuilt r d g2 b2 hr.0 td.0 td.1 hr.1 in
    (
      link s d g3,
      ap
            (λ x. and_then x (λ a.
              and_then (add_edge o s a) (λ b. and_then (add_edge r d b) (λ c. add_edge s d c))))
            (add_edge_eq o r g tr.1 ho.1)
          ∙ ap (λ x. and_then x (λ b. and_then (add_edge r d b) (λ c. add_edge s d c)))
              (add_edge_eq o s g1 ts.1 ho.1)
          ∙ ap (λ x. and_then x (λ c. add_edge s d c)) (add_edge_eq r d g2 td.1 hr.1)
          ∙ add_edge_eq s d g3 td.1 hs.1,
      link-IsBuilt s d g3 b3 hs.0 td.0 td.1 hs.1,
      refl,
    )

add_node_keeps :
    (v : Vertex) (g : Graph) → 0 < count v (vertices g) → 0 < count v (vertices (add_node g).0)
unfolding add_node
add_node_keeps v g h = ground arith

add_node-IsSource :
    (g : Graph) → IsSource (add_node g).0 (add_node g).1 × IsTarget (add_node g).0 (add_node g).1
unfolding add_node
add_node-IsSource g =
    ((ground (arith, ==_refl g.nnodes), refl), (ground (arith, ==_refl g.nnodes), refl))

messages-IsBuilt :
    (old_node dummy_node : Vertex) (g : Graph)
    → IsBuilt g
    → IsSource g old_node
    → IsTarget g dummy_node
    → let h = (add_node g).0 in
      (after : Graph) × (add_edges old_node (add_node g).1 (add_node h).1 dummy_node (add_node h).0
        ≡ some after)
      × IsBuilt after
      × (0 < count dummy_node (vertices after))
messages-IsBuilt o d g b s t =
    let h = (add_node g).0 in
    let k = (add_node h).0 in
    let recv_node = (add_node g).1 in
    let recv = add_node-IsSource g in
    let send = add_node-IsSource h in
    let d_in = add_node_keeps d h (add_node_keeps d g t.0) in
    let recv_in = add_node_keeps recv_node h recv.0.0 in
    let (after, e, built, same_nodes) =
      add_edges-IsBuilt o recv_node (add_node h).1 d k (add_node-IsBuilt h (add_node-IsBuilt g b))
        (add_node_keeps o h (add_node_keeps o g s.0), s.1) (recv_in, recv.0.1) send.0
        (recv_in, recv.1.1) send.1 (d_in, t.1) in
    (after, e, built, subst (λ nodes. 0 < count d (graph_end ∷ nodes)) (sym same_nodes) d_in)

-- The node behind a round is in the graph and is the end exactly in the last round.
dummy-IsTarget :
    (is_last : Bool) (old_node : Vertex) (g : Graph)
    → IsBuilt g
    → IsSource g old_node
    → IsBuilt (dummy_of is_last g).0
      × IsSource (dummy_of is_last g).0 old_node
      × IsTarget (dummy_of is_last g).0 (dummy_of is_last g).1
      × (same (dummy_of is_last g).1 graph_end ≡ is_last)
dummy-IsTarget true o g b s = (b, s, (omega arith, refl), refl)
dummy-IsTarget false o g b s =
    let added = add_node-IsSource g in
    (add_node-IsBuilt g b, (add_node_keeps o g s.0, s.1), added.1, added.0.1)

build_round-IsBuilt :
    (r : Round) (old_node : Vertex) (g : Graph)
    → IsBuilt g
    → IsSource g old_node
    → (after : Graph) × ((build_round r old_node g).0 ≡ some after)
      × IsBuilt after
      × (0 < count (build_round r old_node g).1 (vertices after))
      × (same (build_round r old_node g).1 graph_end ≡ r.is_last)
unfolding build_round
build_round-IsBuilt r old_node g b s =
    let (built, source, target, last) = dummy-IsTarget r.is_last old_node g b s in
    let (after, e, built', inside) =
      messages-IsBuilt old_node (dummy_of r.is_last g).1 (dummy_of r.is_last g).0 built source
        target in
    (after, e, built', inside, last)

pub rounds_after :
    (r : Round) (rounds : List Round) (old_node : Vertex) (g after : Graph)
    → (build_round r old_node g).0 ≡ some after
    → build_rounds (r ∷ rounds) old_node g ≡ build_rounds rounds (build_round r old_node g).1 after
unfolding build_rounds
rounds_after r rounds o before after e =
    ap
      (λ built. elim built as (λ x. Option Graph) [
        | none ↦ none
        | some g ↦ build_rounds rounds (build_round r o before).1 g
      ])
      e

pub doublings_over : (fuel n jump : ℕ) → n ≤ jump → doublings fuel n jump ≡ []
unfolding doublings
doublings_over zero n jump h = refl
doublings_over (suc fuel) n jump h = ground arith

build_rounds-IsBuilt :
    (fuel n rank jump : ℕ) (old_node : Vertex) (g : Graph)
    → IsBuilt g
    → IsSource g old_node
    → 0 < jump
    → (after : Graph) × (build_rounds (map (round_at n rank) (doublings fuel n jump)) old_node g
        ≡ some after)
      × IsBuilt after
unfolding build_rounds doublings
build_rounds-IsBuilt zero n rank jump o g b s pos = (g, refl, b)
build_rounds-IsBuilt (suc fuel) n rank jump o g b s pos = elim (Bool-cases (ltb jump n)) [
  | inr over ↦ rw over (g, refl, b)
  | inl more ↦
      let r = round_at n rank jump in
      let rest = map (round_at n rank) (doublings fuel n (jump * 2)) in
      let (after, e, built, inside, last) = build_round-IsBuilt r o g b s in
      let unrolled = rounds_after r rest o g after e in
      elim (Bool-cases r.is_last) [
        | inl ends ↦
            let none_left =
              ap (λ js. build_rounds (map (round_at n rank) js) (build_round r o g).1 after)
                (doublings_over fuel n (jump * 2) (leb→le n (jump * 2) ends)) in
            rw more (after, unrolled ∙ none_left, built)
        | inr goes ↦
            let (all, e', built') =
              build_rounds-IsBuilt fuel n rank (jump * 2) (build_round r o g).1 after built
                (inside, last ∙ goes) (omega arith) in
            rw more (all, unrolled ∙ e', built')
      ]
]

-- The calls that build the graph of a barrier fail no assertion, and every node of it expects a
-- signal for each edge into it, as in every graph that the code builds.
pub barrier_graph-IsBuilt :
    (nranks rank : ℕ) → (g : Graph) × (barrier_graph nranks rank ≡ some g) × IsBuilt g
unfolding barrier_graph barrier
barrier_graph-IsBuilt n rank =
    build_rounds-IsBuilt n n rank 1 graph_start empty empty-IsBuilt (omega arith, refl)
      (omega arith)
