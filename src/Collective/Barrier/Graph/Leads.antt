-- ===== src/Collective/Barrier/Graph/Leads.antt =====
-- The edges of a barrier's graph: every node leads to the node behind its round.
use lci.Base.{
  ◌<◌, ◌≡◌, refl, ap, subst, sym, ◌∙◌, [], ◌∷◌, true, false, some, arith, Bool-cases, inl, inr,
  ==_refl, ◌⊎◌,
}
use lci.Collective.Barrier.Graph.{add_edges, and_then, add_edge_eq}
use lci.Comp.Graph.{
  Vertex, graph_start, graph_end, node, same, Graph, add_node, add_edge, link, count,
}
use lci.Comp.Graph.Counts.{same_eq, count-append}

-- Edges lead from one vertex to the other.
pub data Leads (g : Graph) : Vertex → Vertex → Type 0 where
  here : {v : Vertex} → Leads g v v
  along : {u v w : Vertex} → 0 < count v (g.out_edges u) → Leads g v w → Leads g u w

behind : {g : Graph} {u v w : Vertex} → Leads g u v → Leads g v w → Leads g u w
behind here r = r
behind (along h l) r = along h (behind l r)

link_keeps :
    (src dst u v : Vertex) (g : Graph)
    → 0 < count v (g.out_edges u)
    → 0 < count v ((link src dst g).out_edges u)
link_keeps src dst u v g h = elim (Bool-cases (same u src)) [
  | inl e ↦ rw e (
      omega (
        arith,
        h,
        count-append v (g.out_edges src) (dst ∷ []),
        ap (λ w. count v (g.out_edges w)) (same_eq u src e),
      ))
  | inr e ↦ rw e h
]

link-Leads :
    (src dst : Vertex) (g : Graph) {u w : Vertex} → Leads g u w → Leads (link src dst g) u w
link-Leads src dst g here = here
link-Leads src dst g (along {u = u} {v = v} h l) =
    along (link_keeps src dst u v g h) (link-Leads src dst g l)

same_refl : (v : Vertex) → same v v ≡ true
same_refl graph_start = refl
same_refl graph_end = refl
same_refl (node i) = ==_refl i

link_edge : (src dst : Vertex) (g : Graph) → Leads (link src dst g) src dst
link_edge src dst g =
    along (rw (same_refl src) (omega (arith, count-append dst (g.out_edges src) (dst ∷ []), one)))
      here
  where
    one : count dst (dst ∷ []) ≡ 1
    one = rw (same_refl dst) refl

add_node-Leads : (g : Graph) {u w : Vertex} → Leads g u w → Leads (add_node g).0 u w
unfolding add_node
add_node-Leads g here = here
add_node-Leads g (along h l) = along h (add_node-Leads g l)

abbrev pub links : Vertex → Vertex → Vertex → Vertex → Graph → Graph
links o r s d g = link s d (link r d (link o s (link o r g)))

links-Leads :
    {u w : Vertex} (o r s d : Vertex) (g : Graph) → Leads g u w → Leads (links o r s d g) u w
links-Leads o r s d g l =
    link-Leads s d _ (link-Leads r d _ (link-Leads o s _ (link-Leads o r g l)))

pub add_edges_eq :
    (o r s d : Vertex) (g : Graph)
    → same o graph_end ≡ false
    → same r graph_end ≡ false
    → same s graph_end ≡ false
    → same r graph_start ≡ false
    → same s graph_start ≡ false
    → same d graph_start ≡ false
    → add_edges o r s d g ≡ some (links o r s d g)
unfolding add_edges
add_edges_eq o r s d g oe re se rs ss ds =
    ap
      (λ x.
        and_then x
          (λ a. and_then (add_edge o s a) (λ b. and_then (add_edge r d b) (λ c. add_edge s d c))))
      (add_edge_eq o r g rs oe)
    ∙ ap (λ x. and_then x (λ b. and_then (add_edge r d b) (λ c. add_edge s d c)))
        (add_edge_eq o s (link o r g) ss oe)
    ∙ ap (λ x. and_then x (λ c. add_edge s d c)) (add_edge_eq r d (link o s (link o r g)) ds re)
    ∙ add_edge_eq s d (link r d (link o s (link o r g))) ds se

-- Every vertex but the end leads to `old`.
unfoldable pub AllLead : Graph → Vertex → Type 0
AllLead g old = (v : Vertex) → 0 < count v g.nodes → Leads g v old

pub new_or_old :
    (g : Graph) (o v : Vertex)
    → AllLead g o
    → 0 < count v (add_node g).0.nodes
    → Leads (add_node g).0 v o ⊎ (v ≡ (add_node g).1)
unfolding AllLead add_node
new_or_old g o v lead h = elim (Bool-cases (same (node g.nnodes) v)) [
  | inl e ↦ inr (sym (same_eq (node g.nnodes) v e))
  | inr e ↦ inl (add_node-Leads g (lead v (rw e at h)))
]

-- The two messages of a round: what leads to the node before them leads through them.
pub messages-AllLead :
    (o d : Vertex) (g : Graph)
    → ((v : Vertex) → 0 < count v g.nodes → Leads g v o ⊎ (v ≡ d))
    → AllLead (links o (add_node g).1 (add_node (add_node g).0).1 d (add_node (add_node g).0).0) d
unfolding AllLead add_node
messages-AllLead o d g old v inside = elim (Bool-cases (same send v)) [
  | inl e ↦
      subst (λ u. Leads after u d) (same_eq send v e)
        (link_edge send d (link recv d (link o send (link o recv k))))
  | inr other ↦ elim (Bool-cases (same recv v)) [
    | inl e ↦ subst (λ u. Leads after u d) (same_eq recv v e) recv_leads
    | inr another ↦ elim (old v (rw (other, another) at inside)) [
      | inl l ↦
          behind (links-Leads o recv send d k (add_node-Leads (add_node g).0 (add_node-Leads g l)))
            (behind
              (link-Leads send d _ (link-Leads recv d _ (link-Leads o send _ (link_edge o recv k))))
              recv_leads)
      | inr e ↦ subst (λ u. Leads after u d) (sym e) here
    ]
  ]
]
  where
    recv : Vertex
    recv = (add_node g).1

    send : Vertex
    send = (add_node (add_node g).0).1

    k : Graph
    k = (add_node (add_node g).0).0

    after : Graph
    after = links o recv send d k

    recv_leads : Leads after recv d
    recv_leads = link-Leads send d _ (link_edge recv d (link o send (link o recv k)))
