-- ===== src/Comp/Graph/Build.antt =====
-- Building a graph: every node expects a signal for each edge into it.
use lci.Base.{
  ℕ, ◌+◌, ◌≤◌, ◌<◌, ◌≡◌, refl, ap, subst, sym, ◌∙◌, List, [], ◌∷◌, ◌++◌, false, ◌||◌, some,
  if◌then◌else◌, arith, Bool-cases, inl, inr,
}
use mathlib.Core.Option.{some-injective, none-ne-some}
use lci.Comp.Graph.{
  Vertex, graph_start, graph_end, node, same, Graph, empty, add_node, add_edge, change, count, link,
}
use lci.Comp.Graph.Counts.{edges_into, same_eq, same_sym, count-append}

abbrev pub vertices : Graph → List Vertex
vertices g = graph_end ∷ g.nodes

pub record IsBuilt (g : Graph) : Type 0 where
  pub counted : (v : Vertex) → g.signals_expected v ≡ edges_into g.out_edges v (vertices g)
  pub once : (v : Vertex) → count v (vertices g) ≤ 1
  pub started : count graph_start g.nodes ≡ 1
  pub last : g.out_edges graph_end ≡ []
  pub first : g.signals_expected graph_start ≡ 0
  pub known : (v : Vertex) → count v (vertices g) ≡ 0 → g.signals_expected v ≡ 0
  pub fresh : (i : ℕ) → g.nnodes ≤ i → count (node i) g.nodes ≡ 0
  pub unlinked : (i : ℕ) → g.nnodes ≤ i → g.out_edges (node i) ≡ []

pub empty-IsBuilt : IsBuilt empty
empty-IsBuilt = record {
  counted = λ v. refl;
  once = λ v. ground arith;
  started = refl;
  last = refl;
  first = refl;
  known = λ v h. refl;
  fresh = λ i h. refl;
  unlinked = λ i h. refl;
}

pub add_node-IsBuilt : (g : Graph) → IsBuilt g → IsBuilt (add_node g).0
unfolding add_node
add_node-IsBuilt g b = record {
  counted = λ v. omega (arith, b.counted v, ap (count v) (b.unlinked g.nnodes (omega arith)));
  once = λ v. elim (Bool-cases (same (node g.nnodes) v)) [
    | inl e ↦
        subst (λ w. count w (graph_end ∷ node g.nnodes ∷ g.nodes) ≤ 1) (same_eq (node g.nnodes) v e)
          (ground (arith, b.fresh g.nnodes (omega arith)))
    | inr e ↦ rw e (b.once v)
  ];
  started = b.started;
  last = b.last;
  first = b.first;
  known = λ v h. b.known v (ground arith);
  fresh = λ i h. ground (arith, b.fresh i (omega arith));
  unlinked = λ i h. b.unlinked i (omega arith);
}

-- One edge more at the end of what a vertex signals.
edges_into-change :
    (out : Vertex → List Vertex) (src dst v : Vertex) (us : List Vertex)
    → edges_into (change src (out src ++ (dst ∷ [])) out) v us
      ≡ edges_into out v us + (if same v dst then count src us else 0)
edges_into-change out src dst v [] = ground arith
edges_into-change out src dst v (u ∷ us) = elim (Bool-cases (same u src)) [
  | inl e ↦ rw e (
      ground (
        arith,
        count-append v (out src) (dst ∷ []),
        same_sym dst v,
        ap (λ w. count v (out w)) (same_eq u src e),
        edges_into-change out src dst v us,
      ))
  | inr e ↦ rw e (ground (arith, edges_into-change out src dst v us))
]

pub link-IsBuilt :
    (src dst : Vertex) (g : Graph)
    → IsBuilt g
    → 0 < count src (vertices g)
    → 0 < count dst (vertices g)
    → same dst graph_start ≡ false
    → same src graph_end ≡ false
    → IsBuilt (link src dst g)
link-IsBuilt src dst g b hs hd ds se = record {
  counted = λ v.
      let more = edges_into-change g.out_edges src dst v (vertices g) in
      let one : count src (vertices g) ≡ 1 = omega (arith, b.once src, hs) in
      elim (Bool-cases (same v dst)) [
        | inl e ↦ rw e (
            ap (λ w. g.signals_expected w + 1) (sym (same_eq v dst e))
            ∙ omega (arith, b.counted v, rw e at more, one))
        | inr e ↦ rw e (b.counted v ∙ omega (arith, rw e at more))
      ];
  once = b.once;
  started = b.started;
  last = rw (same_sym graph_end src ∙ se) b.last;
  first = rw (same_sym graph_start dst ∙ ds) b.first;
  known = λ v h. elim (Bool-cases (same v dst)) [
    | inl e ↦ absurd (omega (arith, hd, h, ap (λ w. count w (vertices g)) (sym (same_eq v dst e))))
    | inr e ↦ rw e (b.known v h)
  ];
  fresh = b.fresh;
  unlinked = λ i h. elim (Bool-cases (same (node i) src)) [
    | inl e ↦ absurd (
        omega
          (arith, hs, b.fresh i h, ap (λ w. count w (vertices g)) (sym (same_eq (node i) src e))))
    | inr e ↦ rw e (b.unlinked i h)
  ];
}

-- The handles that the calls of the code pass are the two ends and what `add_node` returned.
pub add_edge-IsBuilt :
    (src dst : Vertex) (g after : Graph)
    → IsBuilt g
    → 0 < count src (vertices g)
    → 0 < count dst (vertices g)
    → add_edge src dst g ≡ some after
    → IsBuilt after
unfolding add_edge
add_edge-IsBuilt src dst g after b hs hd e =
    elim (Bool-cases (same dst graph_start || same src graph_end)) [
      | inl bad ↦ absurd (none-ne-some after (rw bad at e))
      | inr good ↦
          subst IsBuilt (some-injective _ _ (rw good at e))
            (link-IsBuilt src dst g b hs hd (ground (arith, good)) (ground (arith, good)))
    ]
