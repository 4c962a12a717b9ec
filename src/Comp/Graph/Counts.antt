-- ===== src/Comp/Graph/Counts.antt =====
-- How often a vertex occurs in a list, and how many edges lead to it from the vertices of a list.
use lci.Base.{
  ℕ, ◌+◌, ◌≤◌, ◌≡◌, ◌∙◌, ap, refl, sym, subst, List, [], ◌∷◌, ◌++◌, true, false, if◌then◌else◌,
  arith, ==→eq, ==_refl, ◌<◌, Bool-cases, inl, inr, dec_lt,
}
use lci.Comp.Graph.{Vertex, graph_start, graph_end, node, same, remove, count}

abbrev pub edges_into : (Vertex → List Vertex) → Vertex → List Vertex → ℕ
edges_into out v [] = 0
edges_into out v (u ∷ us) = count v (out u) + edges_into out v us

pub same_eq : (u v : Vertex) → same u v ≡ true → u ≡ v
same_eq graph_start graph_start h = refl
same_eq graph_end graph_end h = refl
same_eq (node i) (node j) h = ap node (==→eq i j h)
same_eq graph_start graph_end h = cc
same_eq graph_start (node j) h = cc
same_eq graph_end graph_start h = cc
same_eq graph_end (node j) h = cc
same_eq (node i) graph_start h = cc
same_eq (node i) graph_end h = cc

pub same_refl : (v : Vertex) → same v v ≡ true
same_refl graph_start = refl
same_refl graph_end = refl
same_refl (node i) = ==_refl i

pub count-append : (v : Vertex) (xs ys : List Vertex) → count v (xs ++ ys) ≡ count v xs + count v ys
count-append v [] ys = omega arith
count-append v (x ∷ xs) ys = ground (arith, count-append v xs ys)

-- A vertex taken out of a list.
pub count-remove_self :
    (v : Vertex) (xs : List Vertex) → 0 < count v xs → count v (remove v xs) + 1 ≡ count v xs
count-remove_self v [] h = absurd (omega arith)
count-remove_self v (x ∷ xs) h = ground (arith, count-remove_self v xs)

pub count-remove_ne :
    (v w : Vertex) (xs : List Vertex) → same v w ≡ false → count w (remove v xs) ≡ count w xs
count-remove_ne v w [] h = refl
count-remove_ne v w (x ∷ xs) h = elim (Bool-cases (same x v)) [
  | inl e ↦ rw (e, (ap (λ y. same y w) (same_eq x v e) ∙ h)) refl
  | inr e ↦ rw e (ground (arith, count-remove_ne v w xs h))
]

pub edges_into-remove :
    (out : Vertex → List Vertex) (v w : Vertex) (xs : List Vertex)
    → 0 < count v xs
    → edges_into out w (remove v xs) + count w (out v) ≡ edges_into out w xs
edges_into-remove out v w [] h = absurd (omega arith)
edges_into-remove out v w (x ∷ xs) h = elim (Bool-cases (same x v)) [
  | inl e ↦ rw e (omega (arith, ap (λ y. count w (out y)) (same_eq x v e)))
  | inr e ↦ rw e (omega (arith, edges_into-remove out v w xs (rw e at h)))
]

-- A list that has a vertex once at most is without it behind its removal.
pub count-remove_once : (v : Vertex) (xs : List Vertex) → count v xs ≤ 1 → count v (remove v xs) ≡ 0
count-remove_once v xs h = elim (dec_lt 0 (count v xs)) [
  | yes p ↦ omega (arith, count-remove_self v xs p)
  | no p ↦ absent v xs (omega arith)
]
  where
    absent : (v : Vertex) (xs : List Vertex) → count v xs ≡ 0 → count v (remove v xs) ≡ 0
    absent v [] z = refl
    absent v (x ∷ xs) z = ground (arith, absent v xs)

pub same_sym : (u v : Vertex) → same u v ≡ same v u
same_sym graph_start graph_start = refl
same_sym graph_end graph_end = refl
same_sym (node i) (node j) = ground arith
same_sym graph_start graph_end = refl
same_sym graph_start (node j) = refl
same_sym graph_end graph_start = refl
same_sym graph_end (node j) = refl
same_sym (node i) graph_start = refl
same_sym (node i) graph_end = refl

pub count-removed :
    (v w : Vertex) (xs : List Vertex)
    → count v xs ≤ 1
    → count w (remove v xs) ≡ (if same w v then 0 else count w xs)
count-removed v w xs once = elim (Bool-cases (same w v)) [
  | inl e ↦ rw e (ap (λ u. count u (remove v xs)) (same_eq w v e) ∙ count-remove_once v xs once)
  | inr e ↦ rw e (count-remove_ne v w xs (same_sym v w ∙ e))
]

pub count-taken :
    (v w : Vertex) (xs : List Vertex)
    → 0 < count v xs
    → count w (remove v xs) + (if same w v then 1 else 0) ≡ count w xs
count-taken v w xs h = elim (Bool-cases (same w v)) [
  | inl e ↦ rw e (
      subst (λ u. count u (remove v xs) + 1 ≡ count u xs) (sym (same_eq w v e))
        (count-remove_self v xs h))
  | inr e ↦ rw e (omega (arith, count-remove_ne v w xs (same_sym v w ∙ e)))
]
