-- ===== src/PacketSet/Deques.antt =====
-- The four operations of a deque against the list that it holds.
use lci.Base.{ℕ, ◌<◌, ◌≡◌, refl, ap, sym, subst, ◌∙◌, inl, inr, some, List, [], ◌∷◌, ◌++◌, drop}
use lci.PacketSet.{LocalSet, push_to_bot, push_to_top, pop_from_top, pop_from_bot}
use lci.PacketSet.Deque.{Holds}
use lci.PacketSet.Refine.{push_to_bot-Holds, push_to_top-Holds}
use lci.PacketSet.Pops.{pop_empty, pop_from_top-Holds, pop_from_bot-Holds}
use lci.PacketSet.Locals.{last_cases}

-- The ends of a list; 0 is the null pointer.
unfoldable pub first_or_null : List ℕ → ℕ
first_or_null [] = 0
first_or_null (x ∷ xs) = x

unfoldable pub last_or_null : List ℕ → ℕ
last_or_null [] = 0
last_or_null (x ∷ []) = x
last_or_null (x ∷ y ∷ ys) = last_or_null (y ∷ ys)

unfoldable pub but_last : List ℕ → List ℕ
but_last [] = []
but_last (x ∷ []) = []
but_last (x ∷ y ∷ ys) = x ∷ but_last (y ∷ ys)

ends :
    (xs : List ℕ) (x : ℕ) → (last_or_null (xs ++ (x ∷ [])) ≡ x) × (but_last (xs ++ (x ∷ [])) ≡ xs)
unfolding last_or_null but_last
ends [] x = (refl, refl)
ends (y ∷ []) x = (refl, refl)
ends (y ∷ z ∷ zs) x = ((ends (z ∷ zs) x).0, ap (λ r. y ∷ r) (ends (z ∷ zs) x).1)

module _ (s : LocalSet) (xs : List ℕ) (h : Holds s xs) where
  top : (s' : LocalSet) × (pop_from_top s ≡ some (s', first_or_null xs)) × Holds s' (drop 1 xs)
  unfolding first_or_null
  top = go xs h
    where
      go :
          (xs : List ℕ)
          → Holds s xs
          → (s' : LocalSet) × (pop_from_top s ≡ some (s', first_or_null xs)) × Holds s' (drop 1 xs)
      go [] held = (s, (pop_empty s held).0, held)
      go (x ∷ xs) held = pop_from_top-Holds s x xs held

  bot : (s' : LocalSet) × (pop_from_bot s ≡ some (s', last_or_null xs)) × Holds s' (but_last xs)
  unfolding last_or_null but_last
  bot = elim (last_cases xs) [
    | inl e ↦
        subst
          (λ l.
            (s' : LocalSet) × (pop_from_bot s ≡ some (s', last_or_null l)) × Holds s' (but_last l))
          (sym e) (s, (pop_empty s (subst (λ l. Holds s l) e h)).1, subst (λ l. Holds s l) e h)
    | inr (ys, y, e) ↦
        let (s', popped, held) = pop_from_bot-Holds s ys y (subst (λ l. Holds s l) e h) in
        subst
          (λ l.
            (s' : LocalSet) × (pop_from_bot s ≡ some (s', last_or_null l)) × Holds s' (but_last l))
          (sym e)
          (
            s',
            popped ∙ ap (λ v. some (s', v)) (sym (ends ys y).0),
            subst (λ l. Holds s' l) (sym (ends ys y).1) held,
          )
  ]

-- A deque that holds a list, however its slots wrap around and however full they are, takes a
-- packet at either end of the list and gives the packet at either end, or the null pointer when the
-- list is empty; no assertion fails.
pub deque_refines :
    (s : LocalSet) (xs : List ℕ) (x : ℕ)
    → Holds s xs
    → 0 < x
    → ((s' : LocalSet) × (push_to_bot s x ≡ some s') × Holds s' (xs ++ (x ∷ [])))
      × ((s' : LocalSet) × (push_to_top s x ≡ some s') × Holds s' (x ∷ xs))
      × ((s' : LocalSet) × (pop_from_top s ≡ some (s', first_or_null xs)) × Holds s' (drop 1 xs))
      × ((s' : LocalSet) × (pop_from_bot s ≡ some (s', last_or_null xs)) × Holds s' (but_last xs))
deque_refines s xs x h positive = (
  push_to_bot-Holds s xs x h positive,
  push_to_top-Holds s xs x h positive,
  top s xs h,
  bot s xs h,
)
