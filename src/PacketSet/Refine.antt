-- ===== src/PacketSet/Refine.antt =====
-- The pushes and pops of a deque are those of the list that it holds.
use lci.Base.{
  ℕ, suc, ◌-◌, ◌*◌, ◌<◌, ◌≡◌, ◌≢◌, refl, sym, ap, subst, ◌∙◌, true, false, some, List, [], ◌∷◌,
  ◌++◌, length, length-replicate, replicate, ltb, if◌then◌else◌, ◌==◌, ==→eq, Bool-cases, inl, inr,
  arith,
}
use lci.Base.Int.{pos}
use lci.PacketSet.{
  LocalSet, lower_index, size, expanded, expand, make_room, push_to_bot, push_to_top,
}
use lci.PacketSet.Deque.{Holds, Holds-size, put_at_bot-Holds, put_at_top-Holds}
use lci.PacketSet.Moves.{IsCopied, copy_to_new_lem}

append_nil : (xs : List ℕ) → xs ≡ xs ++ []
append_nil [] = refl
append_nil (x ∷ xs) = ap (λ r. x ∷ r) (append_nil xs)

expand-Holds :
    (s : LocalSet) (xs : List ℕ)
    → Holds s xs
    → 0 < length xs
    → (s' : LocalSet) × (expand s ≡ some s') × Holds s' xs × (length s'.queue ≡ length s.queue * 2)
unfolding expand expanded lower_index
expand-Holds s xs h nonempty = (
  record { queue = c.filled; head = pos 0; tail = pos (length xs) },
  rw (Holds-size s xs h, c.runs, ltb_true nonempty, c.starts, h.real) refl,
  c.filled_Holds,
  c.same_length ∙ length-replicate {A = ℕ} (length s.queue * 2) 0,
)
  where
    c : IsCopied s (replicate (length s.queue * 2) 0) xs []
    c =
        copy_to_new_lem s (replicate (length s.queue * 2) 0) xs []
          (subst (λ l. Holds s l) (append_nil xs) h)
          (omega (arith, h.roomy, h.wide, length-replicate {A = ℕ} (length s.queue * 2) 0))
          (omega (arith, h.wide, length-replicate {A = ℕ} (length s.queue * 2) 0))

    ltb_true : 0 < length xs → ltb 0 (length xs) ≡ true
    ltb_true p = ground arith

make_room-Holds :
    (s : LocalSet) (xs : List ℕ)
    → Holds s xs
    → (s' : LocalSet) × (make_room s ≡ some s') × Holds s' xs × (suc (length xs) < length s'.queue)
unfolding make_room
make_room-Holds s xs h = elim (Bool-cases (size s == length s.queue - 1)) [
  | inl full ↦ grown (expand-Holds s xs h (omega (arith, is_full full, h.wide))) full
  | inr free ↦ (s, rw free refl, h, omega (arith, h.roomy, has_room free))
]
  where
    is_full : (size s == length s.queue - 1) ≡ true → length xs ≡ length s.queue - 1
    is_full e = sym (Holds-size s xs h) ∙ ==→eq (size s) (length s.queue - 1) e

    has_room : (size s == length s.queue - 1) ≡ false → length xs ≢ length s.queue - 1
    has_room e = ground (arith, Holds-size s xs h)

    grown :
        (s' : LocalSet) × (expand s ≡ some s')
          × Holds s' xs
          × (length s'.queue ≡ length s.queue * 2)
        → (size s == length s.queue - 1) ≡ true
        → (s' : LocalSet) × ((if size s == length s.queue - 1 then expand s else some s) ≡ some s')
          × Holds s' xs
          × (suc (length xs) < length s'.queue)
    grown (s', e, held, doubled) full =
        (s', rw full e, held, omega (arith, is_full full, doubled, h.wide))

-- A push at the bottom puts a packet behind the others, however full the queue is.
pub push_to_bot-Holds :
    (s : LocalSet) (xs : List ℕ) (x : ℕ)
    → Holds s xs
    → 0 < x
    → (s' : LocalSet) × (push_to_bot s x ≡ some s') × Holds s' (xs ++ (x ∷ []))
unfolding push_to_bot
push_to_bot-Holds s xs x h positive =
    let (roomy, e, held, room) = make_room-Holds s xs h in
    let (s', put, held') = put_at_bot-Holds roomy xs held x positive room in
    (s', rw (ltb_true positive, e) put, held')
  where
    ltb_true : 0 < x → ltb 0 x ≡ true
    ltb_true p = ground arith

-- A push at the top puts a packet in front of the others.
pub push_to_top-Holds :
    (s : LocalSet) (xs : List ℕ) (x : ℕ)
    → Holds s xs
    → 0 < x
    → (s' : LocalSet) × (push_to_top s x ≡ some s') × Holds s' (x ∷ xs)
unfolding push_to_top
push_to_top-Holds s xs x h positive =
    let (roomy, e, held, room) = make_room-Holds s xs h in
    let (s', put, held') = put_at_top-Holds roomy xs held x positive room in
    (s', rw (ltb_true positive, e) put, held')
  where
    ltb_true : 0 < x → ltb 0 x ≡ true
    ltb_true p = ground arith
