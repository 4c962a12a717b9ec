-- ===== src/PacketSet/Pops.antt =====
-- The pops of a deque are those of the list that it holds.
use lci.Base.{
  ℕ, suc, ◌+◌, ◌%◌, ◌≡◌, refl, sym, ap, ◌∙◌, true, false, some, List, [], ◌∷◌, ◌++◌, length,
  length-append, get_or, take, drop, ltb, arith,
}
use native.Mathlib.Nat.{mod-eq_of_lt, mod-mod}
use lci.PacketSet.{
  LocalSet, next_index, previous_index, add_index, same_index, lower_index, get_position,
  all_present, present, pop_from_top, pop_from_bot,
}
use lci.PacketSet.Positions.{
  previous_index-next_index, add_index-next_index, same_index_refl, same_index-add_index,
  lower_index-add_index, get_position_bounds, get_position-next_index, get_position-add_index,
}
use lci.PacketSet.Window.{window, window_snoc, window_cong, length-window}
use lci.PacketSet.Copy.{take-append, drop-append}
use lci.PacketSet.Deque.{Holds, first_slot, all_present-append}

module _ (s : LocalSet) (h : Holds s []) where
  pub empty_indices : same_index s.head s.tail ≡ true
  unfolding add_index
  empty_indices = ap (λ t. same_index s.head t) h.spans ∙ same_index_refl s.head

  -- An empty deque gives the null pointer at either end and stays as it is.
  pub pop_empty : (pop_from_top s ≡ some (s, 0)) × (pop_from_bot s ≡ some (s, 0))
  unfolding pop_from_top pop_from_bot
  pop_empty = (rw empty_indices refl, rw empty_indices refl)

module _ (s : LocalSet) (n : ℕ) (spans : s.tail ≡ add_index s.head (suc n)) where
  not_same : same_index s.head s.tail ≡ false
  not_same = ap (λ t. same_index s.head t) spans ∙ same_index-add_index s.head n

  in_order : lower_index s.head s.tail ≡ true
  in_order = ap (λ t. lower_index s.head t) spans ∙ lower_index-add_index s.head n

first_present :
    (x : ℕ) (xs : List ℕ) → all_present (x ∷ xs) ≡ true → (ltb 0 x ≡ true) × (all_present xs ≡ true)
unfolding all_present
first_present x xs e = ground arith

pub last_present :
    (xs : List ℕ) (x : ℕ)
    → all_present (xs ++ (x ∷ [])) ≡ true
    → (all_present xs ≡ true) × (ltb 0 x ≡ true)
unfolding all_present
last_present xs x e = ground (arith, all_present-append xs (x ∷ []))

module _ (s : LocalSet) (x : ℕ) (xs : List ℕ) (h : Holds s (x ∷ xs)) where
  top_value : get_or s.queue (first_slot s) 0 ≡ x
  unfolding window
  top_value =
      ap (λ p. get_or s.queue p 0)
        (sym (mod-eq_of_lt (get_position_bounds (length s.queue) (omega (arith, h.wide)) s.head)))
      ∙ ap (λ l. get_or l 0 0) h.shows

  -- A pop at the top takes the first packet.
  pub pop_from_top-Holds : (s' : LocalSet) × (pop_from_top s ≡ some (s', x)) × Holds s' xs
  unfolding pop_from_top present add_index window
  pop_from_top-Holds = (
    record s { head = next_index s.head },
    rw
        (
          not_same s (length xs) h.spans,
          in_order s (length xs) h.spans,
          top_value,
          (first_present x xs h.real).0,
        )
        refl,
    record {
      spans = h.spans;
      roomy = omega (arith, h.roomy);
      wide = h.wide;
      shows =
          window_cong s.queue _ (suc (first_slot s)) (length xs) (
            ap (λ k. k % length s.queue)
              (get_position-next_index (length s.queue) (omega (arith, h.wide)) s.head)
            ∙ mod-mod (first_slot s + 1) (length s.queue)
            ∙ ap (λ k. k % length s.queue) {x = first_slot s + 1} {y = suc (first_slot s)}
                (omega arith))
          ∙ ap (λ l. drop 1 l) h.shows;
      real = (first_present x xs h.real).1;
    },
  )

module _ (s : LocalSet) (xs : List ℕ) (x : ℕ) (h : Holds s (xs ++ (x ∷ []))) where
  one_more : length (xs ++ (x ∷ [])) ≡ suc (length xs)
  one_more = length-append xs (x ∷ []) ∙ omega arith

  spans_last : s.tail ≡ add_index s.head (suc (length xs))
  spans_last = h.spans ∙ ap (λ n. add_index s.head n) one_more

  new_tail : previous_index s.tail ≡ add_index s.head (length xs)
  new_tail =
      ap previous_index (spans_last ∙ add_index-next_index s.head (length xs))
      ∙ previous_index-next_index (add_index s.head (length xs))

  last_slot :
      get_position (length s.queue) (previous_index s.tail)
      ≡ (first_slot s + length xs) % length s.queue
  last_slot =
      ap (λ i. get_position (length s.queue) i) new_tail
      ∙ get_position-add_index (length s.queue) (omega (arith, h.wide)) (length xs) s.head

  shows_last :
      window s.queue (first_slot s) (length xs)
        ++ (get_or s.queue ((first_slot s + length xs) % length s.queue) 0 ∷ [])
      ≡ xs ++ (x ∷ [])
  shows_last =
      sym (window_snoc s.queue (first_slot s) (length xs))
      ∙ ap (λ n. window s.queue (first_slot s) n) (sym one_more)
      ∙ h.shows

  shown : window s.queue (first_slot s) (length xs) ≡ xs
  shown =
      sym (take-append (length xs) _ _ (length-window s.queue (first_slot s) (length xs)))
      ∙ ap (λ r. take (length xs) r) shows_last
      ∙ take-append (length xs) xs (x ∷ []) refl

  bot_value : get_or s.queue (get_position (length s.queue) (previous_index s.tail)) 0 ≡ x
  bot_value =
      ap (λ p. get_or s.queue p 0) last_slot
      ∙ ap (λ l. get_or l 0 0)
          (sym (
              drop-append (length xs) 0 (window s.queue (first_slot s) (length xs)) _
                (omega (arith, length-window s.queue (first_slot s) (length xs))))
            ∙ ap (λ r. drop (length xs) r) shows_last
            ∙ drop-append (length xs) 0 xs (x ∷ []) (omega arith))

  -- A pop at the bottom takes the last packet.
  pub pop_from_bot-Holds : (s' : LocalSet) × (pop_from_bot s ≡ some (s', x)) × Holds s' xs
  unfolding pop_from_bot present
  pop_from_bot-Holds = (
    record s { tail = previous_index s.tail },
    rw
        (
          not_same s (length xs) spans_last,
          in_order s (length xs) spans_last,
          bot_value,
          (last_present xs x h.real).1,
        )
        refl,
    record {
      spans = new_tail;
      roomy = omega (arith, h.roomy, one_more);
      wide = h.wide;
      shows = shown;
      real = (last_present xs x h.real).0;
    },
  )
