-- ===== src/PacketSet/Moves.antt =====
-- Pushes with their growth, and copies of packets to another queue.
use native.Mathlib.Nat.{mod-mod}
use lci.Base.{
  ℕ, ◌+◌, ◌%◌, ◌≤◌, ◌<◌, ◌≡◌, refl, sym, ap, ◌∙◌, true, some, List, ◌++◌, length, length-append,
  take, drop, ltb, leb, arith,
}
use lci.Base.Int.{pos}
use lci.PacketSet.{LocalSet, add_index, size, copied, copy_to_new, all_present}
use lci.PacketSet.Positions.{get_position_bounds, get_position-add_index, add_index-add}
use lci.PacketSet.Window.{window, length-window, window-add, window_cong}
use lci.PacketSet.Copy.{window_slice, copied_lem, take-append, drop-append, length-drop}
use lci.PacketSet.Deque.{Holds, first_slot, fresh_Holds, Holds-size, all_present-append}

-- What a copy of the first packets leaves: the others in the source, and a destination that holds
-- them from its first slot on.
pub record IsCopied (s : LocalSet) (new_queue xs ys : List ℕ) : Type 0 where
  pub rest : LocalSet
  pub filled : List ℕ
  pub runs : copy_to_new s new_queue (length xs) ≡ some (rest, filled)
  pub rest_Holds : Holds rest ys
  pub same_queue : rest.queue ≡ s.queue
  pub same_length : length filled ≡ length new_queue
  pub starts : take (length xs) filled ≡ xs
  pub filled_Holds : Holds (record { queue = filled; head = pos 0; tail = pos (length xs) }) xs

module _ (s : LocalSet) (new_queue xs ys : List ℕ) (h : Holds s (xs ++ ys)) where
  both : length (xs ++ ys) ≡ length xs + length ys
  both = length-append xs ys

  split_window :
      window s.queue (first_slot s) (length xs)
        ++ window s.queue (first_slot s + length xs) (length ys)
      ≡ xs ++ ys
  split_window =
      sym (window-add s.queue (first_slot s) (length xs) (length ys))
      ∙ ap (λ n. window s.queue (first_slot s) n) (sym both)
      ∙ h.shows

  first_part : window s.queue (first_slot s) (length xs) ≡ xs
  first_part =
      sym (take-append (length xs) _ _ (length-window s.queue (first_slot s) (length xs)))
      ∙ ap (λ r. take (length xs) r) split_window
      ∙ take-append (length xs) xs ys refl

  rest_part : window s.queue (first_slot s + length xs) (length ys) ≡ ys
  rest_part =
      sym (
        drop-append (length xs) 0 (window s.queue (first_slot s) (length xs)) _
          (omega (arith, length-window s.queue (first_slot s) (length xs))))
      ∙ ap (λ r. drop (length xs) r) split_window
      ∙ drop-append (length xs) 0 xs ys (omega arith)

  real_parts : (all_present xs ≡ true) × (all_present ys ≡ true)
  real_parts = ground (arith, all_present-append xs ys, h.real)

  filled : List ℕ
  filled = copied s.queue (first_slot s) new_queue (length xs)

  filled_lem : filled ≡ xs ++ drop (length xs) new_queue
  unfolding filled
  filled_lem =
      copied_lem s.queue new_queue (first_slot s) (length xs)
        (get_position_bounds (length s.queue) (omega (arith, h.wide)) s.head)
        (omega (arith, h.roomy, both))
      ∙ ap (λ r. r ++ drop (length xs) new_queue) first_part

  length-filled : length xs ≤ length new_queue → length filled ≡ length new_queue
  length-filled room =
      ap length filled_lem
      ∙ length-append xs (drop (length xs) new_queue)
      ∙ omega (arith, length-drop (length xs) new_queue)

  starts_with : take (length xs) filled ≡ xs
  starts_with = ap (λ r. take (length xs) r) filled_lem ∙ take-append (length xs) xs _ refl

  -- The first packets of a deque are copied in order, and the deque keeps the others.
  pub copy_to_new_lem :
      length xs < length new_queue → 2 ≤ length new_queue → IsCopied s new_queue xs ys
  unfolding copy_to_new filled
  copy_to_new_lem room wide = record {
    rest = record s { head = add_index s.head (length xs) };
    filled = filled;
    runs = rw (enough, leaves room) refl;
    rest_Holds = record {
      spans =
          h.spans
          ∙ ap (λ n. add_index s.head n) both
          ∙ sym (add_index-add (length xs) (length ys) s.head);
      roomy = omega (arith, h.roomy, both);
      wide = h.wide;
      shows =
          window_cong s.queue _ (first_slot s + length xs) (length ys) (
            ap (λ k. k % length s.queue)
              (get_position-add_index (length s.queue) (omega (arith, h.wide)) (length xs) s.head)
            ∙ mod-mod (first_slot s + length xs) (length s.queue))
          ∙ rest_part;
      real = real_parts.1;
    };
    same_queue = refl;
    same_length = length-filled (omega arith);
    starts = starts_with;
    filled_Holds =
        fresh_Holds filled xs (omega (arith, length-filled (omega arith)))
          (omega (arith, length-filled (omega arith)))
          (sym (window_slice filled 0 (length xs) (omega (arith, length-filled (omega arith))))
            ∙ starts_with)
          real_parts.0;
  }
    where
      enough : leb (length xs) (size s) ≡ true
      enough = ground (arith, Holds-size s (xs ++ ys) h, both)

      leaves : length xs < length new_queue → ltb (length xs) (length new_queue) ≡ true
      leaves r = ground arith
