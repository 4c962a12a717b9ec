-- ===== src/PacketSet/Deque.antt =====
-- A deque of packets holds a list: each operation does to the list what it is named for.
use native.Mathlib.Nat.{mod-eq_of_lt, mod-mod}
use lci.Base.{
  ℕ, suc, ◌+◌, ◌%◌, ◌≤◌, ◌<◌, ◌≡◌, refl, sym, ap, ◌∙◌, true, ◌&&◌, some, List, [], ◌∷◌, ◌++◌,
  length, length-append, length-set, length-replicate, set, replicate, ltb, arith,
}
use lci.Base.Int.{ℤ, pos}
use lci.PacketSet.{
  LocalSet, next_index, previous_index, add_index, distance, size, get_position, create,
  all_present, put_at_bot, put_at_top,
}
use lci.PacketSet.Positions.{
  next_index-previous_index, add_index-next_index, distance-add_index, get_position_bounds,
  get_position-next_index, get_position-add_index, get_position-zero, add_index-zero,
}
use lci.PacketSet.Window.{window, window_cong, window_push_back, window_push_front}

-- The slot of the first packet.
abbrev pub first_slot : LocalSet → ℕ
first_slot s = get_position (length s.queue) s.head

-- The deque holds these packets, from the top to the bottom, and has a slot to spare.
pub record Holds (s : LocalSet) (xs : List ℕ) : Type 0 where
  pub spans : s.tail ≡ add_index s.head (length xs)
  pub roomy : length xs < length s.queue
  pub wide : 2 ≤ length s.queue
  pub shows : window s.queue (first_slot s) (length xs) ≡ xs
  pub real : all_present xs ≡ true

pub all_present-append :
    (xs ys : List ℕ) → all_present (xs ++ ys) ≡ (all_present xs && all_present ys)
unfolding all_present
all_present-append [] ys = refl
all_present-append (x ∷ xs) ys = ap (λ b. ltb 0 x && b) (all_present-append xs ys) ∙ ground arith

pub Holds-size : (s : LocalSet) (xs : List ℕ) → Holds s xs → size s ≡ length xs
unfolding size
Holds-size s xs h = ap (λ t. distance t s.head) h.spans ∙ distance-add_index s.head (length xs)

-- A deque that starts in slot 0.
pub fresh_Holds :
    (queue xs : List ℕ)
    → length xs < length queue
    → 2 ≤ length queue
    → window queue 0 (length xs) ≡ xs
    → all_present xs ≡ true
    → Holds (record { queue = queue; head = pos 0; tail = pos (length xs) }) xs
fresh_Holds queue xs room wide shown real = record {
  spans = sym (add_index-zero (length xs));
  roomy = room;
  wide = wide;
  shows =
      window_cong queue _ 0 (length xs)
        (ap (λ k. k % length queue) (get_position-zero (length queue) (omega arith)))
      ∙ shown;
  real = real;
}

pub create-Holds :
    (default_size : ℕ)
    → 0 < default_size
    → (s : LocalSet) × (create default_size ≡ some s) × Holds s []
unfolding create window all_present
create-Holds n h = (
  record { queue = replicate (n + 1) 0; head = pos 0; tail = pos 0 },
  rw positive refl,
  fresh_Holds (replicate (n + 1) 0) [] (omega (arith, length-replicate {A = ℕ} (n + 1) 0))
      (omega (arith, length-replicate {A = ℕ} (n + 1) 0)) refl refl,
)
  where
    positive : ltb 0 n ≡ true
    positive = ground arith

-- Two deques with the same indices and the same packets hold the same.
append_one : (xs : List ℕ) (x : ℕ) → length (xs ++ (x ∷ [])) ≡ suc (length xs)
append_one xs x = length-append xs (x ∷ []) ∙ omega arith

one_present : (x : ℕ) → 0 < x → all_present (x ∷ []) ≡ true
unfolding all_present
one_present x h = ground arith

real_one :
    (xs : List ℕ) (x : ℕ) → 0 < x → all_present xs ≡ true → all_present (xs ++ (x ∷ [])) ≡ true
real_one xs x h e = all_present-append xs (x ∷ []) ∙ joined
  where
    joined : (all_present xs && all_present (x ∷ [])) ≡ true
    joined = rw e (one_present x h)

module _ (s : LocalSet) (xs : List ℕ) (h : Holds s xs) where
  tail_slot : get_position (length s.queue) s.tail ≡ (first_slot s + length xs) % length s.queue
  tail_slot =
      ap (λ t. get_position (length s.queue) t) h.spans
      ∙ get_position-add_index (length s.queue) (omega (arith, h.wide)) (length xs) s.head

  pub put_at_bot-Holds :
      (x : ℕ)
      → 0 < x
      → suc (length xs) < length s.queue
      → (s' : LocalSet) × (put_at_bot x (some s) ≡ some s') × Holds s' (xs ++ (x ∷ []))
  unfolding put_at_bot window
  put_at_bot-Holds x positive room = (
    record s {
      queue = set s.queue (get_position (length s.queue) s.tail) x;
      tail = next_index s.tail;
    },
    refl,
    record {
      spans =
          ap next_index h.spans
          ∙ sym (add_index-next_index s.head (length xs))
          ∙ ap (λ n. add_index s.head n) (sym (append_one xs x));
      roomy = omega (arith, append_one xs x, same_length);
      wide = omega (arith, same_length, h.wide);
      shows =
          ap (λ k. window written (get_position k s.head) (length (xs ++ (x ∷ [])))) same_length
          ∙ ap (λ n. window written (first_slot s) n) (append_one xs x)
          ∙ ap (λ t. window (set s.queue t x) (first_slot s) (suc (length xs))) tail_slot
          ∙ window_push_back s.queue (first_slot s) (length xs) x h.roomy
          ∙ ap (λ r. r ++ (x ∷ [])) h.shows;
      real = real_one xs x positive h.real;
    },
  )
    where
      written : List ℕ
      written = set s.queue (get_position (length s.queue) s.tail) x

      same_length : length (set s.queue (get_position (length s.queue) s.tail) x) ≡ length s.queue
      same_length = length-set s.queue (get_position (length s.queue) s.tail) x

  before : ℤ
  before = previous_index s.head

  before_slot :
      get_position (length s.queue) s.head
      ≡ suc (get_position (length s.queue) before) % length s.queue
  unfolding before
  before_slot =
      ap (λ i. get_position (length s.queue) i) (sym (next_index-previous_index s.head))
      ∙ get_position-next_index (length s.queue) (omega (arith, h.wide)) before
      ∙ ap (λ m. m % length s.queue) {x = get_position (length s.queue) before + 1}
          {y = suc (get_position (length s.queue) before)} (omega arith)

  pub put_at_top-Holds :
      (x : ℕ)
      → 0 < x
      → suc (length xs) < length s.queue
      → (s' : LocalSet) × (put_at_top x (some s) ≡ some s') × Holds s' (x ∷ xs)
  unfolding put_at_top all_present before add_index
  put_at_top-Holds x positive room = (
    record s {
      queue = set s.queue (get_position (length s.queue) (previous_index s.head)) x;
      head = previous_index s.head;
    },
    refl,
    record {
      spans = h.spans ∙ ap (λ i. add_index i (length xs)) (sym (next_index-previous_index s.head));
      roomy = omega (arith, same_length);
      wide = omega (arith, same_length, h.wide);
      shows =
          ap (λ k. window written (get_position k before) (suc (length xs))) same_length
          ∙ ap (λ t. window (set s.queue t x) slot (suc (length xs)))
              (sym (
                mod-eq_of_lt (get_position_bounds (length s.queue) (omega (arith, h.wide)) before)))
          ∙ window_push_front s.queue slot (length xs) x h.roomy
          ∙ ap (λ r. x ∷ r)
              (window_cong s.queue (suc slot) (first_slot s) (length xs) (
                  sym (mod-mod (suc slot) (length s.queue))
                  ∙ ap (λ m. m % length s.queue) (sym before_slot))
                ∙ h.shows);
      real = rw (ltb_true positive) h.real;
    },
  )
    where
      slot : ℕ
      slot = get_position (length s.queue) (previous_index s.head)

      written : List ℕ
      written = set s.queue (get_position (length s.queue) (previous_index s.head)) x

      same_length : length written ≡ length s.queue
      same_length = length-set s.queue slot x

      ltb_true : 0 < x → ltb 0 x ≡ true
      ltb_true p = ground arith
