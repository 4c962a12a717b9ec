-- ===== src/PacketSet.antt =====
-- The set of free packets, one deque for each thread: src/data_structure/mpmc_set.hpp. A packet is
-- a number and 0 is the null pointer; an operation runs while it holds the locks that it takes.
use lci.Base.{
  ℕ, zero, suc, ◌+◌, ◌-◌, ◌*◌, ◌/◌, ◌%◌, ◌^◌, max, Bool, true, false, ◌&&◌, not, Option, none, some,
  List, [], ◌∷◌, ◌++◌, length, get_or, set, take, drop, replicate, if◌then◌else◌, ltb, leb, ◌==◌,
}
use lci.Base.Int.{ℤ, pos, negsuc}
pub mod Positions
pub mod Window
pub mod Copy
pub mod Deque
pub mod Moves
pub mod Refine
pub mod Pops
pub mod Pools
pub mod Conservation
pub mod Locals
pub mod Steal
pub mod Deques
pub mod Safety
pub mod Liveness
pub mod Tests

-- The members of `local_set_t`; the indices do not overflow.
pub record LocalSet : Type 0 where
  pub queue : List ℕ
  pub head : ℤ
  pub tail : ℤ

unfoldable pub next_index : ℤ → ℤ
next_index (pos n) = pos (n + 1)
next_index (negsuc zero) = pos 0
next_index (negsuc (suc n)) = negsuc n

unfoldable pub previous_index : ℤ → ℤ
previous_index (pos zero) = negsuc 0
previous_index (pos (suc n)) = pos n
previous_index (negsuc n) = negsuc (n + 1)

unfoldable pub add_index : ℤ → ℕ → ℤ
add_index i zero = i
add_index i (suc n) = add_index (next_index i) n

unfoldable pub same_index : ℤ → ℤ → Bool
same_index (pos a) (pos b) = a == b
same_index (negsuc a) (negsuc b) = a == b
same_index (pos a) (negsuc b) = false
same_index (negsuc a) (pos b) = false

unfoldable pub lower_index : ℤ → ℤ → Bool
lower_index (pos a) (pos b) = ltb a b
lower_index (negsuc a) (negsuc b) = ltb b a
lower_index (pos a) (negsuc b) = false
lower_index (negsuc a) (pos b) = true

-- `tail - head` as a `size_t`.
unfoldable pub distance : ℤ → ℤ → ℕ
distance (pos t) (pos h) = if leb h t then t - h else 2 ^ 64 - (h - t)
distance (pos t) (negsuc h) = t + suc h
distance (negsuc t) (pos h) = 2 ^ 64 - (suc t + h)
distance (negsuc t) (negsuc h) = if leb t h then h - t else 2 ^ 64 - (t - h)

unfoldable pub size : LocalSet → ℕ
size s = distance s.tail s.head

-- A remainder in C has the sign of the dividend; then the size is added.
unfoldable pub get_position : ℕ → ℤ → ℕ
get_position size (pos n) = (n % size + size) % size
get_position size (negsuc n) = (size - suc n % size) % size

unfoldable pub create : ℕ → Option LocalSet
create default_size =
    if ltb 0 default_size
    then some (record { queue = replicate (default_size + 1) 0; head = pos 0; tail = pos 0 })
    else none

-- `memcpy` of some elements to an offset of a queue.
unfoldable pub copy_in : List ℕ → ℕ → List ℕ → List ℕ
copy_in queue offset xs = take offset queue ++ (xs ++ drop (offset + length xs) queue)

-- The copy of the first `n` packets, in one segment or in two.
unfoldable pub copied : List ℕ → ℕ → List ℕ → ℕ → List ℕ
copied source head_idx new_queue n =
    if leb (head_idx + n) (length source)
    then copy_in new_queue 0 (take n (drop head_idx source))
    else copy_in (copy_in new_queue 0 (take (length source - head_idx) (drop head_idx source)))
        (length source - head_idx) (take (n - (length source - head_idx)) source)

-- The source without the packets and the destination with them; `none` is a failed assertion.
unfoldable pub copy_to_new : LocalSet → List ℕ → ℕ → Option (LocalSet × List ℕ)
copy_to_new source new_queue n =
    if leb n (size source) && ltb n (length new_queue)
    then some (
      record source { head = add_index source.head n },
      copied source.queue (get_position (length source.queue) source.head) new_queue n,
    )
    else none

unfoldable pub all_present : List ℕ → Bool
all_present [] = true
all_present (x ∷ xs) = ltb 0 x && all_present xs

unfoldable pub expanded : ℕ → Option (LocalSet × List ℕ) → Option LocalSet
expanded current_size none = none
expanded current_size (some (s, new_queue)) =
    if lower_index (pos 0) (pos current_size) && all_present (take current_size new_queue)
    then some (record { queue = new_queue; head = pos 0; tail = pos current_size })
    else none

unfoldable pub expand : LocalSet → Option LocalSet
expand s = expanded (size s) (copy_to_new s (replicate (length s.queue * 2) 0) (size s))

-- Room for one more packet.
unfoldable pub make_room : LocalSet → Option LocalSet
make_room s = if size s == length s.queue - 1 then expand s else some s

unfoldable pub put_at_bot : ℕ → Option LocalSet → Option LocalSet
put_at_bot packet none = none
put_at_bot packet (some s) = some (record s {
  queue = set s.queue (get_position (length s.queue) s.tail) packet;
  tail = next_index s.tail;
})

unfoldable pub put_at_top : ℕ → Option LocalSet → Option LocalSet
put_at_top packet none = none
put_at_top packet (some s) = some (record s {
  queue = set s.queue (get_position (length s.queue) (previous_index s.head)) packet;
  head = previous_index s.head;
})

unfoldable pub push_to_bot : LocalSet → ℕ → Option LocalSet
push_to_bot s packet = if ltb 0 packet then put_at_bot packet (make_room s) else none

unfoldable pub push_to_top : LocalSet → ℕ → Option LocalSet
push_to_top s packet = if ltb 0 packet then put_at_top packet (make_room s) else none

-- A null pointer in the queue fails the assertion of a pop.
unfoldable pub present : LocalSet → ℕ → Option (LocalSet × ℕ)
present s packet = if ltb 0 packet then some (s, packet) else none

-- The null pointer is returned when the set is empty.
unfoldable pub pop_from_top : LocalSet → Option (LocalSet × ℕ)
pop_from_top s =
    if same_index s.head s.tail
    then some (s, 0)
    else if lower_index s.head s.tail
    then present (record s { head = next_index s.head })
        (get_or s.queue (get_position (length s.queue) s.head) 0)
    else none

unfoldable pub pop_from_bot : LocalSet → Option (LocalSet × ℕ)
pop_from_bot s =
    if same_index s.head s.tail
    then some (s, 0)
    else if lower_index s.head s.tail
    then present (record s { tail = previous_index s.tail })
        (get_or s.queue (get_position (length s.queue) (previous_index s.tail)) 0)
    else none
