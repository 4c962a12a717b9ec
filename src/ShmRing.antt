-- ===== src/ShmRing.antt =====
-- The shared-memory ring of src/shm/ring.hpp and src/shm/ring.cpp: its memory, its geometry and the
-- arithmetic of positions and sequence words. `ShmRing.Machine` runs its operations one shared
-- access at a time; the modules below state what holds in every interleaving.
pub mod Geometry
pub mod Machine
pub mod System
pub mod Invariant
pub mod Safety
pub mod Delivery
pub mod Solo
pub mod Fresh
mod Tests
use Prim.Native.Nat.{bit_and}
use lci.Base.{
  ℕ, ◌+◌, ◌-◌, ◌*◌, ◌/◌, ◌%◌, ◌^◌, Bool, true, false, ◌&&◌, ◌||◌, not, Option, none, some, List, [],
  ◌++◌, if◌then◌else◌, ltb, leb, ◌==◌, update, take, drop, length,
}
use lci.Base.Int.{ℤ, negsuc, is_negative}

-- `slot_header_t` with the payload bytes behind it.
pub record Slot : Type 0 where
  pub sequence : ℕ
  pub payload_size : ℕ
  pub imm_data : ℕ
  pub source_global_rank : ℤ
  pub payload : List ℕ

-- The mapped region: the two position words and the slots, by index.
pub record Ring : Type 0 where
  pub producer_position : ℕ
  pub consumer_position : ℕ
  pub slot : ℕ → Slot

-- The process-local fields of `ring_t`.
pub record View : Type 0 where
  pub slot_count : ℕ
  pub slot_size : ℕ
  pub producer_cas_attempts : ℕ
  pub consumer_cas_attempts : ℕ

abbrev pub maximum_position : ℕ
maximum_position = 2 ^ 63 - 1

-- sizeof(slot_header_t): a 64-bit word, three 32-bit fields, padding to eight bytes.
abbrev pub header_size : ℕ
header_size = 24

abbrev pub size_max : ℕ
size_max = 2 ^ 64 - 1

unfoldable pub is_power_of_two : ℕ → Bool
is_power_of_two value = not (value == 0) && (bit_and value (value - 1) == 0)

-- 0 for a geometry that is refused.
unfoldable pub required_size : ℕ → ℕ → ℕ → ℕ
unfolding is_power_of_two
required_size cache_line slot_count slot_size =
    if not (is_power_of_two slot_count)
      || ltb maximum_position slot_count
      || ltb slot_size header_size
      || not (slot_size % cache_line == 0)
      || ltb (2 ^ 32 - 1) (slot_size - header_size)
      || ltb ((size_max - 2 * cache_line) / slot_size) slot_count
    then 0
    else 2 * cache_line + slot_count * slot_size

unfoldable pub payload_capacity : ℕ → ℕ
payload_capacity slot_size = if leb header_size slot_size then slot_size - header_size else 0

abbrev pub max_payload_size : View → ℕ
max_payload_size v = payload_capacity v.slot_size

pub data SlotState : Type 0 where
  reusable published : SlotState

abbrev pub state_bit : SlotState → ℕ
state_bit reusable = 0
state_bit published = 1

-- `(position << 1) | state` in 64 bits; the low bit of the shifted word is clear.
unfoldable pub encode_sequence : ℕ → SlotState → ℕ
encode_sequence position state = position * 2 % 2 ^ 64 + state_bit state

-- `slot_at`: the index of the slot of a position.
unfoldable pub slot_index : View → ℕ → ℕ
slot_index v position = bit_and position (v.slot_count - 1)

-- `position - slot_count` in 64 bits.
unfoldable pub previous_generation : View → ℕ → ℕ
previous_generation v position = (position + 2 ^ 64 - v.slot_count) % 2 ^ 64

unfoldable pub is_previous_generation : View → ℕ → ℕ → Bool
unfolding previous_generation encode_sequence
is_previous_generation v sequence position =
    if ltb position v.slot_count
    then false
    else (sequence == encode_sequence (previous_generation v position) reusable)
      || (sequence == encode_sequence (previous_generation v position) published)

-- `initialize_at`: slot `i` gets the first position at or after the initial one that maps to it.
unfoldable pub initialize_at : View → ℕ → Ring
unfolding encode_sequence
initialize_at v initial_position = record {
  producer_position = initial_position;
  consumer_position = initial_position;
  slot = λ i. record {
    sequence =
        encode_sequence
          (initial_position
            + bit_and (i + 2 ^ 64 - bit_and initial_position (v.slot_count - 1)) (v.slot_count - 1))
          reusable;
    payload_size = 0;
    imm_data = 0;
    source_global_rank = negsuc 0;
    payload = [];
  };
}

-- What `initialize_at` asserts of the initial position; `slot_count` is positive there.
unfoldable pub initial_position_accepted : View → ℕ → Bool
initial_position_accepted v p =
    leb p maximum_position && leb p (maximum_position - (v.slot_count - 1))

slots_fresh : ℕ → Ring → Bool
unfolding encode_sequence
slots_fresh ℕ.zero r = true
slots_fresh (ℕ.suc n) r = ((r.slot n).sequence == encode_sequence n reusable) && slots_fresh n r

unfoldable pub is_consistent_empty : View → Ring → Bool
unfolding slots_fresh
is_consistent_empty v r =
    (r.producer_position == 0) && (r.consumer_position == 0) && slots_fresh v.slot_count r

-- `producer - consumer` in 64 bits, at most the capacity.
unfoldable pub recv_available_approx : View → Ring → ℕ
recv_available_approx v r =
    let available = (r.producer_position + 2 ^ 64 - r.consumer_position) % 2 ^ 64 in
    if ltb v.slot_count available then v.slot_count else available

-- A store into one slot.
unfoldable pub put_slot : Ring → ℕ → Slot → Ring
put_slot r i s = record r { slot = update r.slot i s }

-- `memcpy` of `n` bytes over the start of a payload area.
unfoldable pub copy_bytes : ℕ → List ℕ → List ℕ → List ℕ
copy_bytes n from into = take n from ++ drop n into
