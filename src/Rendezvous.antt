-- ===== src/Rendezvous.antt =====
-- How the rendezvous protocol splits a message: `handle_rdv_rtr` of src/core/rendezvous.hpp.
use lci.Base.{
  ℕ, zero, suc, ◌+◌, ◌-◌, ◌/◌, ◌%◌, ◌^◌, min, Bool, ◌&&◌, List, [], ◌∷◌, if◌then◌else◌, ltb, leb,
}
use lci.Base.Int.{ℤ, pos, negsuc}
pub mod Chunks
pub mod Tests

-- One put of the loop: where it starts, its length, and whether it carries the immediate data.
pub record Chunk : Type 0 where
  pub offset : ℕ
  pub length : ℕ
  pub write_imm : Bool

-- A `size_t` stored in a 32-bit `int`.
unfoldable pub to_int : ℕ → ℤ
to_int n = if ltb (n % 2 ^ 32) (2 ^ 31) then pos (n % 2 ^ 32) else negsuc (2 ^ 32 - n % 2 ^ 32 - 1)

-- The completions that the sender waits for: a quotient of `size_t` in an `std::atomic<int>`.
unfoldable pub signal_count : ℕ → ℕ → ℤ
unfolding to_int
signal_count size max_single = to_int ((size + max_single + 2 ^ 64 - 1) % 2 ^ 64 / max_single)

-- The loop from `offset` on, with `fuel` more rounds at most, in the arithmetic of `size_t`.
unfoldable pub chunks_from : ℕ → Bool → ℕ → ℕ → ℕ → List Chunk
chunks_from zero use_writeimm size max_single offset = []
chunks_from (suc fuel) use_writeimm size max_single offset =
    let rest = chunks_from fuel use_writeimm size max_single ((offset + max_single) % 2 ^ 64) in
    let length = min (size - offset) max_single in
    if leb size offset
    then []
    else record {
      offset = offset;
      length = length;
      write_imm = use_writeimm && leb size ((offset + length) % 2 ^ 64);
    }
      ∷ rest

-- The loop; a round for each byte is enough while the offsets do not wrap around, since no round
-- sends nothing.
unfoldable pub chunks : Bool → ℕ → ℕ → List Chunk
unfolding chunks_from
chunks use_writeimm size max_single = chunks_from size use_writeimm size max_single 0
