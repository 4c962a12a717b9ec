-- ===== src/ShmRing/Invariant.antt =====
-- The invariant of the ring: which slot holds which generation, and what each thread may assume.
mod Defs
pub mod Effects
mod Access
mod Preserved
pub use Defs.*
pub use Effects.{Effect, slot_count_pos, slot_index-mod}
pub use Access.{
  Advance, generation_near, at_slot, fill-Carries, head_word, tail_word, sendable_sound,
  claimed-Carries,
}
pub use Preserved.{Inv, Move-Advance, start-word, Step-Inv, start-Inv, Reach-Inv}
