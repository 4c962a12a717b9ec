-- ===== src/Matching.antt =====
-- The matching engines that pair sends with receives: src/matching_engine.
use lci.Base.{ℕ, Bool, true, false}
pub mod Key
pub mod Spec
pub mod ListEngine
pub mod SlotQueue
pub mod Chain
pub mod Insert
pub mod MapEngine
pub mod Agreement
pub mod Tests

-- `matching_entry_type_t`.
pub data EntryType : Type 0 where
  send recv : EntryType

-- The kind of entry that an insertion looks for.
unfoldable pub opposite : EntryType → EntryType
opposite send = recv
opposite recv = send

unfoldable pub same_type : EntryType → EntryType → Bool
same_type send send = true
same_type send recv = false
same_type recv send = false
same_type recv recv = true
