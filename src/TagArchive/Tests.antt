-- ===== src/TagArchive/Tests.antt =====
-- The archive's theorems at an archive of one bit with one value in it.
use lci.Base.{ℕ, ◌≡◌, refl, none, some, arith, ◌==◌, if◌then◌else◌}
use lci.TagArchive.{Archive, empty_value, insert, insert_from, mask, capacity, remove, peek}
use lci.TagArchive.Tags
use lci.TagArchive.Tags.{IsStored}

-- Slot 1 is taken, and the next search starts there.
abbrev one_taken : Archive
one_taken = record { tag_bits = 1; slots = λ i. if i == 1 then 70 else empty_value; next_slot = 3 }

insert-IsStored_example : IsStored one_taken 71 (insert one_taken 71)
insert-IsStored_example =
    Tags.insert-IsStored one_taken 71 0 (omega arith) (ground arith)
      (unfold lci.TagArchive.capacity in omega arith) refl

-- Slot 0 is free, one slot behind the start.
abbrev both_taken : Archive
both_taken = record {
  tag_bits = 1;
  slots = λ i. if 0 == i then 71 else (if i == 1 then 70 else empty_value);
  next_slot = 4;
}

takes_slot_0 : insert one_taken 71 ≡ some (0, both_taken)
unfolding insert insert_from mask capacity
takes_slot_0 = refl

insert-remove_example :
    (peek both_taken 0 ≡ some 71)
    × (rest : Archive) × (remove both_taken 0 ≡ some (71, rest))
    × ((i : ℕ) → rest.slots i ≡ one_taken.slots i)
    × (remove rest 0 ≡ none)
insert-remove_example = Tags.insert-remove one_taken 71 0 both_taken takes_slot_0
