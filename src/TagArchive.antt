-- ===== src/TagArchive.antt =====
-- src/data_structure/imm_tag_archive.hpp: values of 64 bits kept under a tag of at most 16 bits.
use Prim.Native.Nat.{bit_and}
use lci.Base.{
  ℕ, zero, suc, ◌+◌, ◌-◌, ◌%◌, ◌^◌, Bool, true, false, ◌&&◌, not, Option, none, some, if◌then◌else◌,
  ltb, leb, ◌==◌, update,
}
pub mod Tags
pub mod Tests

-- `empty_value()`.
abbrev pub empty_value : ℕ
empty_value = 2 ^ 64 - 1

pub record Archive : Type 0 where
  pub tag_bits : ℕ
  pub slots : ℕ → ℕ
  pub next_slot : ℕ

unfoldable pub capacity : Archive → ℕ
capacity a = 2 ^ a.tag_bits

unfoldable pub mask : Archive → ℕ
unfolding capacity
mask a = capacity a - 1

-- The constructor, with its assertion.
unfoldable pub create : ℕ → Option Archive
create tag_bits =
    if ltb 0 tag_bits && leb tag_bits 16
    then some (record { tag_bits = tag_bits; slots = λ i. empty_value; next_slot = 0 })
    else none

-- The loop of `insert` from step `i`, with the steps that are left; `none` is the failed assertion
-- behind it.
unfoldable pub insert_from : Archive → ℕ → ℕ → ℕ → ℕ → Option (ℕ × Archive)
unfolding mask
insert_from a value start i zero = none
insert_from a value start i (suc left) =
    let idx = bit_and ((start + i) % 2 ^ 32) (mask a) in
    let rest = insert_from a value start (suc i) left in
    if a.slots idx == empty_value
    then some (idx, record a { slots = update a.slots idx value })
    else rest

unfoldable pub insert : Archive → ℕ → Option (ℕ × Archive)
unfolding insert_from mask capacity
insert a value =
    if value == empty_value
    then none
    else insert_from (record a { next_slot = (a.next_slot + 1) % 2 ^ 32 }) value
        (bit_and a.next_slot (mask a)) 0 (capacity a)

unfoldable pub remove : Archive → ℕ → Option (ℕ × Archive)
unfolding capacity
remove a tag =
    if not (ltb tag (capacity a))
    then none
    else if a.slots tag == empty_value
    then none
    else some (a.slots tag, record a { slots = update a.slots tag empty_value })

unfoldable pub peek : Archive → ℕ → Option ℕ
unfolding capacity
peek a tag = if ltb tag (capacity a) then some (a.slots tag) else none

unfoldable pub clear : Archive → Archive
clear a = record a { slots = λ i. empty_value; next_slot = 0 }
