-- ===== src/Matching/Key.antt =====
-- The keys of a matching engine: `make_key` of src/matching_engine/matching_engine.hpp, over
-- `set_bits64` of src/util/misc.hpp.
use Prim.Native.Nat.{bit_and, bit_or}
use lci.Base.{
  ℕ, ◌+◌, ◌-◌, ◌*◌, ◌%◌, ◌^◌, ◌≡◌, refl, Bool, true, false, ◌&&◌, Option, none, some, if◌then◌else◌,
  ltb, leb, arith,
}
pub mod Injective

-- `matching_policy_t`; `any` is its `none`.
pub data Policy : Type 0 where
  any rank_only tag_only rank_tag : Policy

-- The handle under which the engine is registered, for a policy.
unfoldable pub get_rhandler : ℕ → Policy → ℕ
get_rhandler rcomp_base Policy.any = rcomp_base
get_rhandler rcomp_base Policy.rank_only = rcomp_base + 1
get_rhandler rcomp_base Policy.tag_only = rcomp_base + 2
get_rhandler rcomp_base Policy.rank_tag = rcomp_base + 3

-- `none` is a failed assertion; the widths that are used are below 64.
unfoldable pub set_bits64 : ℕ → ℕ → ℕ → ℕ → Option ℕ
set_bits64 flag val width offset =
    let val_mask = 2 ^ width - 1 in
    let flag_mask = (val_mask * 2 ^ offset) % 2 ^ 64 in
    if leb (offset + width) 64 && leb val val_mask
    then some (
        bit_or (bit_and flag (2 ^ 64 - 1 - flag_mask))
          ((bit_and val val_mask * 2 ^ offset) % 2 ^ 64))
    else none

unfoldable pub then_set : Option ℕ → ℕ → ℕ → ℕ → Option ℕ
unfolding set_bits64
then_set none val width offset = none
then_set (some key) val width offset = set_bits64 key val width offset

-- A rank is passed as an unsigned number of 64 bits.
unfoldable pub make_key : ℕ → ℕ → Policy → Option ℕ
unfolding set_bits64 then_set
make_key rank tag Policy.any = some 0
make_key rank tag Policy.rank_only = set_bits64 0 rank 32 0
make_key rank tag Policy.tag_only = set_bits64 0 tag 32 0
make_key rank tag Policy.rank_tag = then_set (set_bits64 0 rank 32 32) tag 32 0

unfoldable pub is_made : Option ℕ → Bool
is_made none = false
is_made (some key) = true

-- The parts of a key that the policy uses fit 32 bits.
unfoldable pub fits : ℕ → ℕ → Policy → Bool
fits rank tag Policy.any = true
fits rank tag Policy.rank_only = ltb rank (2 ^ 32)
fits rank tag Policy.tag_only = ltb tag (2 ^ 32)
fits rank tag Policy.rank_tag = ltb rank (2 ^ 32) && ltb tag (2 ^ 32)

below : (n : ℕ) → leb n (2 ^ 32 - 1) ≡ ltb n (2 ^ 32)
below n = ground arith

-- A key is made, and no assertion fails, exactly when the rank fits 32 bits, if the policy looks at
-- ranks, and the tag fits 32 bits, if it looks at tags.
pub make_key_complete :
    (rank tag : ℕ) (policy : Policy) → is_made (make_key rank tag policy) ≡ fits rank tag policy
unfolding make_key fits is_made set_bits64 then_set
make_key_complete rank tag Policy.any = refl
make_key_complete rank tag Policy.rank_only = ground (arith, below rank)
make_key_complete rank tag Policy.tag_only = ground (arith, below tag)
make_key_complete rank tag Policy.rank_tag = ground (arith, below rank, below tag)
