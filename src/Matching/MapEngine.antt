-- ===== src/Matching/MapEngine.antt =====
-- `matching_engine_map_t` of src/matching_engine/matching_engine_map.hpp: a table of bucket chains
-- under a hash of the key.
use Prim.Native.Nat.{bit_and, bit_xor}
use lci.Base.{
  ℕ, ◌-◌, ◌*◌, ◌/◌, ◌%◌, ◌^◌, ◌<◌, ◌≡◌, refl, ◌≢◌, sym, ap, ◌∙◌, List, [], ◌∷◌, ◌==◌, Bool-cases,
  inl, inr, update, ==_refl, ==_ne, ℕ_discrete,
}
use lci.Base.BitOps.{bit_and-mask, pow-two_pos}
use native.Mathlib.Nat.{mod-lt}
use lci.Matching.{EntryType, opposite}
use lci.Matching.Spec.{Pending, Engine, match_entry, match_with, assign}
use lci.Matching.Chain.{Chain, insert_chain, fresh_bucket, bucket_num_queues_default}
use lci.Matching.Chain.Alone.{flat, waiting, AllAlone}
use lci.Matching.Insert.{IsInserted, insert_chain_lem, fresh_alone}

abbrev pub table_bit_size : ℕ
table_bit_size = 16

-- One round of the hash, on 32-bit words.
unfoldable pub hash_round : ℕ → ℕ → ℕ
hash_round byte hash = (bit_xor byte hash * 16777619) % 2 ^ 32

unfoldable pub byte_at : ℕ → ℕ → ℕ
byte_at k i = bit_and (k / 2 ^ (8 * i)) 255

unfoldable pub hash_fn : ℕ → ℕ
unfolding hash_round byte_at
hash_fn k =
    let hash0 = hash_round (byte_at k 0) 2166136261 in
    let hash1 = hash_round (byte_at k 1) hash0 in
    let hash2 = hash_round (byte_at k 2) hash1 in
    let hash3 = hash_round (byte_at k 3) hash2 in
    let hash4 = hash_round (byte_at k 4) hash3 in
    let hash5 = hash_round (byte_at k 5) hash4 in
    let hash6 = hash_round (byte_at k 6) hash5 in
    let hash7 = hash_round (byte_at k 7) hash6 in
    bit_and (bit_xor (hash7 / 2 ^ table_bit_size) hash7) (2 ^ table_bit_size - 1)

-- `TABLE_NUM_MASTER_BUCKETS` chains; only the indices that `hash_fn` gives are used.
abbrev pub Table : Type 0
Table = ℕ → Chain

abbrev pub fresh_table : Table
fresh_table i = fresh_bucket bucket_num_queues_default ∷ []

unfoldable pub insert : Table → ℕ → ℕ → EntryType → ℕ × Table
unfolding insert_chain
insert table key v t =
    let out = insert_chain (table (hash_fn key)) key v t in
    (out.0, update table (hash_fn key) out.1)

unfoldable pub held : Table → Pending
held table k u = waiting (flat (table (hash_fn k))) k u

abbrev pub IsValid : Table → Type 0
IsValid table = (i : ℕ) → AllAlone (flat (table i))

-- The hash of every key is below 2^16, the number of master buckets.
pub hash_fn_bounds : (k : ℕ) → hash_fn k < 2 ^ 16
unfolding hash_fn
hash_fn_bounds k = masked _
  where
    masked : (x : ℕ) → bit_and x (2 ^ 16 - 1) < 2 ^ 16
    masked x = rw (bit_and-mask 16 x) (mod-lt x (pow-two_pos 16))

pub fresh_table-IsValid : IsValid fresh_table
unfolding flat
fresh_table-IsValid i = fresh_alone 3

pub insert-IsValid :
    (table : Table) (key v : ℕ) (t : EntryType)
    → IsValid table
    → v ≢ 0
    → IsValid (insert table key v t).1
unfolding insert
insert-IsValid table key v t valid ne i = elim (Bool-cases (hash_fn key == i)) [
  | inl here ↦
      rw (here) (insert_chain_lem (table (hash_fn key)) key v t (valid (hash_fn key)) ne).alone
  | inr other ↦ rw (other) (valid i)
]

-- An insertion reads and writes what its key has.
match_result_local :
    (xs : List ℕ) (p q : Pending) (key v : ℕ) (t : EntryType)
    → (match_with xs p key v t).0 ≡ (match_with xs q key v t).0
unfolding match_with
match_result_local [] p q key v t = refl
match_result_local (x ∷ xs) p q key v t = refl

match_pending_local :
    (xs : List ℕ) (p q : Pending) (key v : ℕ) (t : EntryType) (k : ℕ) (u : EntryType)
    → p key t ≡ q key t
    → p k u ≡ q k u
    → (match_with xs p key v t).1 k u ≡ (match_with xs q key v t).1 k u
unfolding match_with assign
match_pending_local [] p q key v t k u own same = rw (own, same) refl
match_pending_local (x ∷ xs) p q key v t k u own same = rw (same) refl

match_other :
    (xs : List ℕ) (p : Pending) (key v : ℕ) (t : EntryType) (k : ℕ) (u : EntryType)
    → k ≢ key
    → (match_with xs p key v t).1 k u ≡ p k u
unfolding match_with assign
match_other [] p key v t k u ne = rw (==_ne k key ne) refl
match_other (x ∷ xs) p key v t k u ne = rw (==_ne k key ne) refl

module _ (table : Table) (key v : ℕ) (t : EntryType) (valid : IsValid table) (ne : v ≢ 0) where
  inserted :
      IsInserted
        (waiting (flat (table (hash_fn key))))
        key
        v
        t
        (insert_chain (table (hash_fn key)) key v t)
  inserted = insert_chain_lem (table (hash_fn key)) key v t (valid (hash_fn key)) ne

  pub insert_result : (insert table key v t).0 ≡ (match_entry (held table) key v t).0
  unfolding insert held match_entry
  insert_result =
      inserted.result
      ∙ match_result_local (held table key (opposite t)) (waiting (flat (table (hash_fn key))))
          (held table) key v t

  pub insert_held :
      (k : ℕ) (u : EntryType)
      → held (insert table key v t).1 k u ≡ (match_entry (held table) key v t).1 k u
  unfolding insert held match_entry
  insert_held k u = elim (ℕ_discrete (hash_fn k) (hash_fn key)) [
    | yes e ↦
        rw (e, ==_refl (hash_fn key))
          (inserted.left k u
            ∙ match_pending_local (held table key (opposite t))
                (waiting (flat (table (hash_fn key)))) (held table) key v t k u refl
                (ap (λ i. waiting (flat (table i)) k u) (sym e)))
    | no other ↦ rw (==_ne (hash_fn key) (hash_fn k) (λ e. other (sym e))) (
        sym (
          match_other (held table key (opposite t)) (held table) key v t k u
            (λ e. other (ap hash_fn e))))
  ]

-- `matching_engine_map_t` keeps the promise.
abbrev pub map_engine : Engine
map_engine = record {
  State = Table;
  insert = insert;
  pending = held;
  IsValid = IsValid;
  insert-IsValid = insert-IsValid;
  insert_result = insert_result;
  insert_pending = insert_held;
}
