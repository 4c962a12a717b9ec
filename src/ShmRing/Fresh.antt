-- ===== src/ShmRing/Fresh.antt =====
-- The attachment check `is_consistent_empty` against `initialize`.
use native.Mathlib.Nat.{zero-mod}
use mathlib.Core.Logic.{◌↔◌}
use lci.Base.{ℕ, zero, suc, ◌<◌, ◌≡◌, refl, sym, ◌∙◌, true, arith, ℕ_discrete}
use lci.ShmRing.{
  Ring, View, initialize_at, is_consistent_empty, slots_fresh, encode_sequence, reusable,
}
use lci.ShmRing.Invariant.{IsGeometry, word, start-word}

slots_fresh_sound :
    (n : ℕ) (r : Ring)
    → slots_fresh n r ≡ true
    → (i : ℕ) → i < n
    → word r i ≡ encode_sequence i reusable
unfolding slots_fresh
slots_fresh_sound zero r h i lt = elim lt [ ]
slots_fresh_sound (suc n) r h i lt = elim (ℕ_discrete i n) [
  | yes e ↦ ground arith
  | no ne ↦ slots_fresh_sound n r (ground arith) i (omega arith)
]

slots_fresh_complete :
    (n : ℕ) (r : Ring)
    → ((i : ℕ) → i < n → word r i ≡ encode_sequence i reusable)
    → slots_fresh n r ≡ true
unfolding slots_fresh
slots_fresh_complete zero r h = refl
slots_fresh_complete (suc n) r h =
    ground (arith, h n, slots_fresh_complete n r (λ i lt. h i (omega arith)))

module _ {v : View} {k : ℕ} (g : IsGeometry v k) where
  fresh_word : (i : ℕ) → i < v.slot_count → word (initialize_at v 0) i ≡ encode_sequence i reusable
  unfolding encode_sequence
  fresh_word i lt =
      start-word g 0 i (omega (arith, g.encodable)) lt
      ∙ ground (arith, zero-mod v.slot_count, g.encodable)

  -- The check accepts exactly the rings whose two positions are 0 and whose slot words are those that
  -- `initialize` writes, whatever the other fields of the slots hold; it accepts what `initialize`
  -- leaves.
  pub is_consistent_empty_exact :
      (r : Ring)
      → ((is_consistent_empty v r ≡ true) ↔ (
          (r.producer_position ≡ 0)
          × (r.consumer_position ≡ 0)
          × ((i : ℕ) → i < v.slot_count → word r i ≡ word (initialize_at v 0) i)))
        × (is_consistent_empty v (initialize_at v 0) ≡ true)
  unfolding is_consistent_empty
  is_consistent_empty_exact r = (
    (
      λ h. (
        ground arith,
        ground arith,
        λ i lt. slots_fresh_sound v.slot_count r (ground arith) i lt ∙ sym (fresh_word i lt),
      ),
      λ h. complete r h.0 h.1 h.2,
    ),
    complete (initialize_at v 0) (unfold initialize_at in refl) (unfold initialize_at in refl)
        (λ i lt. refl),
  )
    where
      complete :
          (q : Ring)
          → q.producer_position ≡ 0
          → q.consumer_position ≡ 0
          → ((i : ℕ) → i < v.slot_count → word q i ≡ word (initialize_at v 0) i)
          → is_consistent_empty v q ≡ true
      complete q p c h =
          ground (arith, slots_fresh_complete v.slot_count q (λ i lt. h i lt ∙ fresh_word i lt))
