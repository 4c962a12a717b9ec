-- ===== src/Matching/Key/Injective.antt =====
-- Keys of a matching engine that compares rank and tag: no two pairs share one.
use Prim.Native.Nat.{bit_and, bit_or}
use lci.Base.{
  ℕ, ◌+◌, ◌-◌, ◌*◌, ◌%◌, ◌^◌, ◌<◌, ◌≡◌, refl, sym, ap, subst, ◌∙◌, Option, none, some, arith,
}
use lci.Base.Fields.{clear_and_set}
use lci.Matching.Key.{Policy, set_bits64, then_set, make_key}

-- Setting a field of 64 bits changes this field and no other bit.
set_bits64_lem :
    (o w k l v h val : ℕ)
    → o + w + k ≡ 64
    → l < 2 ^ o
    → v < 2 ^ w
    → h < 2 ^ k
    → val < 2 ^ w
    → set_bits64 (l + 2 ^ o * (v + 2 ^ w * h)) val w o ≡ some (l + 2 ^ o * (val + 2 ^ w * h))
unfolding set_bits64
set_bits64_lem o w k l v h val e hl hv hh hval = ground (arith, cleared)
  where
    cleared :
        bit_or
          (bit_and (l + 2 ^ o * (v + 2 ^ w * h)) (2 ^ 64 - 1 - ((2 ^ w - 1) * 2 ^ o) % 2 ^ 64))
          ((bit_and val (2 ^ w - 1) * 2 ^ o) % 2 ^ 64)
        ≡ l + 2 ^ o * (val + 2 ^ w * h)
    cleared =
        subst
          (λ n.
            bit_or
              (bit_and (l + 2 ^ o * (v + 2 ^ w * h)) (2 ^ n - 1 - ((2 ^ w - 1) * 2 ^ o) % 2 ^ n))
              ((bit_and val (2 ^ w - 1) * 2 ^ o) % 2 ^ n)
            ≡ l + 2 ^ o * (val + 2 ^ w * h))
          e (clear_and_set o w k l v h val hl hv hh hval)

-- The rank is the upper half of the key and the tag the lower.
make_key_halves :
    (rank tag : ℕ)
    → rank < 2 ^ 32
    → tag < 2 ^ 32
    → make_key rank tag Policy.rank_tag ≡ some (tag + 2 ^ 32 * rank)
unfolding make_key then_set
make_key_halves rank tag hr ht =
    ap (λ o. then_set o tag 32 0)
      (set_bits64_lem 32 32 0 0 0 0 rank refl (omega arith) (omega arith) (omega arith) hr)
    ∙ ap (λ f. set_bits64 f tag 32 0) {x = 0 + 2 ^ 32 * (rank + 2 ^ 32 * 0)}
        {y = 0 + 2 ^ 0 * (0 + 2 ^ 32 * rank)} (omega arith)
    ∙ set_bits64_lem 0 32 32 0 0 rank tag refl (omega arith) (omega arith) hr ht
    ∙ ap (λ n. some n) (omega arith)

value_or_zero : Option ℕ → ℕ
value_or_zero none = 0
value_or_zero (some key) = key

-- Under the policy that looks at rank and tag, two pairs that fit 32 bits each and get the same key
-- are the same pair.
pub make_key_injective :
    (rank tag rank' tag' : ℕ)
    → rank < 2 ^ 32
    → tag < 2 ^ 32
    → rank' < 2 ^ 32
    → tag' < 2 ^ 32
    → make_key rank tag Policy.rank_tag ≡ make_key rank' tag' Policy.rank_tag
    → (rank ≡ rank') × (tag ≡ tag')
unfolding value_or_zero
make_key_injective rank tag rank' tag' hr ht hr' ht' same =
    (omega (arith, halves), omega (arith, halves))
  where
    halves : tag + 2 ^ 32 * rank ≡ tag' + 2 ^ 32 * rank'
    halves =
        ap value_or_zero
          (sym (make_key_halves rank tag hr ht) ∙ same ∙ make_key_halves rank' tag' hr' ht')
