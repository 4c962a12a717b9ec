-- ===== src/TagArchive/Tags.antt =====
-- Which tags `insert` gives out, and that a value comes back under its tag.
use Prim.Native.Nat.{bit_and}
use mathlib.Core.Option.{some-injective, none-ne-some}
use native.Mathlib.Nat.{mod-eq_of_lt, mod-lt, add-mod_right}
use lci.Base.{
  ℕ, zero, suc, ◌+◌, ◌-◌, ◌%◌, ◌^◌, ◌≤◌, ◌<◌, ◌≡◌, refl, ◌≢◌, sym, ap, ◌∙◌, true, false, subst,
  Option, none, some, ltb, ◌==◌, ==→eq, ==_refl, ==_ne, update, arith, Bool-cases, inl, inr, dec_le,
  ◌*◌,
}
use lci.Base.BitOps.{bit_and-mask, pow-two_pos, pow-add}
use lci.TagArchive.{Archive, capacity, mask, empty_value, insert, insert_from, remove, peek}

-- What a successful insertion did.
pub record IsStored (a : Archive) (value : ℕ) (out : Option (ℕ × Archive)) : Type 0 where
  pub tag : ℕ
  pub after : Archive
  pub returns : out ≡ some (tag, after)
  pub in_range : tag < capacity a
  pub was_free : a.slots tag ≡ empty_value
  pub same_bits : after.tag_bits ≡ a.tag_bits
  pub stored : (i : ℕ) → after.slots i ≡ update a.slots tag value i

index : Archive → ℕ → ℕ → ℕ
index a start i = bit_and ((start + i) % 2 ^ 32) (mask a)

masked_bounds : (a : Archive) (n : ℕ) → bit_and n (mask a) < capacity a
unfolding mask capacity
masked_bounds a n = rw (bit_and-mask a.tag_bits n) (mod-lt n (pow-two_pos a.tag_bits))

index_bounds : (a : Archive) (start i : ℕ) → index a start i < capacity a
unfolding index mask capacity
index_bounds a start i =
    rw (bit_and-mask a.tag_bits ((start + i) % 2 ^ 32))
      (mod-lt ((start + i) % 2 ^ 32) (pow-two_pos a.tag_bits))

contradiction : (x y : ℕ) → x ≡ y → ¬ ((x == y) ≡ false)
contradiction x y e h = ground arith

pow_bounds : (k : ℕ) → k ≤ 16 → 2 ^ k ≤ 2 ^ 16
pow_bounds k le =
    rw (ap (λ n. 2 ^ n) {x = 16} {y = k + (16 - k)} (omega arith) ∙ pow-add k (16 - k))
      (ground (arith, at_least (2 ^ k) (2 ^ (16 - k)) (pow-two_pos (16 - k))))
  where
    at_least : (x y : ℕ) → 0 < y → x ≤ x * y
    at_least x zero h = absurd (omega arith)
    at_least x (suc y) h = omega arith

index-mod :
    (a : Archive) (start n : ℕ) → start + n < 2 ^ 32 → index a start n ≡ (start + n) % capacity a
unfolding index mask capacity
index-mod a start n lt =
    bit_and-mask a.tag_bits ((start + n) % 2 ^ 32) ∙ ap (λ x. x % 2 ^ a.tag_bits) (mod-eq_of_lt lt)

-- The loop stops at a free slot when one of its steps reaches one.
insert_from_lem :
    (a : Archive) (value start i left n : ℕ)
    → i ≤ n
    → n < i + left
    → a.slots (index a start n) ≡ empty_value
    → IsStored a value (insert_from a value start i left)
unfolding insert_from index
insert_from_lem a value start i zero n le lt free = absurd (omega arith)
insert_from_lem a value start i (suc left) n le lt free =
    let rest = insert_from_lem a value start (suc i) left n in
    elim (Bool-cases (a.slots (index a start i) == empty_value)) [
      | inl here ↦ rw (here) (record {
        tag = index a start i;
        after = record a { slots = update a.slots (index a start i) value };
        returns = refl;
        in_range = index_bounds a start i;
        was_free = ==→eq (a.slots (index a start i)) empty_value here;
        same_bits = refl;
        stored = λ j. refl;
      })
      | inr taken ↦ rw (taken) (rest (later taken) (omega arith) free)
    ]
  where
    later : (a.slots (index a start i) == empty_value) ≡ false → suc i ≤ n
    later taken = elim (dec_le (suc i) n) [
      | yes more ↦ more
      | no same ↦ absurd (
          contradiction (a.slots (index a start i)) empty_value
            (ap (λ k. a.slots (index a start k)) {x = i} {y = n} (omega arith) ∙ free) taken)
    ]

-- From every start the steps reach every slot.
reach_slot :
    (a : Archive) (start j : ℕ)
    → a.tag_bits ≤ 16
    → start < capacity a
    → j < capacity a
    → (n : ℕ) × (n < capacity a) × (index a start n ≡ j)
unfolding capacity
reach_slot a start j small s_lt j_lt = elim (dec_le start j) [
  | yes le ↦ (
    j - start,
    omega arith,
    index-mod a start (j - start) (omega (arith, room))
        ∙ ap (λ x. x % capacity a) {x = start + (j - start)} {y = j} (omega arith)
        ∙ mod-eq_of_lt j_lt,
  )
  | no gt ↦ (
    j + capacity a - start,
    omega (arith, s_lt),
    index-mod a start (j + capacity a - start) (omega (arith, room))
        ∙ ap (λ x. x % capacity a) {x = start + (j + capacity a - start)} {y = j + capacity a}
            (omega (arith, s_lt))
        ∙ add-mod_right j (capacity a)
        ∙ mod-eq_of_lt j_lt,
  )
]
  where
    room : 2 ^ a.tag_bits ≤ 2 ^ 16
    room = pow_bounds a.tag_bits small

-- Moving the start of the next search does not matter to what was stored.
restart :
    (a : Archive) (value n : ℕ) (out : Option (ℕ × Archive))
    → IsStored (record a { next_slot = n }) value out
    → IsStored a value out
unfolding capacity
restart a value n out s = record {
  tag = s.tag;
  after = s.after;
  returns = s.returns;
  in_range = s.in_range;
  was_free = s.was_free;
  same_bits = s.same_bits;
  stored = s.stored;
}

-- An archive of at most 16 bits with a free slot takes any value but the empty one: `insert`
-- returns a tag in range whose slot was free, stores the value there and changes no other slot.
pub insert-IsStored :
    (a : Archive) (value j : ℕ)
    → a.tag_bits ≤ 16
    → value ≢ empty_value
    → j < capacity a
    → a.slots j ≡ empty_value
    → IsStored a value (insert a value)
unfolding insert mask capacity
insert-IsStored a value j small real j_lt free = rw (==_ne value empty_value real) (
    restart a value ((a.next_slot + 1) % 2 ^ 32) _ (
      insert_from_lem moved value (bit_and a.next_slot (mask a)) 0 (capacity a) reached.0
        (omega arith) (omega (arith, reached.1)) (ap a.slots reached.2 ∙ free)))
  where
    moved : Archive
    moved = record a { next_slot = (a.next_slot + 1) % 2 ^ 32 }

    reached : (n : ℕ) × (n < capacity moved) × (index moved (bit_and a.next_slot (mask a)) n ≡ j)
    reached =
        reach_slot moved (bit_and a.next_slot (mask a)) j small (masked_bounds moved a.next_slot)
          j_lt

-- What the loop returns: a free slot, and the archive with the value in it.
insert_from_found :
    (a : Archive) (value start i left tag : ℕ) (after : Archive)
    → insert_from a value start i left ≡ some (tag, after)
    → (tag < capacity a)
      × (a.slots tag ≡ empty_value)
      × (after ≡ record a { slots = update a.slots tag value })
unfolding insert_from index
insert_from_found a value start i zero tag after e = absurd (none-ne-some (tag, after) e)
insert_from_found a value start i (suc left) tag after e =
    elim (Bool-cases (a.slots (index a start i) == empty_value)) [
      | inl here ↦
          let found = some-injective _ _ (rw here at e) in
          let tag_is : index a start i ≡ tag = ap (λ p. p.0) found in
          (
            subst (λ t. t < capacity a) tag_is (index_bounds a start i),
            subst (λ t. a.slots t ≡ empty_value) tag_is
                (==→eq (a.slots (index a start i)) empty_value here),
            sym (ap (λ p. p.1) found)
                ∙ ap (λ t. record a { slots = update a.slots t value }) tag_is,
          )
      | inr taken ↦ insert_from_found a value start (suc i) left tag after (rw taken at e)
    ]

-- The same of `insert`, which refuses the empty value.
insert_found :
    (a : Archive) (value tag : ℕ) (after : Archive)
    → insert a value ≡ some (tag, after)
    → (value ≢ empty_value)
      × (tag < capacity a)
      × (a.slots tag ≡ empty_value)
      × (after
          ≡ record a { slots = update a.slots tag value; next_slot = (a.next_slot + 1) % 2 ^ 32 })
unfolding insert mask capacity
insert_found a value tag after e = elim (Bool-cases (value == empty_value)) [
  | inl refused ↦ absurd (none-ne-some (tag, after) (rw refused at e))
  | inr real ↦
      let moved : Archive = record a { next_slot = (a.next_slot + 1) % 2 ^ 32 } in
      let found =
        insert_from_found moved value (bit_and a.next_slot (mask a)) 0 (capacity a) tag after
          (rw real at e) in
      (λ same. contradiction value empty_value same real, found.0, found.1, found.2)
]

-- When `insert` returns a tag, `peek` then shows the value under that tag, and `remove` gives it
-- back, once, and leaves every slot as it was before the insertion.
pub insert-remove :
    (a : Archive) (value tag : ℕ) (after : Archive)
    → insert a value ≡ some (tag, after)
    → (peek after tag ≡ some value)
      × (rest : Archive) × (remove after tag ≡ some (value, rest))
      × ((i : ℕ) → rest.slots i ≡ a.slots i)
      × (remove rest tag ≡ none)
unfolding peek remove capacity
insert-remove a value tag after e =
    let (real, inside, was_free, is) = insert_found a value tag after e in
    subst
      (λ (b : Archive).
        (peek b tag ≡ some value)
        × (rest : Archive) × (remove b tag ≡ some (value, rest))
        × ((i : ℕ) → rest.slots i ≡ a.slots i)
        × (remove rest tag ≡ none))
      (sym is) (there real (in_range inside) was_free)
  where
    stored : Archive
    stored = record a { slots = update a.slots tag value; next_slot = (a.next_slot + 1) % 2 ^ 32 }

    in_range : tag < capacity a → ltb tag (2 ^ a.tag_bits) ≡ true
    in_range h = ground arith

    there :
        value ≢ empty_value
        → ltb tag (2 ^ a.tag_bits) ≡ true
        → a.slots tag ≡ empty_value
        → (peek stored tag ≡ some value)
          × (rest : Archive) × (remove stored tag ≡ some (value, rest))
          × ((i : ℕ) → rest.slots i ≡ a.slots i)
          × (remove rest tag ≡ none)
    there real inside was_free = (
      rw (inside, ==_refl tag) refl,
      record stored { slots = update stored.slots tag empty_value },
      rw (inside, ==_refl tag, ==_ne value empty_value real) refl,
      λ i. elim (Bool-cases (tag == i)) [
        | inl here ↦ rw (here) (sym was_free ∙ ap a.slots (==→eq tag i here))
        | inr other ↦ rw (other) refl
      ],
      rw (inside, ==_refl tag) refl,
    )
