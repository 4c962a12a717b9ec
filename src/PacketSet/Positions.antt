-- ===== src/PacketSet/Positions.antt =====
-- The signed indices of a deque: order, distance and the slot of an index.
use native.Mathlib.Nat.{mod-eq_of_lt, mod-lt, mod-add-mod, add-mod_right, mod_self, mod-mod}
use native.Mathlib.Decide.{dec_le}
use lci.Base.{
  ℕ, zero, suc, ◌+◌, ◌-◌, ◌%◌, ◌<◌, ◌≡◌, refl, sym, ap, ◌∙◌, ◌⊎◌, inl, inr, true, false, arith,
  if◌then◌else◌, leb, ==_refl,
}
use lci.Base.Int.{ℤ, pos, negsuc}
use lci.PacketSet.{
  next_index, previous_index, add_index, same_index, lower_index, distance, get_position,
}

pub next_index-previous_index : (i : ℤ) → next_index (previous_index i) ≡ i
unfolding next_index previous_index
next_index-previous_index (pos zero) = refl
next_index-previous_index (pos (suc n)) = ap pos (omega arith)
next_index-previous_index (negsuc n) =
    ap (λ m. next_index (negsuc m)) {x = n + 1} {y = suc n} (omega arith)

pub previous_index-next_index : (i : ℤ) → previous_index (next_index i) ≡ i
unfolding next_index previous_index
previous_index-next_index (pos n) =
    ap (λ m. previous_index (pos m)) {x = n + 1} {y = suc n} (omega arith)
previous_index-next_index (negsuc zero) = refl
previous_index-next_index (negsuc (suc n)) = ap negsuc (omega arith)

pub add_index-next_index : (i : ℤ) (n : ℕ) → add_index i (suc n) ≡ next_index (add_index i n)
unfolding add_index
add_index-next_index i zero = refl
add_index-next_index i (suc n) = add_index-next_index (next_index i) n

-- The index that is `n` above.
abbrev plus : ℤ → ℕ → ℤ
plus (pos a) n = pos (a + n)
plus (negsuc a) n = if leb n a then negsuc (a - n) else pos (n - suc a)

plus-next_index : (i : ℤ) (n : ℕ) → plus (next_index i) n ≡ plus i (suc n)
unfolding next_index
plus-next_index (pos a) n = ap pos (omega arith)
plus-next_index (negsuc zero) n = ground arith
plus-next_index (negsuc (suc a)) n = ground arith

add_index_lem : (i : ℤ) (n : ℕ) → add_index i n ≡ plus i n
unfolding add_index
add_index_lem (pos a) zero = ap pos (omega arith)
add_index_lem (negsuc a) zero = ground arith
add_index_lem i (suc n) = add_index_lem (next_index i) n ∙ plus-next_index i n

pub distance-add_index : (i : ℤ) (n : ℕ) → distance (add_index i n) i ≡ n
unfolding distance
distance-add_index i n = ap (λ j. distance j i) (add_index_lem i n) ∙ above i n
  where
    above : (i : ℤ) (n : ℕ) → distance (plus i n) i ≡ n
    above (pos a) n = ground arith
    above (negsuc a) n = ground arith

pub same_index_refl : (i : ℤ) → same_index i i ≡ true
unfolding same_index
same_index_refl (pos a) = ==_refl a
same_index_refl (negsuc a) = ==_refl a

pub same_index-add_index : (i : ℤ) (n : ℕ) → same_index i (add_index i (suc n)) ≡ false
unfolding same_index
same_index-add_index i n = ap (λ j. same_index i j) (add_index_lem i (suc n)) ∙ differs i n
  where
    differs : (i : ℤ) (n : ℕ) → same_index i (plus i (suc n)) ≡ false
    differs (pos a) n = ground arith
    differs (negsuc a) n = ground arith

pub lower_index-add_index : (i : ℤ) (n : ℕ) → lower_index i (add_index i (suc n)) ≡ true
unfolding lower_index
lower_index-add_index i n = ap (λ j. lower_index i j) (add_index_lem i (suc n)) ∙ below i n
  where
    below : (i : ℤ) (n : ℕ) → lower_index i (plus i (suc n)) ≡ true
    below (pos a) n = ground arith
    below (negsuc a) n = ground arith

module _ (size : ℕ) (positive : 0 < size) where
  pub get_position_bounds : (i : ℤ) → get_position size i < size
  unfolding get_position
  get_position_bounds (pos n) = mod-lt (n % size + size) positive
  get_position_bounds (negsuc n) = mod-lt (size - suc n % size) positive

  -- The remainder of the successor, by whether it wraps.
  mod-suc :
      (n : ℕ)
      → ((n % size + 1 < size) × (suc n % size ≡ n % size + 1))
        ⊎ ((n % size + 1 ≡ size) × (suc n % size ≡ 0))
  mod-suc n = elim (dec_le size (n % size + 1)) [
    | yes full ↦ inr (
      omega (arith, mod-lt n positive),
      stepped
          ∙ ap (λ m. m % size) {x = n % size + 1} {y = size} (omega (arith, mod-lt n positive))
          ∙ mod_self size,
    )
    | no room ↦ inl (omega arith, stepped ∙ mod-eq_of_lt (omega arith))
  ]
    where
      stepped : suc n % size ≡ (n % size + 1) % size
      stepped =
          ap (λ m. m % size) {x = suc n} {y = n + 1} (omega arith) ∙ sym (mod-add-mod n size 1)

  pub get_position-next_index :
      (i : ℤ) → get_position size (next_index i) ≡ (get_position size i + 1) % size
  unfolding get_position next_index
  get_position-next_index (pos n) =
      add-mod_right ((n + 1) % size) size
      ∙ mod-mod (n + 1) size
      ∙ sym (mod-add-mod n size 1)
      ∙ ap (λ m. (m + 1) % size) (sym (add-mod_right (n % size) size ∙ mod-mod n size))
  get_position-next_index (negsuc zero) =
      add-mod_right (0 % size) size
      ∙ mod-mod 0 size
      ∙ sym (mod-add-mod (size - 1 % size) size 1 ∙ around (mod-suc 0))
    where
      around :
          ((0 % size + 1 < size) × (1 % size ≡ 0 % size + 1))
            ⊎ ((0 % size + 1 ≡ size) × (1 % size ≡ 0))
          → (size - 1 % size + 1) % size ≡ 0 % size
      around (inl (room, e)) =
          ap (λ m. m % size) {x = size - 1 % size + 1} {y = 0 + size}
            (omega (arith, mod-eq_of_lt {n = 0} {m = size} positive))
          ∙ add-mod_right 0 size
      around (inr (full, e)) =
          ap (λ m. m % size) {x = size - 1 % size + 1} {y = 1 + size} (omega arith)
          ∙ add-mod_right 1 size
          ∙ omega (arith, mod-eq_of_lt {n = 0} {m = size} positive)
  get_position-next_index (negsuc (suc n)) = elim (mod-suc (suc n)) [
    | inl (room, e) ↦
        sym (mod-add-mod (size - suc (suc n) % size) size 1 ∙ ap (λ m. m % size) (omega (arith, e)))
    | inr (full, e) ↦
        ap (λ m. m % size) {x = size - suc n % size} {y = 1} (omega arith)
        ∙ sym (add-mod_right 1 size)
        ∙ ap (λ m. m % size) {x = 1 + size} {y = size - suc (suc n) % size + 1} (omega (arith, e))
        ∙ sym (mod-add-mod (size - suc (suc n) % size) size 1)
  ]

  pub get_position-add_index :
      (n : ℕ) (i : ℤ) → get_position size (add_index i n) ≡ (get_position size i + n) % size
  unfolding add_index
  get_position-add_index zero i =
      sym (mod-eq_of_lt (get_position_bounds i))
      ∙ ap (λ m. m % size) {x = get_position size i} {y = get_position size i + 0} (omega arith)
  get_position-add_index (suc n) i =
      get_position-add_index n (next_index i)
      ∙ ap (λ m. (m + n) % size) (get_position-next_index i)
      ∙ mod-add-mod (get_position size i + 1) size n
      ∙ ap (λ m. m % size) {x = get_position size i + 1 + n} {y = get_position size i + suc n}
          (omega arith)

pub add_index-zero : (n : ℕ) → add_index (pos 0) n ≡ pos n
add_index-zero n = add_index_lem (pos 0) n ∙ ap pos (omega arith)

pub add_index-add : (m n : ℕ) (i : ℤ) → add_index (add_index i m) n ≡ add_index i (m + n)
unfolding add_index
add_index-add zero n i = ap (λ k. add_index i k) {x = n} {y = 0 + n} (omega arith)
add_index-add (suc m) n i =
    add_index-add m n (next_index i)
    ∙ ap (λ k. add_index i k) {x = suc (m + n)} {y = suc m + n} (omega arith)

pub get_position-zero : (size : ℕ) → 0 < size → get_position size (pos 0) ≡ 0
unfolding get_position
get_position-zero size h =
    add-mod_right (0 % size) size ∙ mod-mod 0 size ∙ mod-eq_of_lt {n = 0} {m = size} h

pub lower_index-add_index_back : (i : ℤ) (n : ℕ) → lower_index (add_index i n) i ≡ false
unfolding lower_index
lower_index-add_index_back i n = ap (λ j. lower_index j i) (add_index_lem i n) ∙ above i n
  where
    above : (i : ℤ) (n : ℕ) → lower_index (plus i n) i ≡ false
    above (pos a) n = ground arith
    above (negsuc a) n = ground arith
