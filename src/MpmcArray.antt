-- ===== src/MpmcArray.antt =====
-- src/data_structure/mpmc_array.hpp: an array that grows when it is written behind its end.
use mathlib.Core.List.{◌++◌}
use lci.Base.{
  ℕ, zero, suc, ◌+◌, ◌-◌, ◌*◌, ◌≤◌, ◌<◌, ◌≡◌, refl, ◌≢◌, sym, ap, ◌∙◌, Bool, true, false, List, [],
  ◌∷◌, if◌then◌else◌, leb, length, get_or, set, replicate, length-append, length-replicate,
  length-set, get_or-set_self, get_or-set_ne, arith, Bool-cases, inl, inr, leb→le,
}
pub mod Tests

module _ {ℓ} {A : Type ℓ} (entry : A) where
  -- The constructor: every entry is 0, which is `entry`.
  unfoldable pub create : ℕ → List A
  create default_length = replicate default_length entry

  -- The old array is kept for readers that still hold it.
  unfoldable pub resize_nolock : List A → ℕ → List A
  resize_nolock ptr new_length = ptr ++ replicate (new_length - length ptr) entry

  unfoldable pub put : List A → ℕ → A → List A
  unfolding resize_nolock
  put ptr idx val =
      if leb (length ptr) idx
      then set (resize_nolock ptr ((idx + 1) * 2)) idx val
      else set ptr idx val

  unfoldable pub get : List A → ℕ → A
  get ptr idx = if leb (length ptr) idx then entry else get_or ptr idx entry

  put-length :
      (ptr : List A) (idx : ℕ) (val : A)
      → (length ptr ≤ length (put ptr idx val)) × (idx < length (put ptr idx val))
  unfolding put resize_nolock
  put-length ptr idx val = elim (Bool-cases (leb (length ptr) idx)) [
    | inl behind ↦
        rw
          (
            behind,
            length-set (ptr ++ replicate ((idx + 1) * 2 - length ptr) entry) idx val,
            length-append ptr (replicate ((idx + 1) * 2 - length ptr) entry),
            length-replicate ((idx + 1) * 2 - length ptr) entry,
          )
          (omega arith, ground arith)
    | inr within ↦ rw (within, length-set ptr idx val) (omega arith, ground arith)
  ]

  get_or_past : (xs : List A) (j : ℕ) → length xs ≤ j → get_or xs j entry ≡ entry
  get_or_past [] j h = refl
  get_or_past (x ∷ xs) zero h = absurd (omega arith)
  get_or_past (x ∷ xs) (suc j) h = get_or_past xs j (omega arith)

  get-get_or : (ptr : List A) (j : ℕ) → get ptr j ≡ get_or ptr j entry
  unfolding get
  get-get_or ptr j = elim (Bool-cases (leb (length ptr) j)) [
    | inl past ↦ rw (past) (sym (get_or_past ptr j (leb→le (length ptr) j past)))
    | inr within ↦ rw (within) refl
  ]

  get_or-replicate : (n j : ℕ) → get_or (replicate n entry) j entry ≡ entry
  get_or-replicate zero j = refl
  get_or-replicate (suc n) zero = refl
  get_or-replicate (suc n) (suc j) = get_or-replicate n j

  get_or-resize :
      (xs : List A) (n j : ℕ) → get_or (xs ++ replicate n entry) j entry ≡ get_or xs j entry
  get_or-resize [] n j = get_or-replicate n j
  get_or-resize (x ∷ xs) n zero = refl
  get_or-resize (x ∷ xs) n (suc j) = get_or-resize xs n j

  -- A write behind the end or inside it is read back at its index and leaves every other index as it
  -- was, also those that no array held; the array does not shrink, and then holds the index.
  pub put-get :
      (ptr : List A) (idx : ℕ) (val : A)
      → (get (put ptr idx val) idx ≡ val)
        × ((j : ℕ) → idx ≢ j → get (put ptr idx val) j ≡ get ptr j)
        × (length ptr ≤ length (put ptr idx val))
        × (idx < length (put ptr idx val))
  unfolding put resize_nolock
  put-get ptr idx val = (
    get-get_or (put ptr idx val) idx ∙ own,
    λ j ne. get-get_or (put ptr idx val) j ∙ other j ne ∙ sym (get-get_or ptr j),
    (put-length ptr idx val).0,
    (put-length ptr idx val).1,
  )
    where
      grown : List A
      grown = ptr ++ replicate ((idx + 1) * 2 - length ptr) entry

      room : leb (length ptr) idx ≡ true → idx < length grown
      room behind =
          rw
            (
              length-append ptr (replicate ((idx + 1) * 2 - length ptr) entry),
              length-replicate ((idx + 1) * 2 - length ptr) entry,
            )
            (omega (arith, leb→le (length ptr) idx behind))

      own : get_or (put ptr idx val) idx entry ≡ val
      own = elim (Bool-cases (leb (length ptr) idx)) [
        | inl behind ↦ rw (behind) (get_or-set_self grown idx val entry (room behind))
        | inr within ↦ rw (within) (get_or-set_self ptr idx val entry (ground arith))
      ]

      other : (j : ℕ) → idx ≢ j → get_or (put ptr idx val) j entry ≡ get_or ptr j entry
      other j ne = elim (Bool-cases (leb (length ptr) idx)) [
        | inl behind ↦ rw (behind) (
            get_or-set_ne grown idx j val entry ne
            ∙ get_or-resize ptr ((idx + 1) * 2 - length ptr) j)
        | inr within ↦ rw (within) (get_or-set_ne ptr idx j val entry ne)
      ]
