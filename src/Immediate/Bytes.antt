-- ===== src/Immediate/Bytes.antt =====
-- The tag and the handle behind the data of a message are read back.
use lci.Base.{
  ℕ, zero, suc, ◌+◌, ◌-◌, ◌/◌, ◌^◌, ◌<◌, ◌≡◌, refl, sym, ap, ◌∙◌, List, [], ◌∷◌, ◌++◌, some, true,
  length, length-append, take, drop, leb, arith,
}
use native.Mathlib.Nat.{pow-suc}
use lci.Immediate.{MsgType, le_bytes, le_value, read_metadata}

length-le_bytes : (n v : ℕ) → length (le_bytes n v) ≡ n
unfolding le_bytes
length-le_bytes zero v = refl
length-le_bytes (suc n) v = ap suc (length-le_bytes n (v / 256))

-- The bytes of a number that fits them give the number.
pub le_value-le_bytes : (n v : ℕ) → v < 256 ^ n → le_value (le_bytes n v) ≡ v
unfolding le_value le_bytes
le_value-le_bytes zero v h = omega arith
le_value-le_bytes (suc n) v h =
    omega (arith, le_value-le_bytes n (v / 256) (omega (arith, pow-suc 256 n)))

module _ {ℓ} {A : Type ℓ} where
  take-append_self : (n : ℕ) (xs ys : List A) → length xs ≡ n → take n (xs ++ ys) ≡ xs
  take-append_self zero [] ys e = refl
  take-append_self zero (x ∷ xs) ys e = absurd (omega arith)
  take-append_self (suc n) [] ys e = absurd (omega arith)
  take-append_self (suc n) (x ∷ xs) ys e = ap (λ r. x ∷ r) (take-append_self n xs ys (omega arith))

  drop-append_self : (n : ℕ) (xs ys : List A) → length xs ≡ n → drop n (xs ++ ys) ≡ ys
  drop-append_self zero [] ys e = refl
  drop-append_self zero (x ∷ xs) ys e = absurd (omega arith)
  drop-append_self (suc n) [] ys e = absurd (omega arith)
  drop-append_self (suc n) (x ∷ xs) ys e = drop-append_self n xs ys (omega arith)

  append_assoc : (xs ys zs : List A) → (xs ++ ys) ++ zs ≡ xs ++ (ys ++ zs)
  append_assoc [] ys zs = refl
  append_assoc (x ∷ xs) ys zs = ap (λ r. x ∷ r) (append_assoc xs ys zs)

  append_nil : (xs : List A) → xs ++ [] ≡ xs
  append_nil [] = refl
  append_nil (x ∷ xs) = ap (λ r. x ∷ r) (append_nil xs)

module _ (content : List ℕ) (tag rcomp : ℕ) where
  abbrev pub with_metadata : List ℕ
  with_metadata = content ++ (le_bytes 8 tag ++ le_bytes 4 rcomp)

  total : length with_metadata ≡ length content + 12
  total =
      length-append content (le_bytes 8 tag ++ le_bytes 4 rcomp)
      ∙ ap (λ n. length content + n)
          (length-append (le_bytes 8 tag) (le_bytes 4 rcomp)
            ∙ omega (arith, length-le_bytes 8 tag, length-le_bytes 4 rcomp))

  content_part : take (length with_metadata - 12) with_metadata ≡ content
  content_part = take-append_self (length with_metadata - 12) content _ (omega (arith, total))

  tag_part : take 8 (drop (length with_metadata - 12) with_metadata) ≡ le_bytes 8 tag
  tag_part =
      ap (λ r. take 8 r)
        (drop-append_self (length with_metadata - 12) content _ (omega (arith, total)))
      ∙ take-append_self 8 (le_bytes 8 tag) _ (length-le_bytes 8 tag)

  rcomp_part : take 4 (drop (length with_metadata - 4) with_metadata) ≡ le_bytes 4 rcomp
  rcomp_part =
      ap (λ m. take 4 (drop (length with_metadata - 4) m))
        (sym (append_assoc content (le_bytes 8 tag) (le_bytes 4 rcomp)))
      ∙ ap (λ r. take 4 r)
          (drop-append_self (length with_metadata - 4) (content ++ le_bytes 8 tag)
            (le_bytes 4 rcomp)
            (omega (arith, total, length-append content (le_bytes 8 tag), length-le_bytes 8 tag)))
      ∙ ap (λ r. take 4 r) (sym (append_nil (le_bytes 4 rcomp)))
      ∙ take-append_self 4 (le_bytes 4 rcomp) [] (length-le_bytes 4 rcomp)

  pub read_metadata_lem :
      tag < 2 ^ 64
      → rcomp < 2 ^ 32
      → read_metadata with_metadata
        ≡ some
            (record { msg_type = MsgType.eager; tag = tag; remote_comp = rcomp; payload = content })
  unfolding read_metadata
  read_metadata_lem ht hr =
      rw
        (
          long,
          tag_part,
          rcomp_part,
          content_part,
          le_value-le_bytes 8 tag ht,
          le_value-le_bytes 4 rcomp hr,
        )
        refl
    where
      long : leb 12 (length with_metadata) ≡ true
      long = ground (arith, total)
