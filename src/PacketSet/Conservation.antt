-- ===== src/PacketSet/Conservation.antt =====
-- Packets are neither lost nor doubled: what the deques of all threads hold, packet by packet.
use lci.Base.{
  ℕ, zero, suc, ◌+◌, ◌<◌, ◌≡◌, refl, sym, subst, ◌∙◌, List, [], ◌∷◌, ◌++◌, length, length-append,
  length-set, get_or, get_or-set_self, get_or-set_ne, set, if◌then◌else◌, ◌==◌, arith, ℕ_discrete,
  dec_lt,
}
use lci.PacketSet.{LocalSet}
use lci.PacketSet.Deque.{Holds}
use lci.PacketSet.Pools.{no_pool}

-- How often a packet occurs in a list, and in all lists.
unfoldable pub count : ℕ → List ℕ → ℕ
count x [] = 0
count x (y ∷ ys) = (if x == y then 1 else 0) + count x ys

unfoldable pub occurrences : ℕ → List (List ℕ) → ℕ
occurrences x [] = 0
occurrences x (l ∷ ls) = count x l + occurrences x ls

pub count-append : (x : ℕ) (l m : List ℕ) → count x (l ++ m) ≡ count x l + count x m
unfolding count
count-append x [] m = omega arith
count-append x (y ∷ l) m = omega (arith, count-append x l m)

-- A list in place of another changes the occurrences by theirs.
pub occurrences-set :
    (x : ℕ) (ls : List (List ℕ)) (i : ℕ) (l : List ℕ)
    → i < length ls
    → occurrences x (set ls i l) + count x (get_or ls i []) ≡ occurrences x ls + count x l
unfolding occurrences
occurrences-set x [] i l h = absurd (omega arith)
occurrences-set x (m ∷ ls) zero l h = omega arith
occurrences-set x (m ∷ ls) (suc i) l h = omega (arith, occurrences-set x ls i l (omega arith))

pub occurrences-append_nil :
    (x : ℕ) (ls : List (List ℕ)) → occurrences x (ls ++ ([] ∷ [])) ≡ occurrences x ls
unfolding occurrences count
occurrences-append_nil x [] = refl
occurrences-append_nil x (m ∷ ls) = omega (arith, occurrences-append_nil x ls)

module _ {ℓ} {A : Type ℓ} where
  pub get_or-append_left :
      (xs ys : List A) (i : ℕ) (d : A) → i < length xs → get_or (xs ++ ys) i d ≡ get_or xs i d
  get_or-append_left [] ys i d h = absurd (omega arith)
  get_or-append_left (x ∷ xs) ys zero d h = refl
  get_or-append_left (x ∷ xs) ys (suc i) d h = get_or-append_left xs ys i d (omega arith)

  pub get_or-append_last : (xs : List A) (x d : A) → get_or (xs ++ (x ∷ [])) (length xs) d ≡ x
  get_or-append_last [] x d = refl
  get_or-append_last (y ∷ xs) x d = get_or-append_last xs x d

-- Each pool holds its list.
pub record AllHold (pools : List LocalSet) (ls : List (List ℕ)) : Type 0 where
  pub same_length : length pools ≡ length ls
  pub each : (i : ℕ) → i < length pools → Holds (get_or pools i no_pool) (get_or ls i [])

pub AllHold-set :
    (pools : List LocalSet) (ls : List (List ℕ)) (i : ℕ) (pool : LocalSet) (l : List ℕ)
    → AllHold pools ls
    → i < length pools
    → Holds pool l
    → AllHold (set pools i pool) (set ls i l)
AllHold-set pools ls i pool l all h held = record {
  same_length = length-set pools i pool ∙ all.same_length ∙ sym (length-set ls i l);
  each = λ j k. elim (ℕ_discrete i j) [
    | yes e ↦
        subst (λ m. Holds (get_or (set pools i pool) m no_pool) (get_or (set ls i l) m [])) e
          (subst (λ p. Holds p (get_or (set ls i l) i []))
            (sym (get_or-set_self pools i pool no_pool h))
            (subst (λ m. Holds pool m)
              (sym (get_or-set_self ls i l [] (omega (arith, all.same_length)))) held))
    | no ne ↦
        subst (λ p. Holds p (get_or (set ls i l) j []))
          (sym (get_or-set_ne pools i j pool no_pool ne))
          (subst (λ m. Holds (get_or pools j no_pool) m) (sym (get_or-set_ne ls i j l [] ne))
            (all.each j (omega (arith, length-set pools i pool))))
  ];
}

pub AllHold-append :
    (pools : List LocalSet) (ls : List (List ℕ)) (pool : LocalSet) (l : List ℕ)
    → AllHold pools ls
    → Holds pool l
    → AllHold (pools ++ (pool ∷ [])) (ls ++ (l ∷ []))
AllHold-append pools ls pool l all held = record {
  same_length =
      omega (arith, length-append pools (pool ∷ []), length-append ls (l ∷ []), all.same_length);
  each = λ j k. elim (dec_lt j (length pools)) [
    | yes lt ↦
        subst (λ p. Holds p (get_or (ls ++ (l ∷ [])) j []))
          (sym (get_or-append_left pools (pool ∷ []) j no_pool lt))
          (subst (λ m. Holds (get_or pools j no_pool) m)
            (sym (get_or-append_left ls (l ∷ []) j [] (omega (arith, all.same_length))))
            (all.each j lt))
    | no ge ↦
        subst (λ m. Holds (get_or (pools ++ (pool ∷ [])) m no_pool) (get_or (ls ++ (l ∷ [])) m []))
          (last j k ge)
          (subst (λ p. Holds p (get_or (ls ++ (l ∷ [])) (length pools) []))
            (sym (get_or-append_last pools pool no_pool))
            (subst (λ m. Holds pool (get_or (ls ++ (l ∷ [])) m [])) (sym all.same_length)
              (subst (λ m. Holds pool m) (sym (get_or-append_last ls l [])) held)))
  ];
}
  where
    last : (j : ℕ) → j < length (pools ++ (pool ∷ [])) → ¬ (j < length pools) → length pools ≡ j
    last j k ge = omega (arith, length-append pools (pool ∷ []))
