-- ===== src/Matching/SlotQueue/Loops.antt =====
-- The loops of `queue_t`: what they find and what they leave.
use lci.Base.{
  ℕ, zero, suc, ◌<◌, ◌≡◌, refl, ◌≢◌, List, [], ◌∷◌, ◌++◌, length, get_or, set, drop, replicate,
  arith,
}
use lci.Matching.SlotQueue.{scan, occupied, find_slot, fill_first}

pub scan_taken :
    (xs : List ℕ) (ret : ℕ)
    → ret ≢ 0
    → ((scan xs ret).ret ≡ ret)
      × ((scan xs ret).values ≡ xs)
      × ((scan xs ret).nlefts ≡ length (occupied xs))
unfolding scan occupied
scan_taken [] ret ne = (refl, refl, refl)
scan_taken (x ∷ xs) ret ne = ground (arith, scan_taken xs ret ne)

pub scan_first :
    (xs : List ℕ) (w : ℕ) (ws : List ℕ)
    → occupied xs ≡ w ∷ ws
    → ((scan xs 0).ret ≡ w)
      × (occupied (scan xs 0).values ≡ ws)
      × ((scan xs 0).nlefts ≡ length ws)
      × (length (scan xs 0).values ≡ length xs)
unfolding scan occupied
scan_first [] w ws h = ground arith
scan_first (zero ∷ xs) w ws h = ground (arith, scan_first xs w ws h)
scan_first (suc x ∷ xs) w ws h = ground (arith, scan_taken xs (suc x))

pub occupied-append : (xs ys : List ℕ) → occupied (xs ++ ys) ≡ occupied xs ++ occupied ys
unfolding occupied
occupied-append [] ys = refl
occupied-append (x ∷ xs) ys = ground (arith, occupied-append xs ys)

pub occupied-replicate : (n : ℕ) → occupied (replicate n 0) ≡ []
unfolding occupied
occupied-replicate zero = refl
occupied-replicate (suc n) = occupied-replicate n

pub occupied_idempotent : (xs : List ℕ) → occupied (occupied xs) ≡ occupied xs
unfolding occupied
occupied_idempotent [] = refl
occupied_idempotent (x ∷ xs) = ground (arith, occupied_idempotent xs)

-- A write behind the last value adds it at the end.
pub occupied-set :
    (xs : List ℕ) (i v : ℕ)
    → i < length xs
    → occupied (drop i xs) ≡ []
    → v ≢ 0
    → occupied (set xs i v) ≡ occupied xs ++ (v ∷ [])
unfolding occupied
occupied-set [] i v lt h ne = absurd (omega arith)
occupied-set (x ∷ xs) zero v lt h ne = ground arith
occupied-set (x ∷ xs) (suc i) v lt h ne = ground (arith, occupied-set xs i v (omega arith) h ne)

drop-get_or :
    (xs : List ℕ) (i : ℕ)
    → get_or xs i 0 ≡ 0
    → occupied (drop (suc i) xs) ≡ []
    → occupied (drop i xs) ≡ []
unfolding occupied
drop-get_or [] zero g h = refl
drop-get_or [] (suc i) g h = refl
drop-get_or (x ∷ xs) zero g h = ground arith
drop-get_or (x ∷ xs) (suc i) g h = drop-get_or xs i g h

pub find_slot_bounds :
    (node : List ℕ) (n : ℕ)
    → n < length node
    → occupied (drop n node) ≡ []
    → (find_slot node n n < length node) × (occupied (drop (find_slot node n n) node) ≡ [])
unfolding find_slot
find_slot_bounds node zero lt h = (lt, h)
find_slot_bounds node (suc i) lt h = ground (arith, find_slot_bounds node i, drop-get_or node i)

pub fill_first_lem :
    (xs : List ℕ) (v : ℕ)
    → v ≢ 0
    → length xs ≡ 2
    → get_or xs 1 0 ≡ 0
    → (occupied (fill_first xs v) ≡ occupied xs ++ (v ∷ [])) × (length (fill_first xs v) ≡ 2)
unfolding occupied fill_first
fill_first_lem [] v ne len last = ground arith
fill_first_lem (x ∷ []) v ne len last = ground arith
fill_first_lem (x ∷ y ∷ []) v ne len last = ground arith
fill_first_lem (x ∷ y ∷ z ∷ xs) v ne len last = ground arith

drop_last :
    (xs : List ℕ) (i : ℕ) → length xs ≡ suc i → get_or xs i 0 ≡ 0 → occupied (drop i xs) ≡ []
unfolding occupied
drop_last [] i len last = absurd (omega arith)
drop_last (x ∷ []) zero len last = ground arith
drop_last (x ∷ y ∷ xs) zero len last = absurd (omega arith)
drop_last (x ∷ xs) (suc i) len last = drop_last xs i (omega arith) last

-- A node whose last place is empty takes a value behind the others.
pub append_in_node :
    (n : List ℕ) (v : ℕ)
    → length n ≡ 7
    → get_or n 6 0 ≡ 0
    → v ≢ 0
    → occupied (set n (find_slot n 7 6) v) ≡ occupied n ++ (v ∷ [])
append_in_node n v len last ne =
    rw (first) (occupied-set n (find_slot n 6 6) v bounds.0 bounds.1 ne)
  where
    bounds : (find_slot n 6 6 < length n) × (occupied (drop (find_slot n 6 6) n) ≡ [])
    bounds = find_slot_bounds n 6 (omega arith) (drop_last n 6 len last)

    first : find_slot n 7 6 ≡ find_slot n 6 6
    first = unfold find_slot in rw (last) refl
