-- ===== src/PacketSet/Copy.antt =====
-- A copy of packets to a new queue, in one segment or in two, keeps their order.
use native.Mathlib.Nat.{mod-eq_of_lt, mod_self}
use native.Mathlib.Decide.{dec_le}
use lci.Base.{
  ℕ, zero, suc, ◌+◌, ◌-◌, ◌%◌, ◌≤◌, ◌<◌, ◌≡◌, refl, sym, ap, ◌∙◌, List, [], ◌∷◌, ◌++◌, length,
  get_or, take, drop, leb, true, false, arith,
}
use lci.PacketSet.{copy_in, copied}
use lci.PacketSet.Window.{window, length-window, window-add, window_cong}

module _ {ℓ} {A : Type ℓ} where
  pub take-append : (n : ℕ) (xs ys : List A) → length xs ≡ n → take n (xs ++ ys) ≡ xs
  take-append zero [] ys e = refl
  take-append zero (x ∷ xs) ys e = absurd (omega arith)
  take-append (suc n) [] ys e = absurd (omega arith)
  take-append (suc n) (x ∷ xs) ys e = ap (λ r. x ∷ r) (take-append n xs ys (omega arith))

  pub drop-append : (n k : ℕ) (xs ys : List A) → n ≡ length xs + k → drop n (xs ++ ys) ≡ drop k ys
  drop-append n k [] ys e = ap (λ m. drop m ys) (omega arith)
  drop-append zero k (x ∷ xs) ys e = absurd (omega arith)
  drop-append (suc n) k (x ∷ xs) ys e = drop-append n k xs ys (omega arith)

  append_assoc : (xs ys zs : List A) → (xs ++ ys) ++ zs ≡ xs ++ (ys ++ zs)
  append_assoc [] ys zs = refl
  append_assoc (x ∷ xs) ys zs = ap (λ r. x ∷ r) (append_assoc xs ys zs)

  pub length-drop : (n : ℕ) (xs : List A) → length (drop n xs) ≡ length xs - n
  length-drop zero xs = omega arith
  length-drop (suc n) [] = omega arith
  length-drop (suc n) (x ∷ xs) = omega (arith, length-drop n xs)

drop_get :
    (queue : List ℕ) (p : ℕ)
    → p < length queue
    → drop p queue ≡ get_or queue p 0 ∷ drop (suc p) queue
drop_get [] p h = absurd (omega arith)
drop_get (x ∷ queue) zero h = refl
drop_get (x ∷ queue) (suc p) h = drop_get queue p (omega arith)

-- A segment that does not wrap.
pub window_slice :
    (queue : List ℕ) (p n : ℕ) → p + n ≤ length queue → take n (drop p queue) ≡ window queue p n
unfolding window
window_slice queue p zero h = refl
window_slice queue p (suc n) h =
    ap (λ r. take (suc n) r) (drop_get queue p (omega arith))
    ∙ ap (λ r. get_or queue p 0 ∷ r) (window_slice queue (suc p) n (omega arith))
    ∙ ap (λ k. get_or queue k 0 ∷ window queue (suc p) n)
        (sym (mod-eq_of_lt {n = p} {m = length queue} (omega arith)))

copy_in_front : (queue xs : List ℕ) → copy_in queue 0 xs ≡ xs ++ drop (length xs) queue
unfolding copy_in
copy_in_front queue xs =
    ap (λ k. xs ++ drop k queue) {x = 0 + length xs} {y = length xs} (omega arith)

copy_in_behind :
    (queue xs ys : List ℕ) (offset : ℕ)
    → length xs ≡ offset
    → copy_in (xs ++ queue) offset ys ≡ (xs ++ ys) ++ drop (length ys) queue
unfolding copy_in
copy_in_behind queue xs ys offset e =
    ap (λ r. r ++ (ys ++ drop (offset + length ys) (xs ++ queue))) (take-append offset xs queue e)
    ∙ ap (λ r. xs ++ (ys ++ r))
        (drop-append (offset + length ys) (length ys) xs queue (omega arith))
    ∙ sym (append_assoc xs ys (drop (length ys) queue))

drop_nil : (n : ℕ) → drop {A = ℕ} n [] ≡ []
drop_nil zero = refl
drop_nil (suc n) = refl

drop-drop : (m n : ℕ) (queue : List ℕ) → drop n (drop m queue) ≡ drop (m + n) queue
drop-drop zero n queue = ap (λ k. drop k queue) {x = n} {y = 0 + n} (omega arith)
drop-drop (suc m) n [] = drop_nil n ∙ sym (drop_nil (suc m + n))
drop-drop (suc m) n (x ∷ queue) =
    drop-drop m n queue
    ∙ ap (λ k. drop k (x ∷ queue)) {x = suc (m + n)} {y = suc m + n} (omega arith)

-- The copy starts with the packets in order, and leaves the rest of the destination.
pub copied_lem :
    (source new_queue : List ℕ) (p n : ℕ)
    → p < length source
    → n ≤ length source
    → copied source p new_queue n ≡ window source p n ++ drop n new_queue
unfolding copied
copied_lem source new_queue p n hp hn = elim (dec_le (p + n) (length source)) [
  | yes whole ↦ rw (leb_true whole) (one_segment whole)
  | no wraps ↦ rw (leb_false wraps) (two_segments (omega arith))
]
  where
    leb_true : p + n ≤ length source → leb (p + n) (length source) ≡ true
    leb_true h = ground arith

    leb_false : ¬ (p + n ≤ length source) → leb (p + n) (length source) ≡ false
    leb_false h = ground arith

    one_segment :
        p + n ≤ length source
        → copy_in new_queue 0 (take n (drop p source)) ≡ window source p n ++ drop n new_queue
    one_segment h =
        ap (λ r. copy_in new_queue 0 r) (window_slice source p n h)
        ∙ copy_in_front new_queue (window source p n)
        ∙ ap (λ k. window source p n ++ drop k new_queue) (length-window source p n)

    two_segments :
        length source ≤ p + n
        → copy_in
            (copy_in new_queue 0 (take (length source - p) (drop p source)))
            (length source - p)
            (take (n - (length source - p)) source)
          ≡ window source p n ++ drop n new_queue
    two_segments h =
        ap (λ r. copy_in (copy_in new_queue 0 r) first (take rest source))
          (window_slice source p first (omega arith))
        ∙ ap (λ r. copy_in r first (take rest source))
            (copy_in_front new_queue (window source p first))
        ∙ ap
            (λ r.
              copy_in (window source p first ++ drop (length (window source p first)) new_queue)
                first r)
            (window_slice source 0 rest (omega arith))
        ∙ copy_in_behind (drop (length (window source p first)) new_queue) (window source p first)
            (window source 0 rest) first (length-window source p first)
        ∙ ap
            (λ r.
              r
              ++ drop (length (window source 0 rest))
                  (drop (length (window source p first)) new_queue))
            joined
        ∙ ap (λ r. window source p n ++ r) dropped
      where
        first : ℕ
        first = length source - p

        rest : ℕ
        rest = n - (length source - p)

        joined : window source p first ++ window source 0 rest ≡ window source p n
        joined =
            ap (λ r. window source p first ++ r)
              (window_cong source 0 (p + first) rest (
                mod-eq_of_lt {n = 0} {m = length source} (omega arith)
                ∙ sym (mod_self (length source))
                ∙ ap (λ m. m % length source) {x = length source} {y = p + first} (omega arith)))
            ∙ sym (window-add source p first rest)
            ∙ ap (λ k. window source p k) {x = first + rest} {y = n} (omega arith)

        dropped :
            drop (length (window source 0 rest)) (drop (length (window source p first)) new_queue)
            ≡ drop n new_queue
        dropped =
            drop-drop (length (window source p first)) (length (window source 0 rest)) new_queue
            ∙ ap (λ k. drop k new_queue)
                {x = length (window source p first) + length (window source 0 rest)} {y = n}
                (omega (arith, length-window source p first, length-window source 0 rest))
