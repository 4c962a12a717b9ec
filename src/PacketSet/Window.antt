-- ===== src/PacketSet/Window.antt =====
-- The packets of a circular queue in order, from a position on.
use native.Mathlib.Nat.{mod-lt, mod-add-mod, add-mod_right}
use lci.Base.{
  ℕ, zero, suc, ◌+◌, ◌%◌, ◌≤◌, ◌<◌, ◌≡◌, ◌≢◌, refl, sym, ap, ◌∙◌, List, [], ◌∷◌, ◌++◌, length,
  length-set, get_or, get_or-set_self, get_or-set_ne, set, arith,
}
use lci.Base.Division.{mod-injective}

unfoldable pub window : List ℕ → ℕ → ℕ → List ℕ
window queue p zero = []
window queue p (suc n) = get_or queue (p % length queue) 0 ∷ window queue (suc p) n

pub length-window : (queue : List ℕ) (p n : ℕ) → length (window queue p n) ≡ n
unfolding window
length-window queue p zero = refl
length-window queue p (suc n) = ap suc (length-window queue (suc p) n)

pub window-add :
    (queue : List ℕ) (p m n : ℕ)
    → window queue p (m + n) ≡ window queue p m ++ window queue (p + m) n
unfolding window
window-add queue p zero n =
    ap (λ k. window queue p k) {x = 0 + n} {y = n} (omega arith)
    ∙ ap (λ q. window queue q n) {x = p} {y = p + 0} (omega arith)
window-add queue p (suc m) n =
    ap (λ k. window queue p k) {x = suc m + n} {y = suc (m + n)} (omega arith)
    ∙ ap (λ r. get_or queue (p % length queue) 0 ∷ r)
        (window-add queue (suc p) m n
          ∙ ap (λ q. window queue (suc p) m ++ window queue q n) {x = suc p + m} {y = p + suc m}
              (omega arith))

pub window_snoc :
    (queue : List ℕ) (p n : ℕ)
    → window queue p (suc n) ≡ window queue p n ++ (get_or queue ((p + n) % length queue) 0 ∷ [])
unfolding window
window_snoc queue p n =
    ap (λ k. window queue p k) {x = suc n} {y = n + 1} (omega arith) ∙ window-add queue p n 1

-- Positions with the same remainder start the same window.
pub window_cong :
    (queue : List ℕ) (p q n : ℕ)
    → p % length queue ≡ q % length queue
    → window queue p n ≡ window queue q n
unfolding window
window_cong queue p q zero e = refl
window_cong queue p q (suc n) e =
    ap (λ r. get_or queue r 0 ∷ window queue (suc p) n) e
    ∙ ap (λ r. get_or queue (q % length queue) 0 ∷ r)
        (window_cong queue (suc p) (suc q) n (shifted p q e))
  where
    up : (k : ℕ) → suc k % length queue ≡ (k % length queue + 1) % length queue
    up k =
        ap (λ m. m % length queue) {x = suc k} {y = k + 1} (omega arith)
        ∙ sym (mod-add-mod k (length queue) 1)

    shifted :
        (p q : ℕ)
        → p % length queue ≡ q % length queue
        → suc p % length queue ≡ suc q % length queue
    shifted p q e = up p ∙ ap (λ m. (m + 1) % length queue) e ∙ sym (up q)

-- A write to a slot outside the window does not show in it.
pub window-set_outside :
    (queue : List ℕ) (p n target v : ℕ)
    → p + n ≤ target
    → target < p + length queue
    → window (set queue (target % length queue) v) p n ≡ window queue p n
unfolding window
window-set_outside queue p zero target v below above = refl
window-set_outside queue p (suc n) target v below above =
    ap
      (λ r.
        get_or (set queue (target % length queue) v) (p % r) 0
        ∷ window (set queue (target % length queue) v) (suc p) n)
      (length-set queue (target % length queue) v)
    ∙ ap (λ x. x ∷ window (set queue (target % length queue) v) (suc p) n)
        (get_or-set_ne queue (target % length queue) (p % length queue) v 0 other)
    ∙ ap (λ r. get_or queue (p % length queue) 0 ∷ r)
        (window-set_outside queue (suc p) n target v (omega arith) (omega arith))
  where
    other : (target % length queue) ≢ (p % length queue)
    other e =
        omega (arith, mod-injective (length queue) p target (sym e) (omega arith) (omega arith))

-- A write behind the window lengthens it at its end.
pub window_push_back :
    (queue : List ℕ) (p n v : ℕ)
    → n < length queue
    → window (set queue ((p + n) % length queue) v) p (suc n) ≡ window queue p n ++ (v ∷ [])
window_push_back queue p n v h =
    window_snoc (set queue ((p + n) % length queue) v) p n
    ∙ ap (λ r. r ++ (get_or written ((p + n) % length written) 0 ∷ []))
        (window-set_outside queue p n (p + n) v (omega arith) (omega arith))
    ∙ ap (λ k. window queue p n ++ (get_or written ((p + n) % k) 0 ∷ []))
        (length-set queue ((p + n) % length queue) v)
    ∙ ap (λ x. window queue p n ++ (x ∷ []))
        (get_or-set_self queue ((p + n) % length queue) v 0 (mod-lt (p + n) (omega arith)))
  where
    written : List ℕ
    written = set queue ((p + n) % length queue) v

-- A write in front of the window lengthens it at its start.
pub window_push_front :
    (queue : List ℕ) (p n v : ℕ)
    → n < length queue
    → window (set queue (p % length queue) v) p (suc n) ≡ v ∷ window queue (suc p) n
unfolding window
window_push_front queue p n v h =
    ap (λ k. get_or written (p % k) 0 ∷ window written (suc p) n)
      (length-set queue (p % length queue) v)
    ∙ ap (λ x. x ∷ window written (suc p) n)
        (get_or-set_self queue (p % length queue) v 0 (mod-lt p (omega arith)))
    ∙ ap (λ t. v ∷ window (set queue t v) (suc p) n) (sym (add-mod_right p (length queue)))
    ∙ ap (λ r. v ∷ r)
        (window-set_outside queue (suc p) n (p + length queue) v (omega arith) (omega arith))
  where
    written : List ℕ
    written = set queue (p % length queue) v
