-- ===== src/Collective/Broadcast/Pieces.antt =====
-- When the pieces of the ring are a tiling of the buffer.
use native.Mathlib.Nat.{
  mod-eq_of_lt, mod-lt, div-add-mod, mul-le-mul_left, mul-suc, mul_comm, zero-mul,
}
use lci.Base.{
  ℕ, zero, suc, ◌+◌, ◌-◌, ◌*◌, ◌/◌, ◌%◌, ◌^◌, ◌≤◌, ◌<◌, ◌≡◌, min, ap, subst, ◌∙◌, List, [], ◌∷◌,
  Bool, true, false, ◌&&◌, leb, ◌==◌, arith, dec_le,
}
use lci.Collective.Ranks.{wrap_cases}
use lci.Collective.Broadcast.{Piece, piece, step_size}

-- The pieces of a number of steps, from a given one.
abbrev pub pieces : ℕ → ℕ → ℕ → ℕ → List Piece
pieces size nsteps zero idx = []
pieces size nsteps (suc n) idx = piece size nsteps idx ∷ pieces size nsteps n (idx + 1)

-- Whether pieces follow one another from a position to the end of the buffer.
abbrev pub tiles : ℕ → ℕ → List Piece → Bool
tiles size pos [] = pos == size
tiles size pos (p ∷ ps) = (p.offset == pos) && tiles size (pos + p.size) ps

step_size_eq :
    (size nsteps : ℕ)
    → size + nsteps ≤ 2 ^ 64
    → 0 < nsteps
    → step_size size nsteps ≡ (size + nsteps - 1) / nsteps
unfolding step_size
step_size_eq size nsteps fits pos = ap (λ k. k / nsteps) (mod-eq_of_lt (omega arith))

-- The pieces together are long enough, and not longer than a word.
covering :
    (size nsteps : ℕ)
    → size + nsteps ≤ 2 ^ 64
    → 0 < nsteps
    → (size ≤ nsteps * step_size size nsteps) × (nsteps * step_size size nsteps < 2 ^ 64)
covering size nsteps fits pos = omega (
  arith,
  ap (λ w. nsteps * w) (step_size_eq size nsteps fits pos),
  div-add-mod (size + nsteps - 1) nsteps,
  mod-lt (size + nsteps - 1) {m = nsteps} pos,
)

step_after : (w idx : ℕ) → (idx + 1) * w ≡ idx * w + w
step_after w idx =
    mul_comm (idx + 1) w
    ∙ ap (λ k. w * k) {x = idx + 1} {y = suc idx} (omega arith)
    ∙ mul-suc w idx
    ∙ ap (λ k. k + w) (mul_comm w idx)

-- Every step ends in a word.
start_bound :
    (size nsteps idx : ℕ)
    → size + nsteps ≤ 2 ^ 64
    → idx < nsteps
    → idx * step_size size nsteps + step_size size nsteps < 2 ^ 64
start_bound size nsteps idx fits lt =
    let w = step_size size nsteps in
    omega (
      arith,
      covering size nsteps fits (omega arith),
      mul-le-mul_left {m = suc idx} {n = nsteps} w (omega arith),
      mul-suc w idx,
      mul_comm w idx,
      mul_comm w nsteps,
    )

piece_offset :
    (size nsteps idx : ℕ)
    → size + nsteps ≤ 2 ^ 64
    → idx < nsteps
    → (piece size nsteps idx).offset ≡ idx * step_size size nsteps
unfolding piece
piece_offset size nsteps idx fits lt =
    mod-eq_of_lt (omega (arith, start_bound size nsteps idx fits lt))

-- Where a step starts inside the buffer, its piece ends with the step or with the buffer.
piece_size :
    (size nsteps idx : ℕ)
    → size + nsteps ≤ 2 ^ 64
    → idx < nsteps
    → idx * step_size size nsteps ≤ size
    → (piece size nsteps idx).size
      ≡ min (step_size size nsteps) (size - idx * step_size size nsteps)
unfolding piece
piece_size size nsteps idx fits lt inside =
    ap (λ s. min (step_size size nsteps) ((size + 2 ^ 64 - s) % 2 ^ 64))
      (piece_offset size nsteps idx fits lt)
    ∙ ap (min (step_size size nsteps)) (
        omega
          (arith, wrap_cases (2 ^ 64) (size + 2 ^ 64 - idx * step_size size nsteps) (omega arith)))

tiles_from :
    (size nsteps n idx : ℕ)
    → size + nsteps ≤ 2 ^ 64
    → idx + suc n ≡ nsteps
    → (nsteps - 1) * step_size size nsteps ≤ size
    → tiles size (idx * step_size size nsteps) (pieces size nsteps (suc n) idx) ≡ true
tiles_from size nsteps zero idx fits e inside =
    let w = step_size size nsteps in
    let last : idx * w ≡ (nsteps - 1) * w =
      ap (λ k. k * w) {x = idx} {y = nsteps - 1} (omega arith) in
    ground (
      arith,
      last,
      piece_offset size nsteps idx fits (omega arith),
      piece_size size nsteps idx fits (omega arith) (omega arith),
      covering size nsteps fits (omega arith),
      step_after w idx,
      ap (λ k. k * w) {x = idx + 1} {y = nsteps} (omega arith),
    )
tiles_from size nsteps (suc n) idx fits e inside =
    let w = step_size size nsteps in
    let next : (idx + 1) * w ≤ (nsteps - 1) * w = omega (
      arith,
      mul-le-mul_left {m = idx + 1} {n = nsteps - 1} w (omega arith),
      mul_comm w (idx + 1),
      mul_comm w (nsteps - 1),
    ) in
    let rest =
      subst (λ pos. tiles size pos (pieces size nsteps (suc n) (idx + 1)) ≡ true)
        {x = (idx + 1) * w} {y = idx * w + (piece size nsteps idx).size}
        (omega (
          arith,
          step_after w idx,
          piece_size size nsteps idx fits (omega arith) (omega (arith, step_after w idx)),
        ))
        (tiles_from size nsteps n (idx + 1) fits (omega arith) inside) in
    ground (arith, rest, piece_offset size nsteps idx fits (omega arith))

past_end :
    (size nsteps n idx pos : ℕ)
    → size + nsteps ≤ 2 ^ 64
    → idx + suc n ≡ nsteps
    → size < (nsteps - 1) * step_size size nsteps
    → tiles size pos (pieces size nsteps (suc n) idx) ≡ false
past_end size nsteps zero idx pos fits e outside = ground (
  arith,
  piece_offset size nsteps idx fits (omega arith),
  ap (λ k. k * step_size size nsteps) {x = idx} {y = nsteps - 1} (omega arith),
)
past_end size nsteps (suc n) idx pos fits e outside = ground (
  arith,
  past_end size nsteps n (idx + 1) (pos + (piece size nsteps idx).size) fits (omega arith) outside,
)

-- With one step at least, and a size that together with the number of steps fits a word, the pieces
-- of the ring follow one another from the start of the buffer to its end exactly when the last step
-- starts inside the buffer or at its end.
pub pieces-tiles :
    (size nsteps : ℕ)
    → 0 < nsteps
    → size + nsteps ≤ 2 ^ 64
    → tiles size 0 (pieces size nsteps nsteps 0) ≡ leb ((nsteps - 1) * step_size size nsteps) size
pieces-tiles size zero pos fits = absurd (omega arith)
pieces-tiles size (suc n) pos fits = elim (dec_le ((suc n - 1) * step_size size (suc n)) size) [
  | yes inside ↦
      subst (λ pos. tiles size pos (pieces size (suc n) (suc n) 0) ≡ true)
        (zero-mul (step_size size (suc n))) (tiles_from size (suc n) n 0 fits (omega arith) inside)
      ∙ ground arith
  | no outside ↦ past_end size (suc n) n 0 0 fits (omega arith) (omega arith) ∙ ground arith
]
