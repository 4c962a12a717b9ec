-- ===== src/Rendezvous/Chunks.antt =====
-- The puts of a split message tile it, and the sender waits for as many completions.
use native.Mathlib.Nat.{add-div_right, div-eq_of_lt, div-lt_iff_lt-mul}
use lci.Base.{
  ℕ, zero, suc, ◌+◌, ◌-◌, ◌*◌, ◌/◌, ◌%◌, ◌^◌, ◌≤◌, ◌<◌, ◌≡◌, refl, sym, ap, ◌∙◌, min, Bool, true,
  false, ◌&&◌, List, [], ◌∷◌, leb, arith, length, dec_le,
}
use lci.Base.Int.{pos}
use lci.Rendezvous.{Chunk, chunks, chunks_from, to_int, signal_count}

abbrev pub no_more : List Chunk → Bool
no_more [] = true
no_more (c ∷ cs) = false

-- The chunks follow one another from `offset` to the end of the message, none is empty or longer
-- than a message may be, and only the last one carries the immediate data, if it is used.
abbrev pub IsTiling : Bool → ℕ → ℕ → ℕ → List Chunk → Type 0
IsTiling use_writeimm size max_single offset [] = offset ≡ size
IsTiling use_writeimm size max_single offset (c ∷ cs) =
    (c.offset ≡ offset)
    × (0 < c.length)
    × (c.length ≤ max_single)
    × (c.write_imm ≡ (use_writeimm && no_more cs))
    × IsTiling use_writeimm size max_single (offset + c.length) cs

past_end :
    (fuel : ℕ) (w : Bool) (size max_single offset : ℕ)
    → size ≤ offset
    → chunks_from fuel w size max_single offset ≡ []
unfolding chunks_from
past_end zero w size max_single offset h = refl
past_end (suc fuel) w size max_single offset h = ground arith

inside :
    (fuel : ℕ) (w : Bool) (size max_single offset : ℕ)
    → 0 < max_single
    → offset < size
    → size - offset ≤ fuel
    → no_more (chunks_from fuel w size max_single offset) ≡ false
unfolding chunks_from
inside zero w size max_single offset positive lt enough = absurd (omega arith)
inside (suc fuel) w size max_single offset positive lt enough = ground arith

past_leb : (size offset : ℕ) → size ≤ offset → leb size offset ≡ true
past_leb size offset h = ground arith

not_past_leb : (size offset : ℕ) → offset < size → leb size offset ≡ false
not_past_leb size offset h = ground arith

ceil_zero : (n m : ℕ) → 0 < m → n ≡ 0 → (n + m - 1) / m ≡ 0
ceil_zero n m positive e = div-eq_of_lt (omega arith)

ceil_last : (n m : ℕ) → 0 < n → n ≤ m → (n + m - 1) / m ≡ 1
ceil_last n m positive le =
    ap (λ k. k / m) {x = n + m - 1} {y = n - 1 + m} (omega arith)
    ∙ add-div_right (n - 1) (omega arith)
    ∙ ap (λ k. k + 1) {x = (n - 1) / m} {y = 0} (div-eq_of_lt (omega arith))

ceil_step : (n m : ℕ) → 0 < m → m < n → (n + m - 1) / m ≡ suc ((n - m + m - 1) / m)
ceil_step n m positive lt =
    ap (λ k. k / m) {x = n + m - 1} {y = n - m + m - 1 + m} (omega arith)
    ∙ add-div_right (n - m + m - 1) positive
    ∙ omega arith

-- The next offset and the end of a put do not wrap around.
no_wrap : (n : ℕ) → n < 2 ^ 64 → n % 2 ^ 64 ≡ n
no_wrap n h = omega arith

chunks_from-IsTiling :
    (fuel : ℕ) (w : Bool) (size max_single offset : ℕ)
    → 0 < max_single
    → offset ≤ size
    → size - offset ≤ fuel
    → size + max_single ≤ 2 ^ 64
    → IsTiling w size max_single offset (chunks_from fuel w size max_single offset)
      × (length (chunks_from fuel w size max_single offset)
          ≡ (size - offset + max_single - 1) / max_single)
unfolding chunks_from
chunks_from-IsTiling zero w size max_single offset positive le enough fits =
    (omega arith, sym (ceil_zero (size - offset) max_single positive (omega arith)))
chunks_from-IsTiling (suc fuel) w size max_single offset positive le enough fits =
    let rest = chunks_from-IsTiling fuel w size max_single (offset + max_single) positive in
    elim (dec_le size offset) [
      | yes past ↦
          rw (past_leb size offset past)
            (omega arith, sym (ceil_zero (size - offset) max_single positive (omega arith)))
      | no before ↦ elim (dec_le (size - offset) max_single) [
        | yes last ↦
            rw
              (
                not_past_leb size offset (omega arith),
                no_wrap (offset + max_single) (omega arith),
                no_wrap (offset + min (size - offset) max_single) (omega arith),
                past_end fuel w size max_single (offset + max_single) (omega arith),
              )
              (
                (
                  refl,
                  omega arith,
                  omega arith,
                  ap (λ t. w && t)
                      (past_leb size (offset + min (size - offset) max_single) (omega arith)),
                  omega arith,
                ),
                sym (ceil_last (size - offset) max_single (omega arith) last),
              )
        | no more ↦
            rw
              (
                not_past_leb size offset (omega arith),
                no_wrap (offset + max_single) (omega arith),
                no_wrap (offset + min (size - offset) max_single) (omega arith),
                ap (λ n. n) {x = min (size - offset) max_single} {y = max_single} (omega arith),
              )
              (
                (
                  refl,
                  positive,
                  omega arith,
                  ap (λ t. w && t)
                      (not_past_leb size (offset + max_single) (omega arith)
                        ∙ sym (
                            inside fuel w size max_single (offset + max_single) positive
                              (omega arith) (omega arith))),
                  (rest (omega arith) (omega arith) fits).0,
                ),
                ap suc (
                      (rest (omega arith) (omega arith) fits).1
                      ∙ ap (λ n. (n + max_single - 1) / max_single)
                          {x = size - (offset + max_single)} {y = size - offset - max_single}
                          (omega arith))
                    ∙ sym (ceil_step (size - offset) max_single positive (omega arith)),
              )
      ]
    ]

-- A quotient of `size_t` that fits an `int`.
small_quotient : (n m k : ℕ) → 0 < m → n ≤ k * m → (n + m - 1) / m ≤ k
small_quotient n m k positive h =
    let below = (div-lt_iff_lt-mul {k = m} {x = n + m - 1} {y = k + 1} positive).1 in
    omega (arith, below (grind arith))

to_int_small : (n : ℕ) → n < 2 ^ 31 → to_int n ≡ pos n
unfolding to_int
to_int_small n h = ground arith

one_put :
    (w : Bool) (size max_single : ℕ)
    → 0 < size
    → size ≤ max_single
    → max_single < 2 ^ 64
    → length (chunks w size max_single) ≡ 1
unfolding chunks chunks_from
one_put w zero max_single h le lt = absurd (omega arith)
one_put w (suc n) max_single h le lt =
    ground (arith, past_end n w (suc n) max_single ((0 + max_single) % 2 ^ 64))

-- When the size and the network's limit together fit 64 bits and the message needs fewer than 2^31
-- puts, the loop ends and its puts follow one another from the first byte to the last, none empty
-- and none longer than the network's limit; only the last one carries the immediate data, if it is
-- used; and the signal count is their number.
pub chunks-IsTiling :
    (use_writeimm : Bool) (size max_single : ℕ)
    → 0 < max_single
    → size + max_single ≤ 2 ^ 64
    → size ≤ (2 ^ 31 - 1) * max_single
    → IsTiling use_writeimm size max_single 0 (chunks use_writeimm size max_single)
      × (signal_count size max_single ≡ pos (length (chunks use_writeimm size max_single)))
unfolding chunks signal_count
chunks-IsTiling use_writeimm size max_single positive fits few =
    let done =
      chunks_from-IsTiling size use_writeimm size max_single 0 positive (omega arith) (omega arith)
        fits in
    (
      done.0,
      ap (λ n. to_int (n / max_single)) {x = (size + max_single + 2 ^ 64 - 1) % 2 ^ 64}
            {y = size + max_single - 1} (omega arith)
          ∙ to_int_small ((size + max_single - 1) / max_single)
              (omega (arith, small_quotient size max_single (2 ^ 31 - 1) positive few))
          ∙ ap (λ n. pos ((n + max_single - 1) / max_single)) {x = size} {y = size - 0}
              (omega arith)
          ∙ ap pos (sym done.1),
    )

overflowing :
    (size max_single : ℕ)
    → max_single < 2 ^ 64
    → 2 ^ 64 < size + max_single
    → size ≤ max_single
    → signal_count size max_single ≡ pos 0
unfolding signal_count
overflowing size max_single lt over one =
    ap to_int
      (div-eq_of_lt {n = (size + max_single + 2 ^ 64 - 1) % 2 ^ 64} {m = max_single} (omega arith))
    ∙ to_int_small 0 (omega arith)

-- When the size and the network's limit together do not fit 64 bits and the message fits one put,
-- that put is issued, and the signal count is 0.
pub chunks_unsignalled :
    (use_writeimm : Bool) (size max_single : ℕ)
    → max_single < 2 ^ 64
    → 2 ^ 64 < size + max_single
    → size ≤ max_single
    → (length (chunks use_writeimm size max_single) ≡ 1) × (signal_count size max_single ≡ pos 0)
chunks_unsignalled use_writeimm size max_single lt over one = (
  one_put use_writeimm size max_single (omega arith) one lt,
  overflowing size max_single lt over one,
)
