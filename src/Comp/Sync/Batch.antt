-- ===== src/Comp/Sync/Batch.antt =====
-- A synchronizer is a batch of statuses that waits for its threshold.
use mathlib.Core.List.{append-nil, append_assoc}
use lci.Base.{
  ℕ, zero, suc, ◌+◌, ◌-◌, ◌≤◌, ◌<◌, ◌≡◌, refl, ap, subst, ◌∙◌, sym, List, [], ◌∷◌, ◌++◌, Bool, true,
  ◌&&◌, none, some, if◌then◌else◌, ltb, ◌==◌, set, take, length, arith, length-set, length-append,
  Bool-cases, inl, inr,
}
use lci.Comp.Sync.{Synchronizer, signal, test, signal_all, position, tail_of}

module _ {ℓ} {A : Type ℓ} where
  pub record Holds (s : Synchronizer A) (xs : List A) : Type ℓ where
    pub room : length xs ≤ s.threshold
    pub useful : 0 < s.threshold
    pub sized : length s.statuses ≡ s.threshold
    pub signalled : s.m_top2 ≡ s.m_tail + length xs
    pub reserved : s.m_top ≡ (if ltb 1 s.threshold then s.m_tail + length xs else s.m_top)
    pub shows : take (length xs) s.statuses ≡ xs

  take-set :
      (n : ℕ) (xs : List A) (x : A)
      → n < length xs
      → take (suc n) (set xs n x) ≡ take n xs ++ (x ∷ [])
  take-set n [] x h = absurd (omega arith)
  take-set zero (y ∷ xs) x h = refl
  take-set (suc n) (y ∷ xs) x h = ap (λ r. y ∷ r) (take-set n xs x (omega arith))

  take_all : (n : ℕ) (xs : List A) → length xs ≡ n → take n xs ≡ xs
  take_all zero [] e = refl
  take_all zero (x ∷ xs) e = absurd (omega (arith, e))
  take_all (suc n) [] e = refl
  take_all (suc n) (x ∷ xs) e = ap (λ r. x ∷ r) (take_all n xs (omega (arith, e)))

  pub signal-Holds :
      (s : Synchronizer A) (xs : List A) (x : A)
      → Holds s xs
      → length xs < s.threshold
      → (s' : Synchronizer A) × (signal x s ≡ some s')
        × Holds s' (xs ++ (x ∷ []))
        × (s'.threshold ≡ s.threshold)
  unfolding signal
  signal-Holds s xs x h lt =
      let spot : position s - tail_of s ≡ length xs = ground (arith, h.reserved) in
      let fits : ltb (position s) (tail_of s + s.threshold) ≡ true = ground (arith, h.reserved) in
      let longer = length-append xs (x ∷ []) in
      rw fits (
        _,
        refl,
        record {
          room = omega (arith, longer);
          useful = h.useful;
          sized = length-set s.statuses (position s - tail_of s) x ∙ h.sized;
          signalled = omega (arith, h.signalled, longer);
          reserved = ground (arith, h.reserved, longer);
          shows =
              ap (λ i. take (length (xs ++ (x ∷ []))) (set s.statuses i x)) spot
              ∙ ap (λ n. take n (set s.statuses (length xs) x)) {x = length (xs ++ (x ∷ []))}
                  {y = suc (length xs)} (omega (arith, longer))
              ∙ take-set (length xs) s.statuses x (omega (arith, h.sized))
              ∙ ap (λ r. r ++ (x ∷ [])) h.shows;
        },
        refl,
      )

  pub signal_all-Holds :
      (s : Synchronizer A) (xs ys : List A)
      → Holds s xs
      → length xs + length ys ≤ s.threshold
      → (s' : Synchronizer A) × (signal_all ys s ≡ some s')
        × Holds s' (xs ++ ys)
        × (s'.threshold ≡ s.threshold)
  unfolding signal_all
  signal_all-Holds s xs [] h le = (s, refl, subst (Holds s) (sym (append-nil xs)) h, refl)
  signal_all-Holds s xs (y ∷ ys) h le =
      let (s', same, h', kept) = signal-Holds s xs y h (omega arith) in
      let (after, all, h'', kept') =
        signal_all-Holds s' (xs ++ (y ∷ [])) ys h'
          (omega (arith, length-append xs (y ∷ []), kept)) in
      rw (signal_all, same)
        (after, all, subst (Holds after) (append_assoc xs (y ∷ []) ys) h'', kept' ∙ kept)

  emptied :
      (s : Synchronizer A) (xs : List A) → Holds s xs → Holds (record s { m_tail = s.m_top2 }) []
  emptied s xs h = record {
    room = omega arith;
    useful = h.useful;
    sized = h.sized;
    signalled = omega arith;
    reserved = ground (arith, h.reserved, h.signalled);
    shows = refl;
  }

  -- A synchronizer whose batch is empty takes as many signals as its threshold without a failed
  -- assertion; when it has got that many, and not before, `test` gives out their statuses in the order
  -- of the signals, if its compare-exchange succeeds, and the batch is empty again.
  pub sync_returns :
      (s : Synchronizer A) (xs : List A) (succeeds : Bool)
      → Holds s []
      → length xs ≤ s.threshold
      → (full after : Synchronizer A) × (signal_all xs s ≡ some full)
        × (test succeeds full
            ≡ (after, (if (length xs == s.threshold) && succeeds then some xs else none)))
        × Holds after (if (length xs == s.threshold) && succeeds then [] else xs)
  unfolding test
  sync_returns s xs succeeds h le =
      let (full, all, held, kept) = signal_all-Holds s [] xs h (omega arith) in
      let asked : ((full.m_top2 == full.m_tail + full.threshold) && succeeds)
          ≡ ((length xs == s.threshold) && succeeds) =
        ground (arith, held.signalled, kept) in
      elim (Bool-cases ((length xs == s.threshold) && succeeds)) [
        | inl is_full ↦
            let same : full.statuses ≡ xs =
              sym (take_all (length xs) full.statuses (ground (arith, held.sized, kept, is_full)))
              ∙ held.shows in
            (
              full,
              record full { m_tail = full.m_top2 },
              all,
              rw (is_full, (asked ∙ is_full))
                  (ap (λ r. (record full { m_tail = full.m_top2 }, some r)) same),
              rw is_full (emptied full xs held),
            )
        | inr short ↦ (full, full, all, rw (short, (asked ∙ short)) refl, rw short held)
      ]
