-- ===== src/Progress/Completions.antt =====
-- What a batch does, said without its loop.
use lci.Base.{
  ℕ, ◌+◌, ◌≡◌, refl, ap, ◌∙◌, Bool, true, false, ◌&&◌, ◌||◌, not, Bool-cases, inl, inr, Option,
  none, some, List, [], ◌∷◌, ◌++◌, if◌then◌else◌, arith,
}
use lci.Base.Int.{is_negative}
use lci.Progress.{
  Opcode, NetStatus, Batch, Ending, is_error, is_recv, get_failed_peer_rank, cleans_up,
  note_failure, process_completion, process_all, ending_of, start, process_completion_batch,
}

-- The statuses that pass a test, in order.
unfoldable pub those : (NetStatus → Bool) → List NetStatus → List NetStatus
those test [] = []
those test (s ∷ statuses) = if test s then s ∷ those test statuses else those test statuses

unfoldable pub count_recvs : List NetStatus → ℕ
count_recvs [] = 0
count_recvs (s ∷ statuses) = (if is_recv s.opcode then 1 else 0) + count_recvs statuses

unfoldable pub first_error : List NetStatus → Option NetStatus
first_error [] = none
first_error (s ∷ statuses) = if is_error s.opcode then some s else first_error statuses

-- How a batch with this first failure ends.
unfoldable pub ending_for : Option NetStatus → Ending
ending_for none = Ending.returned
ending_for (some s) =
    if is_negative (get_failed_peer_rank s)
    then Ending.runtime_error
    else Ending.peer_failure (get_failed_peer_rank s)

unfoldable pub succeeded : NetStatus → Bool
succeeded s = not (is_error s.opcode)

unfoldable pub reclaimed : NetStatus → Bool
reclaimed s = is_error s.opcode && cleans_up s.user_context

append_assoc : (xs ys zs : List NetStatus) → (xs ++ ys) ++ zs ≡ xs ++ (ys ++ zs)
append_assoc [] ys zs = refl
append_assoc (x ∷ xs) ys zs = ap (λ r. x ∷ r) (append_assoc xs ys zs)

append_nil : (xs : List NetStatus) → xs ≡ xs ++ []
append_nil [] = refl
append_nil (x ∷ xs) = ap (λ r. x ∷ r) (append_nil xs)

handled_step :
    (s : NetStatus) (b : Batch)
    → (process_completion s b).handled ≡ (if succeeded s then b.handled ++ (s ∷ []) else b.handled)
unfolding process_completion note_failure succeeded
handled_step s b = ground arith

handled_lem :
    (statuses : List NetStatus) (b : Batch)
    → (process_all statuses b).handled ≡ b.handled ++ those succeeded statuses
unfolding process_all those
handled_lem [] b = append_nil b.handled
handled_lem (s ∷ statuses) b =
    handled_lem statuses (process_completion s b)
    ∙ ap (λ h. h ++ those succeeded statuses) (handled_step s b)
    ∙ joined (succeeded s)
  where
    joined :
        (t : Bool)
        → (if t then b.handled ++ (s ∷ []) else b.handled) ++ those succeeded statuses
          ≡ b.handled ++ (if t then s ∷ those succeeded statuses else those succeeded statuses)
    joined true = append_assoc b.handled (s ∷ []) (those succeeded statuses)
    joined false = refl

deleted_step :
    (s : NetStatus) (b : Batch)
    → (process_completion s b).deleted ≡ (if reclaimed s then b.deleted ++ (s ∷ []) else b.deleted)
unfolding process_completion note_failure reclaimed
deleted_step s b = ground arith

deleted_lem :
    (statuses : List NetStatus) (b : Batch)
    → (process_all statuses b).deleted ≡ b.deleted ++ those reclaimed statuses
unfolding process_all those
deleted_lem [] b = append_nil b.deleted
deleted_lem (s ∷ statuses) b =
    deleted_lem statuses (process_completion s b)
    ∙ ap (λ h. h ++ those reclaimed statuses) (deleted_step s b)
    ∙ joined (reclaimed s)
  where
    joined :
        (t : Bool)
        → (if t then b.deleted ++ (s ∷ []) else b.deleted) ++ those reclaimed statuses
          ≡ b.deleted ++ (if t then s ∷ those reclaimed statuses else those reclaimed statuses)
    joined true = append_assoc b.deleted (s ∷ []) (those reclaimed statuses)
    joined false = refl

never_both : (opcode : Opcode) → (is_error opcode && is_recv opcode) ≡ false
unfolding is_error is_recv
never_both Opcode.error = refl
never_both opcode = refl

recvs_step :
    (s : NetStatus) (b : Batch)
    → (process_completion s b).recvs_consumed
      ≡ b.recvs_consumed + (if is_recv s.opcode then 1 else 0)
unfolding process_completion note_failure
recvs_step s b = ground (arith, never_both s.opcode)

recvs_lem :
    (statuses : List NetStatus) (b : Batch)
    → (process_all statuses b).recvs_consumed ≡ b.recvs_consumed + count_recvs statuses
unfolding process_all count_recvs
recvs_lem [] b = omega arith
recvs_lem (s ∷ statuses) b =
    omega (arith, recvs_lem statuses (process_completion s b), recvs_step s b)

kept_step :
    (s : NetStatus) (b : Batch) → b.has_failure ≡ true → (process_completion s b).has_failure ≡ true
unfolding process_completion note_failure
kept_step s b h = ground arith

ending_step :
    (s : NetStatus) (b : Batch)
    → b.has_failure ≡ true
    → ending_of (process_completion s b) ≡ ending_of b
unfolding process_completion note_failure ending_of
ending_step s b h = ground arith

-- Once a failure is noted, the ending does not change.
ending_kept :
    (statuses : List NetStatus) (b : Batch)
    → b.has_failure ≡ true
    → ending_of (process_all statuses b) ≡ ending_of b
unfolding process_all
ending_kept [] b h = refl
ending_kept (s ∷ statuses) b h =
    ending_kept statuses (process_completion s b) (kept_step s b h) ∙ ending_step s b h

unchanged :
    (s : NetStatus) (b : Batch)
    → is_error s.opcode ≡ false
    → (process_completion s b).has_failure ≡ b.has_failure
unfolding process_completion
unchanged s b fine = ground arith

noted :
    (s : NetStatus) (b : Batch)
    → is_error s.opcode ≡ true
    → b.has_failure ≡ false
    → ((process_completion s b).has_failure ≡ true)
      × (ending_of (process_completion s b) ≡ ending_for (some s))
unfolding process_completion note_failure ending_of ending_for
noted s b failed h = ground arith

none_noted : (b : Batch) → b.has_failure ≡ false → ending_of b ≡ ending_for none
unfolding ending_of ending_for
none_noted b h = ground arith

-- The first failure decides how the batch ends.

ending_lem :
    (statuses : List NetStatus) (b : Batch)
    → b.has_failure ≡ false
    → ending_of (process_all statuses b) ≡ ending_for (first_error statuses)
unfolding process_all first_error
ending_lem [] b h = none_noted b h
ending_lem (s ∷ statuses) b h = elim (Bool-cases (is_error s.opcode)) [
  | inl failed ↦ rw failed (
      ending_kept statuses (process_completion s b) (noted s b failed h).0 ∙ (noted s b failed h).1)
  | inr fine ↦ rw fine (ending_lem statuses (process_completion s b) (unchanged s b fine ∙ h))
]

unfoldable pub any_error : List NetStatus → Bool
any_error [] = false
any_error (s ∷ statuses) = is_error s.opcode || any_error statuses

failed_step :
    (s : NetStatus) (b : Batch)
    → (process_completion s b).network_failed ≡ (b.network_failed || is_error s.opcode)
unfolding process_completion note_failure
failed_step s b = ground arith

or_assoc : (a b c : Bool) → ((a || b) || c) ≡ (a || (b || c))
or_assoc true b c = refl
or_assoc false b c = refl

or_false : (a : Bool) → a ≡ (a || false)
or_false true = refl
or_false false = refl

failed_lem :
    (statuses : List NetStatus) (b : Batch)
    → (process_all statuses b).network_failed ≡ (b.network_failed || any_error statuses)
unfolding process_all any_error
failed_lem [] b = or_false b.network_failed
failed_lem (s ∷ statuses) b =
    failed_lem statuses (process_completion s b)
    ∙ ap (λ f. f || any_error statuses) (failed_step s b)
    ∙ or_assoc b.network_failed (is_error s.opcode) (any_error statuses)

-- A batch gives every completion that did not fail to its handler, in order and also behind a
-- failure, and counts the receives among them; it deletes the contexts of the failed completions
-- that were operations of one completion; it marks the network as failed if any completion failed;
-- and it ends with the rank of the first failure, with an error without a rank if that failure has
-- none, or normally.
pub process_completion_batch_lem :
    (failed : Bool) (consumed : ℕ) (statuses : List NetStatus)
    → ((process_completion_batch failed consumed statuses).0.handled ≡ those succeeded statuses)
      × ((process_completion_batch failed consumed statuses).0.recvs_consumed
          ≡ consumed + count_recvs statuses)
      × ((process_completion_batch failed consumed statuses).0.deleted ≡ those reclaimed statuses)
      × ((process_completion_batch failed consumed statuses).0.network_failed
          ≡ (failed || any_error statuses))
      × ((process_completion_batch failed consumed statuses).1 ≡ ending_for (first_error statuses))
unfolding process_completion_batch start
process_completion_batch_lem failed consumed statuses = (
  handled_lem statuses (start failed consumed),
  recvs_lem statuses (start failed consumed),
  deleted_lem statuses (start failed consumed),
  failed_lem statuses (start failed consumed),
  ending_lem statuses (start failed consumed) refl,
)
