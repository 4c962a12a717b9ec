-- ===== src/Progress.antt =====
-- A batch of completions of the network: `process_completion_batch` and what it does for a failed
-- one, of src/core/progress.cpp. What a handler of a completion does is not part of it.
use lci.Base.{
  ℕ, ◌+◌, Bool, true, false, ◌&&◌, ◌||◌, not, Option, none, some, List, [], ◌∷◌, ◌++◌,
  if◌then◌else◌, ◌==◌,
}
use lci.Base.Int.{ℤ, pos, negsuc, is_negative}
pub mod Completions
pub mod Tests

-- `net_opcode_t`.
pub data Opcode : Type 0 where
  send recv write remote_write read error : Opcode

unfoldable pub is_error : Opcode → Bool
is_error Opcode.error = true
is_error opcode = false

unfoldable pub is_recv : Opcode → Bool
is_recv Opcode.recv = true
is_recv opcode = false

-- What a failed completion looks at in its context, plain or extended.
pub record Context : Type 0 where
  pub is_extended : Bool
  pub is_user_posted_op : Bool
  pub rank : ℤ

pub record NetStatus : Type 0 where
  pub opcode : Opcode
  pub rank : ℤ
  pub user_context : Option Context

unfoldable pub same_rank : ℤ → ℤ → Bool
same_rank (pos a) (pos b) = a == b
same_rank (negsuc a) (negsuc b) = a == b
same_rank a b = false

unfoldable pub context_rank : Option Context → ℤ
context_rank none = negsuc 0
context_rank (some context) = if context.is_extended then negsuc 0 else context.rank

unfoldable pub get_failed_peer_rank : NetStatus → ℤ
get_failed_peer_rank status =
    let from_context = context_rank status.user_context in
    if not (is_negative status.rank)
      && not (is_negative from_context)
      && not (same_rank status.rank from_context)
    then negsuc 0
    else if not (is_negative status.rank)
    then status.rank
    else from_context

-- Whether the context of a failed operation is deleted.
unfoldable pub cleans_up : Option Context → Bool
cleans_up none = false
cleans_up (some context) =
    not (context.is_extended || not context.is_user_posted_op || is_negative context.rank)

-- The locals of the loop, the failure mark and the counter of the device, the completions that
-- were given to their handlers and those whose context was deleted.
pub record Batch : Type 0 where
  pub has_failure : Bool
  pub first_failure_has_rank : Bool
  pub first_failed_rank : ℤ
  pub network_failed : Bool
  pub recvs_consumed : ℕ
  pub handled : List NetStatus
  pub deleted : List NetStatus

unfoldable pub note_failure : NetStatus → Batch → Batch
note_failure status b =
    let failed_rank = get_failed_peer_rank status in
    let marked = record b {
      network_failed = true;
      deleted = if cleans_up status.user_context then b.deleted ++ (status ∷ []) else b.deleted;
    } in
    if not b.has_failure
    then record marked {
      has_failure = true;
      first_failure_has_rank = not (is_negative failed_rank);
      first_failed_rank = failed_rank;
    }
    else marked

unfoldable pub process_completion : NetStatus → Batch → Batch
process_completion status b = if is_error status.opcode then note_failure status b else record b {
  recvs_consumed = if is_recv status.opcode then b.recvs_consumed + 1 else b.recvs_consumed;
  handled = b.handled ++ (status ∷ []);
}

unfoldable pub process_all : List NetStatus → Batch → Batch
process_all [] b = b
process_all (status ∷ statuses) b = process_all statuses (process_completion status b)

-- How the batch ends: `std::runtime_error` has no rank.
pub data Ending : Type 0 where
  returned runtime_error : Ending
  peer_failure : (rank : ℤ) → Ending

unfoldable pub ending_of : Batch → Ending
ending_of b =
    if not b.has_failure
    then Ending.returned
    else if b.first_failure_has_rank
    then Ending.peer_failure b.first_failed_rank
    else Ending.runtime_error

unfoldable pub start : Bool → ℕ → Batch
start network_failed recvs_consumed = record {
  has_failure = false;
  first_failure_has_rank = false;
  first_failed_rank = negsuc 0;
  network_failed = network_failed;
  recvs_consumed = recvs_consumed;
  handled = [];
  deleted = [];
}

unfoldable pub process_completion_batch : Bool → ℕ → List NetStatus → Batch × Ending
process_completion_batch network_failed recvs_consumed statuses =
    let b = process_all statuses (start network_failed recvs_consumed) in (b, ending_of b)
