-- ===== src/Progress/Tests.antt =====
-- A batch with a receive, a failed send of rank 3 and a write.
use lci.Base.{◌+◌, ◌≡◌, refl, true, false, ◌||◌, none, some, List, [], ◌∷◌}
use lci.Base.Int.{pos, negsuc}
use lci.Progress.{
  Opcode, NetStatus, Ending, get_failed_peer_rank, context_rank, same_rank, is_error,
  process_completion_batch,
}
use lci.Progress.Completions.{
  those, succeeded, reclaimed, count_recvs, any_error, first_error, ending_for,
  process_completion_batch_lem,
}

abbrev received : NetStatus
received = record { opcode = Opcode.recv; rank = pos 1; user_context = none }

abbrev failed_send : NetStatus
failed_send = record {
  opcode = Opcode.error;
  rank = negsuc 0;
  user_context = some (record { is_extended = false; is_user_posted_op = true; rank = pos 3 });
}

abbrev written : NetStatus
written = record { opcode = Opcode.write; rank = pos 2; user_context = none }

abbrev three_completions : List NetStatus
three_completions = received ∷ failed_send ∷ written ∷ []

-- The ranks of the status and of its context disagree.
disagreeing : get_failed_peer_rank (record failed_send { rank = pos 4 }) ≡ negsuc 0
unfolding get_failed_peer_rank context_rank same_rank
disagreeing = refl

three_completions-first_error :
    ending_for (first_error three_completions) ≡ Ending.peer_failure (pos 3)
unfolding ending_for first_error get_failed_peer_rank is_error context_rank
three_completions-first_error = refl

process_completion_batch_lem_example :
    ((process_completion_batch false 5 three_completions).0.handled
      ≡ those succeeded three_completions)
    × ((process_completion_batch false 5 three_completions).0.recvs_consumed
        ≡ 5 + count_recvs three_completions)
    × ((process_completion_batch false 5 three_completions).0.deleted
        ≡ those reclaimed three_completions)
    × ((process_completion_batch false 5 three_completions).0.network_failed
        ≡ (false || any_error three_completions))
    × ((process_completion_batch false 5 three_completions).1
        ≡ ending_for (first_error three_completions))
process_completion_batch_lem_example = process_completion_batch_lem false 5 three_completions
