-- ===== src/Collective.antt =====
-- The collectives of src/collective: which rank sends to which, in which round and from which part
-- of the buffer. Every rank runs the same code on its own rank, and a message arrives only where a
-- receive from its sender is posted.
use lci.Base.{ℕ, ◌+◌, ◌-◌, ◌%◌, List, [], ◌∷◌, Bool, true, false, Option, none, some, ◌==◌}
pub mod Ranks
pub mod Tests
pub mod Tree
pub mod Reduce
pub mod Barrier
pub mod Broadcast
pub mod Peers

-- What a rank posts in a round.
pub data Action : Type 0 where
  idle : Action
  send_to recv_from : (peer : ℕ) → Action

-- Whether a round has the send to a rank, or the receive from it.
abbrev pub sends_to : ℕ → Option Action → Bool
sends_to b (some (send_to peer)) = peer == b
sends_to b _ = false

abbrev pub receives_from : ℕ → Option Action → Bool
receives_from a (some (recv_from peer)) = peer == a
receives_from a _ = false
