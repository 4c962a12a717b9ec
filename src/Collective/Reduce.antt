-- ===== src/Collective/Reduce.antt =====
-- `reduce_x` of src/collective/reduce.cpp on one rank: the tree is computed from the root to the
-- leaves and replayed backwards with every message reversed. A buffer holds one value of a type
-- that is a parameter, as is the operation.
use lci.Base.{
  ℕ, ◌+◌, ◌*◌, List, [], ◌∷◌, Bool, true, false, ◌&&◌, not, Option, none, some, if◌then◌else◌, ◌==◌,
  suc,
}
use lci.Collective.{Action, idle, send_to, recv_from}
use lci.Collective.Tree.{tree}
pub mod Replay
pub mod Segments
pub mod Result

-- The user's buffers and the two that `reduce` allocates.
pub data Buffer : Type 0 where
  sendbuf recvbuf tmp_block data_block : Buffer

pub record Buffers : Type 0 where
  pub tmp_buffer : Buffer
  pub data_buffer : Buffer

abbrev pub nchildren : List Action → ℕ
nchildren [] = 0
nchildren (send_to peer ∷ actions) = suc (nchildren actions)
nchildren (action ∷ actions) = nchildren actions

-- The user's output buffer, which may be the input buffer.
abbrev pub output : Bool → Buffer
output in_place = if in_place then sendbuf else recvbuf

unfoldable pub choose_buffers : Bool → Bool → ℕ → Buffers
choose_buffers is_root in_place children =
    if is_root
    then record {
      tmp_buffer = if (children == 1) && not in_place then output in_place else tmp_block;
      data_buffer = output in_place;
    }
    else record {
      tmp_buffer = tmp_block;
      data_buffer = if children == 1 then tmp_block else data_block;
    }

pub record Memory {ℓ} (V : Type ℓ) : Type ℓ where
  pub sendbuf : V
  pub recvbuf : V
  pub tmp_block : V
  pub data_block : V

-- A rank in the replay; it stops when it has sent.
pub record Run {ℓ} (V : Type ℓ) : Type ℓ where
  pub memory : Memory V
  pub has_received : Bool
  pub sent : Option (ℕ × V)

module _ {ℓ} {V : Type ℓ} where
  abbrev pub read : Buffer → Memory V → V
  read Buffer.sendbuf m = m.sendbuf
  read Buffer.recvbuf m = m.recvbuf
  read Buffer.tmp_block m = m.tmp_block
  read Buffer.data_block m = m.data_block

  abbrev pub write : Buffer → V → Memory V → Memory V
  write Buffer.sendbuf v m = record m { sendbuf = v }
  write Buffer.recvbuf v m = record m { recvbuf = v }
  write Buffer.tmp_block v m = record m { tmp_block = v }
  write Buffer.data_block v m = record m { data_block = v }

  abbrev pub unless_sent : Option (ℕ × V) → Run V → Run V → Run V
  unless_sent none run rest = rest
  unless_sent (some message) run rest = run

  module _ (op : V → V → V) (inbox : ℕ → V) (buffers : Buffers) where
    -- The operand that is not received.
    abbrev pub held : Run V → Buffer
    held run = if run.has_received then buffers.data_buffer else Buffer.sendbuf

    abbrev pub receive : ℕ → Run V → Run V
    receive child run =
        let received = write buffers.tmp_buffer (inbox child) run.memory in
        record run {
          memory =
              write buffers.data_buffer
                (op (read buffers.tmp_buffer received) (read (held run) received)) received;
          has_received = true;
        }

    -- One round of the replay, with its message reversed.
    abbrev pub reversed : Action → Run V → Run V
    reversed idle run = run
    reversed (send_to child) run = receive child run
    reversed (recv_from parent) run = record run {
      sent = some (parent, read (held run) run.memory);
    }

    -- The loop from the last round to the first.
    unfoldable pub replay : List Action → Run V → Run V
    replay [] run = run
    replay (action ∷ actions) run =
        let later = replay actions run in unless_sent later.sent later (reversed action later)

  abbrev pub fresh : Memory V → Run V
  fresh memory = record { memory = memory; has_received = false; sent = none }

  unfoldable pub reduce : (V → V → V) → (ℕ → V) → ℕ → ℕ → ℕ → Bool → Memory V → Run V
  reduce op inbox nranks root rank in_place memory =
      let actions = tree nranks root rank in
      let buffers = choose_buffers (rank == root) in_place (nchildren actions) in
      if nranks == 1
      then record (fresh memory) {
        memory = if in_place then memory else write Buffer.recvbuf memory.sendbuf memory;
      }
      else replay op inbox buffers actions (fresh memory)
