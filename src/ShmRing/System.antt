-- ===== src/ShmRing/System.antt =====
-- Any number of threads over one ring, interleaved in any order.
use lci.Base.{ℕ, ◌≤◌, Bool, update, ◌≡◌, none, some, List, length}
use lci.Base.Int.{ℤ}
use lci.ShmRing.{Ring, View, initialize_at}
use lci.ShmRing.Machine.{
  Request, RecvSlot, Outcome, Pc, idle, filled, send_finished, recv_finished, holding, releasing,
  post_send, poll, step,
}

-- `sent` is history: the request that was published at each position. No step reads it.
pub record System : Type 0 where
  pub ring : Ring
  pub sent : ℕ → Request
  pub pc : ℕ → Pc

abbrev pub log_sent : Pc → (ℕ → Request) → ℕ → Request
log_sent (filled req position) sent = update sent position req
log_sent _ sent = sent

-- Between operations.
pub data Rests : Pc → Type 0 where
  idle_rests : Rests idle
  send_rests : {req : Request} {outcome : Outcome} → Rests (send_finished req outcome)
  recv_rests : {outcome : Outcome} → Rests (recv_finished outcome)

-- A buffer that is not null holds the bytes that its size says.
abbrev pub BufferHolds : Request → Type 0
BufferHolds req = (bytes : List ℕ) → req.buffer ≡ some bytes → req.size ≤ length bytes

-- A thread starts an operation, or makes its next access.
pub data Move (v : View) (r : Ring) : Pc → Ring → Pc → Type 0 where
  sends : {p : Pc} (req : Request) → BufferHolds req → Rests p → Move v r p r (post_send v req)
  polls : {p : Pc} → Rests p → Move v r p r (poll v)
  releases :
      (position : ℕ) (view : RecvSlot) → Move v r (holding position view) r (releasing position)
  advances : (weak : Bool) (p : Pc) → Move v r p (step v weak r p).0 (step v weak r p).1

pub data Step (v : View) (s : System) : System → Type 0 where
  pick :
      (i : ℕ) {r : Ring} {p : Pc}
      → Move v s.ring (s.pc i) r p
      → Step v s (record { ring = r; sent = log_sent (s.pc i) s.sent; pc = update s.pc i p })

abbrev pub no_request : Request
no_request = record { source_global_rank = ℤ.negsuc 0; buffer = none; size = 0; imm_data = 0 }

abbrev pub start : View → ℕ → System
start v position = record {
  ring = initialize_at v position;
  sent = λ _. no_request;
  pc = λ _. idle;
}

pub data Reach (v : View) (position : ℕ) : System → Type 0 where
  here : Reach v position (start v position)
  next : {s t : System} → Reach v position s → Step v s t → Reach v position t
