-- ===== src/ShmRing/Machine.antt =====
-- `post_send` (with `reserve_impl` and `publish`), `poll` and `release` of src/shm/ring.cpp, cut
-- into steps of one shared access each. Between two steps any other thread may run.
use lci.Base.{
  ℕ, zero, suc, ◌+◌, ◌-◌, ◌%◌, ◌^◌, Bool, true, false, ◌&&◌, ◌||◌, not, Option, none, some, List,
  [], if◌then◌else◌, ltb, leb, ◌==◌, take,
}
use lci.Base.Int.{ℤ, is_negative}
use lci.ShmRing.{
  Slot, Ring, View, maximum_position, reusable, published, encode_sequence, slot_index,
  previous_generation, is_previous_generation, max_payload_size, payload_capacity, put_slot,
  copy_bytes,
}

-- The arguments of `post_send`; `none` is a null buffer.
pub record Request : Type 0 where
  pub source_global_rank : ℤ
  pub buffer : Option (List ℕ)
  pub size : ℕ
  pub imm_data : ℕ

-- What `poll` fills in: `recv_slot_t`.
pub record RecvSlot : Type 0 where
  pub source_global_rank : ℤ
  pub imm_data : ℕ
  pub payload : List ℕ
  pub size : ℕ

-- What an operation returns; `corrupted` stands for the `std::runtime_error` that it throws.
pub data Outcome : Type 0 where
  done retry_lock retry_nomem fatal : Outcome
  empty released corrupted : Outcome

-- Where a thread stands, with the locals that are live there.
pub data Pc : Type 0 where
  idle : Pc
  -- `reserve_impl`: head of the loop, with the attempts left
  reserving : (left : ℕ) (req : Request) → Pc
  head_loaded : (left : ℕ) (req : Request) (position : ℕ) → Pc
  before_cas : (left : ℕ) (req : Request) (position : ℕ) → Pc
  mismatched : (left : ℕ) (req : Request) (position sequence : ℕ) → Pc
  -- `publish`: before the fields are written, and before the release store
  reserved : (req : Request) (position : ℕ) → Pc
  filled : (req : Request) (position : ℕ) → Pc
  send_finished : (req : Request) (outcome : Outcome) → Pc
  -- `poll`
  polling : (left : ℕ) → Pc
  tail_loaded : (left position : ℕ) → Pc
  claiming : (left position : ℕ) → Pc
  stale : (left position sequence : ℕ) → Pc
  claimed : (position : ℕ) → Pc
  -- the caller holds a view; `release`, before its check and before its store
  holding : (position : ℕ) (view : RecvSlot) → Pc
  releasing : (position : ℕ) → Pc
  vacating : (position : ℕ) → Pc
  recv_finished : (outcome : Outcome) → Pc

unfoldable pub bytes_of : Option (List ℕ) → List ℕ
bytes_of none = []
bytes_of (some bytes) = bytes

unfoldable pub is_null : Option (List ℕ) → Bool
is_null none = true
is_null (some bytes) = false

-- The arguments that `post_send` refuses with `fatal`.
unfoldable pub rejected : View → Request → Bool
unfolding is_null payload_capacity
rejected v req =
    is_negative req.source_global_rank
    || ltb (max_payload_size v) req.size
    || (not (req.size == 0) && is_null req.buffer)

unfoldable pub post_send : View → Request → Pc
unfolding rejected
post_send v req =
    if rejected v req then send_finished req fatal else reserving v.producer_cas_attempts req

unfoldable pub poll : View → Pc
poll v = polling v.consumer_cas_attempts

-- The fields that `publish` writes before it publishes.
unfoldable pub fill : Slot → Request → Slot
unfolding bytes_of copy_bytes
fill s req = record s {
  payload_size = req.size % 2 ^ 32;
  imm_data = req.imm_data;
  source_global_rank = req.source_global_rank;
  payload =
      if req.size == 0 then s.payload else copy_bytes req.size (bytes_of req.buffer) s.payload;
}

-- `slot->sequence.store(...)`.
unfoldable pub store_sequence : View → Ring → ℕ → ℕ → Ring
unfolding put_slot slot_index
store_sequence v r position sequence =
    put_slot r (slot_index v position)
      (record (r.slot (slot_index v position)) { sequence = sequence })

-- The store with which a consumer gives a slot to the next generation, if that can be encoded.
unfoldable pub recycle : View → Ring → ℕ → Ring
unfolding store_sequence encode_sequence
recycle v r position =
    if leb position (maximum_position - v.slot_count)
    then store_sequence v r position (encode_sequence (position + v.slot_count) reusable)
    else r

-- What the caller sees in a claimed slot.
unfoldable pub view_slot : Slot → RecvSlot
view_slot s = record {
  source_global_rank = s.source_global_rank;
  imm_data = s.imm_data;
  payload = take s.payload_size s.payload;
  size = s.payload_size;
}

-- The message of a request, as its receiver should see it.
unfoldable pub message : Request → RecvSlot
unfolding bytes_of
message req = record {
  source_global_rank = req.source_global_rank;
  imm_data = req.imm_data;
  payload = take req.size (bytes_of req.buffer);
  size = req.size;
}

-- One access of a thread. `weak` makes a weak compare-exchange fail for no reason.
unfoldable pub step : View → Bool → Ring → Pc → Ring × Pc
unfolding encode_sequence slot_index previous_generation is_previous_generation payload_capacity
    put_slot fill store_sequence recycle view_slot
step v weak r idle = (r, idle)
step v weak r (reserving zero req) = (r, send_finished req retry_lock)
step v weak r (reserving (suc left) req) =
    if leb maximum_position r.producer_position
    then (r, send_finished req fatal)
    else (r, head_loaded left req r.producer_position)
step v weak r (head_loaded left req position) =
    let sequence = (r.slot (slot_index v position)).sequence in
    if sequence == encode_sequence position reusable
    then (r, before_cas left req position)
    else (r, mismatched left req position sequence)
step v weak r (mismatched left req position sequence) =
    if not (r.producer_position == position)
    then (r, reserving left req)
    else if is_previous_generation v sequence position
    then (r, send_finished req retry_nomem)
    else (r, send_finished req fatal)
step v weak r (before_cas left req position) =
    if (r.producer_position == position) && not weak
    then (record r { producer_position = position + 1 }, reserved req position)
    else (r, reserving left req)
step v weak r (reserved req position) =
    let s = r.slot (slot_index v position) in
    if s.sequence == encode_sequence position reusable
    then (put_slot r (slot_index v position) (fill s req), filled req position)
    else (r, send_finished req corrupted)
step v weak r (filled req position) =
    (store_sequence v r position (encode_sequence position published), send_finished req done)
step v weak r (send_finished req outcome) = (r, send_finished req outcome)
step v weak r (polling zero) = (r, recv_finished empty)
step v weak r (polling (suc left)) = (r, tail_loaded left r.consumer_position)
step v weak r (tail_loaded left position) =
    let sequence = (r.slot (slot_index v position)).sequence in
    if sequence == encode_sequence position published
    then (r, claiming left position)
    else (r, stale left position sequence)
step v weak r (stale left position sequence) =
    if not (r.consumer_position == position)
    then (r, polling left)
    else if (sequence == encode_sequence position reusable)
        || (leb v.slot_count position
            && (sequence == encode_sequence (previous_generation v position) published))
    then (r, recv_finished empty)
    else (r, recv_finished corrupted)
step v weak r (claiming left position) =
    if (r.consumer_position == position) && not weak
    then (record r { consumer_position = position + 1 }, claimed position)
    else (r, polling left)
step v weak r (claimed position) =
    let s = r.slot (slot_index v position) in
    if ltb (max_payload_size v) s.payload_size || is_negative s.source_global_rank
    then (recycle v r position, recv_finished corrupted)
    else (r, holding position (view_slot s))
step v weak r (holding position view) = (r, holding position view)
step v weak r (releasing position) =
    if (r.slot (slot_index v position)).sequence == encode_sequence position published
    then (r, vacating position)
    else (r, recv_finished corrupted)
step v weak r (vacating position) = (recycle v r position, recv_finished released)
step v weak r (recv_finished outcome) = (r, recv_finished outcome)
