-- ===== src/Endpoint.antt =====
-- Posting of network operations and the backlog queue behind it: the error codes of
-- src/api/lci.hpp, src/network/endpoint_inline.hpp and src/backlog_queue.
use lci.Base.{
  ℕ, ◌+◌, ◌-◌, ◌≡◌, Bool, true, false, ◌&&◌, ◌||◌, not, List, [], ◌∷◌, ◌++◌, if◌then◌else◌, ◌==◌,
  update, take,
}
pub mod Posting
pub mod Order
pub mod Fallback
pub mod Drain
pub mod Tests

-- `errorcode_t`; the boundary markers are the `_min` and `_max` constructors.
pub data ErrorCode : Type 0 where
  done_min done done_backlog done_max : ErrorCode
  posted_min posted posted_backlog posted_max : ErrorCode
  retry_min retry retry_init retry_lock retry_nopacket retry_nomem retry_backlog retry_max :
      ErrorCode
  fatal : ErrorCode

unfoldable pub is_done : ErrorCode → Bool
is_done ErrorCode.done = true
is_done ErrorCode.done_backlog = true
is_done e = false

unfoldable pub is_posted : ErrorCode → Bool
is_posted ErrorCode.posted = true
is_posted ErrorCode.posted_backlog = true
is_posted e = false

unfoldable pub is_retry : ErrorCode → Bool
is_retry ErrorCode.retry = true
is_retry ErrorCode.retry_init = true
is_retry ErrorCode.retry_lock = true
is_retry ErrorCode.retry_nopacket = true
is_retry ErrorCode.retry_nomem = true
is_retry ErrorCode.retry_backlog = true
is_retry e = false

-- `backlog_op_t`.
pub data Op : Type 0 where
  sends send puts put put_imms put_imm get : Op

-- A buffer of the user, at an address, or a copy that the backlog queue owns.
pub data Buffer : Type 0 where
  null : Buffer
  user : (address : ℕ) → Buffer
  copied : (bytes : List ℕ) → Buffer

-- A user context, plain or inside `internal_context_extended_t`.
pub data Context : Type 0 where
  plain : (context : ℕ) → Context
  extended : (imm_data_rank imm_data signal_count : ℕ) (internal : Context) → Context

-- `backlog_queue_entry_t`, which is also what a post passes to the network; a field that an
-- operation does not have is 0.
pub record Post : Type 0 where
  pub op : Op
  pub rank : ℕ
  pub buffer : Buffer
  pub size : ℕ
  pub mr : ℕ
  pub offset : ℕ
  pub rmr : ℕ
  pub imm_data : ℕ
  pub user_context : Context

-- The network backend: `post_*_impl`, told whether the post is of high priority.
pub record Backend : Type 1 where
  pub State : Type 0
  pub post_impl : State → Post → Bool → ErrorCode × State

-- What the users' buffers hold.
abbrev pub Memory : Type 0
Memory = ℕ → List ℕ

unfoldable pub bytes_of : Memory → Buffer → ℕ → List ℕ
bytes_of mem Buffer.null n = []
bytes_of mem (Buffer.user address) n = take n (mem address)
bytes_of mem (Buffer.copied bytes) n = take n bytes

-- What a post hands over: the bytes now for an operation that completes at once, else the buffer.
unfoldable pub hand_over : Memory → Post → Op → Post
unfolding bytes_of
hand_over mem p Op.sends = record p { buffer = Buffer.copied (bytes_of mem p.buffer p.size) }
hand_over mem p Op.puts = record p { buffer = Buffer.copied (bytes_of mem p.buffer p.size) }
hand_over mem p Op.put_imms = record p { buffer = Buffer.copied (bytes_of mem p.buffer p.size) }
hand_over mem p op = p

unfoldable pub handed : Memory → Post → Post
unfolding hand_over
handed mem p = hand_over mem p p.op

module _ (b : Backend) where
  -- An endpoint with its backlog queue. `locked` is the queue's lock, held by this thread;
  -- `accepted` records what the network took.
  pub record Endpoint : Type 0 where
    pub net : b.State
    pub support_putimm : Bool
    pub nentries_per_rank : ℕ → ℕ
    pub empty : Bool
    pub locked : Bool
    pub backlog_queue : List Post
    pub accepted : List Post

  -- `self_deadlock` is a `lock.lock()` of the spinlock that the thread holds.
  pub data Outcome : Type 0 where
    returned : (error : ErrorCode) (endpoint : Endpoint) → Outcome
    self_deadlock assertion_failed : Outcome
