-- ===== src/PostComm.antt =====
-- The path of a post from its arguments to its status: `post_comm_x::call_impl` of
-- src/core/communicate.cpp. What the endpoint, the packet pool, the shared-memory device and the
-- matching engine answer is an argument; the wait for a completion is one step.
use lci.Base.{
  ℕ, ◌+◌, ◌<◌, Bool, true, false, ◌&&◌, ◌||◌, not, Option, none, some, List, [], ◌∷◌, if◌then◌else◌,
  ltb, leb, ◌==◌,
}
use lci.Communicate.{
  Args, Traits, State, Protocol, Mr, is_out, mr_is_empty, is_accepted, traits_of, resolve_rhandler,
  set_protocol,
}
use lci.Endpoint.{ErrorCode, Op, is_done, is_posted, is_retry}
use lci.Immediate.{Widths, is_rdv, is_bcopy, set_immediate_data}
use lci.Immediate.RoundTrip.{initial_state, chosen}
pub mod Driver
pub mod Offer
pub mod Exit
pub mod Steps
pub mod Status
pub mod Tests

-- `comp_t` of a post: `COMP_NULL`, `COMP_NULL_RETRY`, an object of the user, or the synchronizer
-- that `alloc_sync` makes.
pub data LocalComp : Type 0 where
  null null_retry synchronizer : LocalComp
  object : (id : ℕ) → LocalComp

unfoldable pub comp_is_empty : LocalComp → Bool
comp_is_empty LocalComp.null = true
comp_is_empty LocalComp.null_retry = true
comp_is_empty comp = false

-- The arguments that the choice of the protocol does not read.
pub record PostArgs : Type 0 where
  pub args : Args
  pub widths : Widths
  pub local_comp : LocalComp
  pub allow_retry : Bool

-- What the other components answer.
pub record Env : Type 0 where
  pub on_device : Bool
  pub backlog_empty : Bool
  pub buffer_is_packet : Option ℕ
  pub get_packet : Bool → Option ℕ
  pub shm_can_send : Bool
  pub shm_post_send : ErrorCode
  pub post : Op → ErrorCode
  pub matched : Option ErrorCode

-- Who is to delete the internal context.
pub data Owner : Type 0 where
  nobody poster network deleted : Owner

-- The fields of `post_comm_state_t`, and the packets that were put back to the pool.
pub record Run : Type 0 where
  pub choice : State
  pub imm_data : ℕ
  pub packet : Option ℕ
  pub packet_size_to_send : ℕ
  pub user_provided_packet : Bool
  pub local_comp : LocalComp
  pub comp_passed_to_network : Bool
  pub mr_on_the_fly : Bool
  pub context : Owner
  pub packet_to_free : Option ℕ
  pub put_back : List ℕ

unfoldable pub resolve_mr : Bool → Bool → Mr → Mr
resolve_mr true true Mr.unknown = Mr.device
resolve_mr true false Mr.unknown = Mr.host
resolve_mr gpu on_device mr = mr

unfoldable pub resolve_comp : LocalComp → PostArgs → PostArgs
resolve_comp LocalComp.null p = record p {
  allow_retry = false;
  args = record p.args { allow_posted = false };
}
resolve_comp LocalComp.null_retry p = record p { args = record p.args { allow_posted = false } }
resolve_comp comp p = p

unfoldable pub with_mr : Bool → PostArgs → PostArgs
with_mr on_device p = record p {
  args = record p.args { mr = resolve_mr p.args.gpu on_device p.args.mr };
}

unfoldable pub preprocess_args : Env → PostArgs → PostArgs
preprocess_args e p = with_mr e.on_device (resolve_comp p.local_comp p)

unfoldable pub is_recv : Protocol → Bool
is_recv Protocol.recv = true
is_recv protocol = false

unfoldable pub is_zcopy : Protocol → Bool
is_zcopy Protocol.eager_zcopy = true
is_zcopy protocol = false

unfoldable pub check_backlog : Env → PostArgs → Run → ErrorCode
check_backlog e p r =
    if not e.backlog_empty && p.allow_retry && not (is_recv r.choice.protocol)
    then ErrorCode.retry_backlog
    else ErrorCode.done

unfoldable pub is_given : Option ℕ → Bool
is_given none = false
is_given (some packet) = true

-- The size of a packet that is sent; `none` is a failed assertion.
unfoldable pub built : PostArgs → Run → Option (ErrorCode × Run)
built p r =
    let size = if r.choice.piggyback_tag_rcomp_in_msg then p.args.size + (8 + 4) else p.args.size in
    if not (is_out p.args.direction)
    then some (ErrorCode.done, r)
    else if r.choice.piggyback_tag_rcomp_in_msg && ltb p.args.max_bcopy_size size
    then none
    else some (ErrorCode.done, record r { packet_size_to_send = size })

unfoldable pub allocated : PostArgs → Run → Option ℕ → Option (ErrorCode × Run)
allocated p r none = some (ErrorCode.retry_nopacket, r)
allocated p r (some packet) =
    if is_rdv r.choice.protocol
    then some (ErrorCode.done, record r { packet = some packet })
    else built p (record r { packet = some packet })

unfoldable pub set_packet_if_needed : Env → PostArgs → Run → Option (ErrorCode × Run)
set_packet_if_needed e p r =
    if not (is_bcopy r.choice.protocol) && not (is_rdv r.choice.protocol)
    then some (
      ErrorCode.done,
      record r { user_provided_packet = is_given e.buffer_is_packet; packet = e.buffer_is_packet },
    )
    else if is_bcopy r.choice.protocol && is_given e.buffer_is_packet
    then built p (record r { user_provided_packet = true; packet = e.buffer_is_packet })
    else allocated p r (e.get_packet (not p.allow_retry))

unfoldable pub set_local_comp : PostArgs → Run → Run
set_local_comp p r = record r {
  local_comp = if p.args.allow_posted then p.local_comp else LocalComp.synchronizer;
}

unfoldable pub needs_comp : PostArgs → Run → Bool
needs_comp p r =
    is_zcopy r.choice.protocol
    || is_rdv r.choice.protocol
    || not p.args.memory_semantic
    || not (is_out p.args.direction)

unfoldable pub set_internal_ctx : PostArgs → Run → Option Run
set_internal_ctx p r =
    if needs_comp p r && comp_is_empty r.local_comp
    then none
    else some (record r {
      context = Owner.poster;
      packet_to_free = r.packet;
      comp_passed_to_network = needs_comp p r;
      mr_on_the_fly = is_zcopy r.choice.protocol && mr_is_empty p.args.mr;
    })
