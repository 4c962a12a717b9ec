-- ===== src/Communicate.antt =====
-- How a post chooses its protocol: src/core/communicate.cpp.
use lci.Base.{ℕ, ◌+◌, Bool, true, false, ◌&&◌, ◌||◌, not, if◌then◌else◌, ltb, leb, ◌==◌}
pub mod Choice
pub mod Tests

pub data Direction : Type 0 where
  out into : Direction

-- A memory region: `MR_HOST`, `MR_DEVICE`, `MR_UNKNOWN`, or a registered one, which may be device
-- memory.
pub data Mr : Type 0 where
  host device unknown : Mr
  registered : (on_device : Bool) → Mr

pub data Protocol : Type 0 where
  none inject eager_bcopy eager_zcopy rdv_zcopy recv : Protocol

-- The arguments that the choice reads; `gpu` is the build option for CUDA or HIP.
pub record Args : Type 0 where
  pub gpu : Bool
  pub direction : Direction
  pub size : ℕ
  pub tag : ℕ
  pub remote_comp : ℕ
  pub has_rmr : Bool
  pub mr : Mr
  pub memory_semantic : Bool
  pub allow_posted : Bool
  pub allow_done : Bool
  pub has_matching_engine : Bool
  pub matching_rhandler : ℕ
  pub max_imm_tag : ℕ
  pub max_imm_rcomp : ℕ
  pub max_inject_size : ℕ
  pub max_bcopy_size : ℕ

-- `post_comm_traits_t`.
pub record Traits : Type 0 where
  pub local_buffer_only : Bool
  pub local_comp_only : Bool
  pub is_recv : Bool
  pub max_inject_size : ℕ
  pub max_bcopy_size : ℕ

-- The fields of `post_comm_state_t` that the choice writes.
pub record State : Type 0 where
  pub rhandler : ℕ
  pub protocol : Protocol
  pub piggyback_tag_rcomp_in_msg : Bool

unfoldable pub is_out : Direction → Bool
is_out Direction.out = true
is_out Direction.into = false

-- `mr_t::is_empty`: the three special values stand for no registered region.
unfoldable pub mr_is_empty : Mr → Bool
mr_is_empty (Mr.registered on_device) = false
mr_is_empty mr = true

unfoldable pub mr_may_be_device_memory : Bool → Mr → Bool
mr_may_be_device_memory gpu Mr.host = false
mr_may_be_device_memory gpu Mr.device = true
mr_may_be_device_memory gpu Mr.unknown = true
mr_may_be_device_memory gpu (Mr.registered on_device) = gpu && on_device

-- `MR_UNKNOWN` does not reach the choice in a build with CUDA or HIP: `preprocess_args` resolves it.
unfoldable pub force_zcopy : Bool → Mr → Bool
force_zcopy gpu Mr.host = false
force_zcopy gpu Mr.device = gpu
force_zcopy gpu Mr.unknown = false
force_zcopy gpu (Mr.registered on_device) = gpu && on_device

unfoldable pub traits_of : Args → Traits
unfolding is_out
traits_of a = record {
  local_buffer_only = not a.has_rmr;
  local_comp_only = a.remote_comp == 0;
  is_recv = not (is_out a.direction) && not a.has_rmr;
  max_inject_size = a.max_inject_size;
  max_bcopy_size = a.max_bcopy_size;
}

-- The assertions of `validate_and_get_traits`.
unfoldable pub is_accepted : Args → Bool
unfolding is_out traits_of
is_accepted a =
    (a.allow_posted || a.allow_done)
    && not (
        not (is_out a.direction)
        && (traits_of a).local_buffer_only
        && not (traits_of a).local_comp_only)
    && not (
        not (is_out a.direction)
        && not (traits_of a).local_buffer_only
        && not (traits_of a).local_comp_only)

unfoldable pub resolve_rhandler : Args → Traits → State → State
resolve_rhandler a t s =
    if (a.remote_comp == 0) && a.has_matching_engine && t.local_buffer_only
    then record s { rhandler = a.matching_rhandler }
    else record s { rhandler = a.remote_comp }

unfoldable pub eager_payload_needs_metadata : Args → State → Bool
unfolding is_out
eager_payload_needs_metadata a s =
    is_out a.direction
    && not (s.rhandler == 0)
    && (ltb a.max_imm_tag a.tag || ltb a.max_imm_rcomp s.rhandler)

-- The tag takes 8 bytes and the remote completion handle 4.
unfoldable pub msg_size_if_eager : Args → State → ℕ
unfolding eager_payload_needs_metadata
msg_size_if_eager a s = if eager_payload_needs_metadata a s then a.size + (8 + 4) else a.size

unfoldable pub set_protocol : Args → Traits → State → State
unfolding is_out mr_is_empty mr_may_be_device_memory force_zcopy msg_size_if_eager
set_protocol a t s =
    let eager_size = msg_size_if_eager a s in
    let zcopy = force_zcopy a.gpu a.mr in
    let in_payload = ltb a.size eager_size in
    if not (is_out a.direction) && t.local_buffer_only
    then record s { protocol = Protocol.recv }
    else if is_out a.direction && t.local_buffer_only && (ltb t.max_bcopy_size eager_size || zcopy)
    then record s { protocol = Protocol.rdv_zcopy }
    else if leb eager_size t.max_inject_size
        && is_out a.direction
        && a.memory_semantic
        && not zcopy
        && not in_payload
    then record s { protocol = Protocol.inject }
    else if (mr_is_empty a.mr || in_payload)
        && leb eager_size t.max_bcopy_size
        && not (mr_may_be_device_memory a.gpu a.mr)
        && not zcopy
    then record s {
      protocol = Protocol.eager_bcopy;
      piggyback_tag_rcomp_in_msg = in_payload || s.piggyback_tag_rcomp_in_msg;
    }
    else record s { protocol = Protocol.eager_zcopy }
