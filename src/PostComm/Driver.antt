-- ===== src/PostComm/Driver.antt =====
-- The posting itself, its end, and the driver: `post_network_op`, `exit_handler` and
-- `post_comm_x::call_impl` of src/core/communicate.cpp. Debug assertions are left out.
use lci.Base.{
  ℕ, Bool, true, false, ◌&&◌, not, Option, none, some, List, [], ◌∷◌, ◌++◌, if◌then◌else◌, leb,
  ◌==◌,
}
use lci.Communicate.{Protocol, is_out, is_accepted}
use lci.Endpoint.{ErrorCode, Op, is_done, is_posted, is_retry}
use lci.Immediate.{set_immediate_data}
use lci.Immediate.RoundTrip.{chosen}
use lci.PostComm.{
  PostArgs, Env, Run, Owner, LocalComp, is_recv, preprocess_args, check_backlog,
  set_packet_if_needed, set_local_comp, set_internal_ctx,
}

unfoldable pub is_retry_lock : ErrorCode → Bool
is_retry_lock ErrorCode.retry_lock = true
is_retry_lock e = false

unfoldable pub is_retry_nomem : ErrorCode → Bool
is_retry_nomem ErrorCode.retry_nomem = true
is_retry_nomem e = false

unfoldable pub packets_of : Option ℕ → List ℕ
packets_of none = []
packets_of (some packet) = packet ∷ []

-- The destructor puts the packet of the context back.
unfoldable pub delete_context : Run → Run
delete_context r = record r {
  context = Owner.deleted;
  put_back = packets_of r.packet_to_free ++ r.put_back;
}

-- A context that was passed to a call that succeeds is the network's.
unfoldable pub handed_over : ErrorCode → Run → Run
handed_over error r = if is_retry error then r else record r { context = Owner.network }

unfoldable pub posted_by : ErrorCode → Run → Option (ErrorCode × Run)
posted_by error r = some (error, handed_over error r)

-- First the shared-memory device, then the network.
unfoldable pub shm_or_net : Env → Op → Run → Option (ErrorCode × Run)
shm_or_net e op r =
    if not e.shm_can_send
    then posted_by (e.post op) r
    else if is_done e.shm_post_send
    then some (ErrorCode.done, record (delete_context r) { comp_passed_to_network = false })
    else if is_retry_lock e.shm_post_send
    then some (e.shm_post_send, r)
    else if is_retry_nomem e.shm_post_send
    then posted_by (e.post op) r
    else none

unfoldable pub post_inject : Env → PostArgs → Run → Option (ErrorCode × Run)
post_inject e p r =
    if not p.args.has_rmr
    then shm_or_net e Op.sends r
    else if r.choice.rhandler == 0
    then posted_by (e.post Op.puts) r
    else posted_by (e.post Op.put_imms) r

unfoldable pub done_if_memory : PostArgs → Option (ErrorCode × Run) → Option (ErrorCode × Run)
done_if_memory p none = none
done_if_memory p (some (error, r)) =
    if is_posted error && p.args.memory_semantic then some (ErrorCode.done, r) else some (error, r)

-- A send over shared memory returns from the function at once.
unfoldable pub post_bcopy : Env → PostArgs → Run → Option (ErrorCode × Run)
post_bcopy e p r =
    if not p.args.has_rmr
    then done_if_memory p (shm_or_net e Op.send r)
    else if r.choice.rhandler == 0
    then done_if_memory p (posted_by (e.post Op.put) r)
    else done_if_memory p (posted_by (e.post Op.put_imm) r)

unfoldable pub post_zcopy : Env → PostArgs → Run → Option (ErrorCode × Run)
post_zcopy e p r =
    if not p.args.has_rmr
    then posted_by (e.post Op.send) r
    else if r.choice.rhandler == 0
    then posted_by (e.post Op.put) r
    else posted_by (e.post Op.put_imm) r

unfoldable pub posted_if_done : ErrorCode → ErrorCode
posted_if_done error = if is_done error then ErrorCode.posted else error

-- The RTS message of 32 bytes carries the context to the receiver.
unfoldable pub post_rdv : Env → PostArgs → Run → Option (ErrorCode × Run)
post_rdv e p r =
    if leb 32 p.args.max_inject_size
    then posted_by (posted_if_done (e.post Op.sends)) r
    else if leb 32 p.args.max_bcopy_size
    then posted_by (posted_if_done (e.post Op.send)) r
    else none

-- A receive that matches at once is completed, or becomes a rendezvous; the context is not the
-- poster's any more in either case.
unfoldable pub post_recv : Option ErrorCode → Run → Option (ErrorCode × Run)
post_recv none r = some (ErrorCode.posted, record r { context = Owner.network })
post_recv (some error) r =
    some (error, if is_done error then delete_context r else record r { context = Owner.network })

unfoldable pub post_out : Env → PostArgs → Run → Protocol → Option (ErrorCode × Run)
post_out e p r Protocol.inject = post_inject e p r
post_out e p r Protocol.eager_bcopy = post_bcopy e p r
post_out e p r Protocol.eager_zcopy = post_zcopy e p r
post_out e p r protocol = post_rdv e p r

unfoldable pub post_network_op : Env → PostArgs → Run → Option (ErrorCode × Run)
post_network_op e p r =
    if is_out p.args.direction
    then post_out e p r r.choice.protocol
    else if is_recv r.choice.protocol
    then post_recv e.matched r
    else posted_by (e.post Op.get) r

-- `free_comp` and `comp_signal` leave no trace in the run but the error.
unfoldable pub settled : PostArgs → ErrorCode → ErrorCode
settled p error =
    let waited = if is_posted error && not p.args.allow_posted then ErrorCode.done else error in
    if is_done waited && not p.args.allow_done then ErrorCode.posted else waited

unfoldable pub is_nobody : Owner → Bool
is_nobody Owner.nobody = true
is_nobody owner = false

-- On a retry, a packet of the user is not put back, and the context is deleted if there is one.
unfoldable pub give_up : Run → Option Run
give_up r =
    if is_nobody r.context
    then (if r.user_provided_packet then none else some r)
    else some (
        delete_context
          (record r { packet_to_free = if r.user_provided_packet then none else r.packet_to_free }))

unfoldable pub with_error : ErrorCode → Option Run → Option (ErrorCode × Run)
with_error error none = none
with_error error (some r) = some (error, r)

unfoldable pub exit_handler : PostArgs → Option (ErrorCode × Run) → Option (ErrorCode × Run)
exit_handler p none = none
exit_handler p (some (error, r)) =
    if not (is_recv r.choice.protocol) && is_done error && r.comp_passed_to_network
    then none
    else if not (is_recv r.choice.protocol) && is_posted error && not r.comp_passed_to_network
    then none
    else if is_retry error
    then with_error (settled p error) (give_up r)
    else some (settled p error, r)

unfoldable pub with_context : Env → PostArgs → Option Run → Option (ErrorCode × Run)
with_context e p none = none
with_context e p (some r) = post_network_op e p r

unfoldable pub with_imm_data : Env → PostArgs → Run → Option ℕ → Option (ErrorCode × Run)
with_imm_data e p r none = none
with_imm_data e p r (some imm_data) =
    with_context e p (set_internal_ctx p (set_local_comp p (record r { imm_data = imm_data })))

unfoldable pub with_packet : Env → PostArgs → Option (ErrorCode × Run) → Option (ErrorCode × Run)
with_packet e p none = none
with_packet e p (some (error, r)) =
    if is_done error
    then with_imm_data e p r (set_immediate_data p.widths p.args r.choice)
    else some (error, r)

unfoldable pub start : PostArgs → Run
start p = record {
  choice = chosen p.args;
  imm_data = 0;
  packet = none;
  packet_size_to_send = 0;
  user_provided_packet = false;
  local_comp = LocalComp.null;
  comp_passed_to_network = false;
  mr_on_the_fly = false;
  context = Owner.nobody;
  packet_to_free = none;
  put_back = [];
}

unfoldable pub steps : Env → PostArgs → Option (ErrorCode × Run)
steps e p =
    if is_done (check_backlog e p (start p))
    then with_packet e p (set_packet_if_needed e p (start p))
    else some (check_backlog e p (start p), start p)

unfoldable pub post_comm : Env → PostArgs → Option (ErrorCode × Run)
post_comm e p =
    let q = preprocess_args e p in if is_accepted q.args then exit_handler q (steps e q) else none
