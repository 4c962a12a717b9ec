-- ===== src/PostComm/Tests.antt =====
-- A send that is copied into a packet while the network is busy.
use lci.Base.{Bool, true, false, Option, none, some}
use lci.Endpoint.{ErrorCode, Op, is_posted}
use lci.Immediate.Tests.{with_tag, default_widths}
use lci.PostComm.{PostArgs, Env, LocalComp}

-- The network has no room for a packet, and takes everything else.
abbrev busy_network : Op → ErrorCode
busy_network Op.sends = ErrorCode.done
busy_network Op.puts = ErrorCode.done
busy_network Op.put_imms = ErrorCode.done
busy_network Op.send = ErrorCode.retry_nomem
busy_network Op.put = ErrorCode.posted
busy_network Op.put_imm = ErrorCode.posted
busy_network Op.get = ErrorCode.posted

abbrev busy : Env
busy = record {
  on_device = false;
  backlog_empty = true;
  buffer_is_packet = none;
  get_packet = λ blocking. some 5;
  shm_can_send = false;
  shm_post_send = ErrorCode.done;
  post = busy_network;
  matched = some ErrorCode.posted;
}

abbrev large_tag_post : PostArgs
large_tag_post = record {
  args = with_tag 70000;
  widths = default_widths;
  local_comp = LocalComp.object 1;
  allow_retry = true;
}

is_posted_some : Option ErrorCode → Bool
unfolding is_posted
is_posted_some none = false
is_posted_some (some error) = is_posted error
