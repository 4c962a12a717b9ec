-- ===== src/Endpoint/Tests.antt =====
-- The theorems on posting and on the backlog queue at a network that takes a few posts.
use lci.Base.{
  ℕ, zero, suc, ◌≡◌, refl, Bool, true, false, none, [], ◌∷◌, arith, if◌then◌else◌, ◌==◌, inl, inr,
}
use lci.Endpoint.{
  ErrorCode, is_done, is_retry, Op, Buffer, Context, Post, Backend, Endpoint, Memory, handed,
  hand_over, bytes_of,
}
use lci.Endpoint.Posting.{progress}
use lci.Endpoint.Order
use lci.Endpoint.Order.{IsValid, user_post, request_of, of_rank}
use lci.Endpoint.Fallback
use lci.Endpoint.Fallback.Attempt.{IsPrompt, IsRealised}
use lci.Endpoint.Drain
use lci.Endpoint.Drain.{IsDrained}

-- A send queue with some free places; a full one asks for a retry.
abbrev take_post : ℕ → Post → Bool → ErrorCode × ℕ
take_post zero p high = (ErrorCode.retry_nomem, zero)
take_post (suc room) p high = (ErrorCode.done, room)

abbrev send_queue : Backend
send_queue = record { State = ℕ; post_impl = take_post }

abbrev memory : Memory
memory a = 7 ∷ 8 ∷ 9 ∷ []

abbrev put_two : Post
put_two = record {
  op = Op.put_imms;
  rank = 1;
  buffer = Buffer.copied (7 ∷ 8 ∷ []);
  size = 2;
  mr = 0;
  offset = 16;
  rmr = 5;
  imm_data = 3;
  user_context = Context.plain 4;
}

-- An endpoint with a queued put, over a queue with `room` free places.
abbrev queued : ℕ → Bool → Endpoint send_queue
queued room support = record {
  net = room;
  support_putimm = support;
  nentries_per_rank = λ r. if r == 1 then 1 else 0;
  empty = false;
  locked = false;
  backlog_queue = put_two ∷ [];
  accepted = [];
}

queued-IsValid : (room : ℕ) (support : Bool) → IsValid (queued room support)
queued-IsValid room support = record {
  counts = λ r. unfold of_rank in ground arith;
  flagged = λ flag. ground arith;
  all_settled = (
    λ m.
        unfold Order.settled in
        unfold handed in unfold hand_over in unfold bytes_of in unfold request_of in refl,
    refl,
  );
  unlocked = refl;
}

-- A put for a rank without a backlog, which is replaced by a put and a send.
other_rank : Post
other_rank = record put_two { rank = 2 }

send_queue_prompt : IsPrompt send_queue
unfolding is_done is_retry
send_queue_prompt zero q high h = inr refl
send_queue_prompt (suc room) q high h = inl refl

user_post-IsRealised_example :
    IsRealised memory
      (queued 2 false)
      Op.put_imms
      other_rank
      (user_post memory (queued 2 false) other_rank Op.put_imms false)
user_post-IsRealised_example =
    Fallback.user_post-IsRealised memory (queued 2 false) other_rank Op.put_imms false
      send_queue_prompt (queued-IsValid 2 false)

progress-IsDrained_example : IsDrained (queued 2 true) (progress memory false (queued 2 true))
progress-IsDrained_example =
    Drain.progress-IsDrained memory false (queued 2 true) (queued-IsValid 2 true) refl

progress_blocks_example : progress memory false (queued 2 false) ≡ none
progress_blocks_example =
    Drain.progress_blocks memory (queued 2 false) put_two [] (queued-IsValid 2 false) refl refl refl
      refl refl
