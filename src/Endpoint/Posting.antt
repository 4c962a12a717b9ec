-- ===== src/Endpoint/Posting.antt =====
-- `post_*` of src/network/endpoint_inline.hpp with `push_*` and `progress` of
-- src/backlog_queue/backlog_queue_inline.hpp.
use lci.Base.{
  ℕ, ◌+◌, ◌-◌, Bool, true, false, ◌&&◌, ◌||◌, not, Option, none, some, List, [], ◌∷◌, ◌++◌,
  if◌then◌else◌, ◌==◌, update, drop,
}
use lci.Endpoint.{
  ErrorCode, is_done, is_retry, Op, Buffer, Context, Post, Backend, Memory, bytes_of, handed,
  Endpoint, Outcome,
}

unfoldable pub no_entry : List Post → Bool
no_entry [] = true
no_entry (p ∷ ps) = false

-- The requests, with the fields that each operation has.
unfoldable pub sends_request : Post → Post
sends_request p = record p { op = Op.sends; mr = 0; offset = 0; rmr = 0 }

unfoldable pub send_request : Post → Post
send_request p = record p { op = Op.send; offset = 0; rmr = 0 }

unfoldable pub puts_request : Post → Post
puts_request p = record p { op = Op.puts; mr = 0; imm_data = 0 }

unfoldable pub put_request : Post → Post
put_request p = record p { op = Op.put; imm_data = 0 }

unfoldable pub put_imms_request : Post → Post
put_imms_request p = record p { op = Op.put_imms; mr = 0 }

unfoldable pub put_imm_request : Post → Post
put_imm_request p = record p { op = Op.put_imm }

unfoldable pub get_request : Post → Post
get_request p = record p { op = Op.get; imm_data = 0 }

module _ {b : Backend} where
  -- The end of every `push_*`: the counter first, then the entry under the lock.
  unfoldable pub enqueue : Endpoint b → Post → Option (Endpoint b)
  enqueue e entry =
      let counted : Endpoint b = record e {
        nentries_per_rank =
            update e.nentries_per_rank entry.rank (e.nentries_per_rank entry.rank + 1);
      } in
      if e.locked
      then none
      else some (record counted { backlog_queue = e.backlog_queue ++ (entry ∷ []); empty = false })

  -- The buffer is copied: the operation counts as completed.
  unfoldable pub push_sends : Memory → Endpoint b → Post → Option (Endpoint b)
  unfolding enqueue bytes_of sends_request
  push_sends mem e p = enqueue e (record (sends_request p) {
    buffer =
        if not (p.size == 0) then Buffer.copied (bytes_of mem p.buffer p.size) else Buffer.null;
  })

  unfoldable pub push_send : Memory → Endpoint b → Post → Option (Endpoint b)
  unfolding enqueue send_request
  push_send mem e p = enqueue e (send_request p)

  unfoldable pub push_puts : Memory → Endpoint b → Post → Option (Endpoint b)
  unfolding enqueue bytes_of puts_request
  push_puts mem e p =
      enqueue e (record (puts_request p) { buffer = Buffer.copied (bytes_of mem p.buffer p.size) })

  unfoldable pub push_put : Memory → Endpoint b → Post → Option (Endpoint b)
  unfolding enqueue put_request
  push_put mem e p = enqueue e (put_request p)

  unfoldable pub push_put_imms : Memory → Endpoint b → Post → Option (Endpoint b)
  unfolding enqueue bytes_of put_imms_request
  push_put_imms mem e p =
      enqueue e
        (record (put_imms_request p) { buffer = Buffer.copied (bytes_of mem p.buffer p.size) })

  unfoldable pub push_put_imm : Memory → Endpoint b → Post → Option (Endpoint b)
  unfolding enqueue put_imm_request
  push_put_imm mem e p = enqueue e (put_imm_request p)

  unfoldable pub push_get : Memory → Endpoint b → Post → Option (Endpoint b)
  unfolding enqueue get_request
  push_get mem e p = enqueue e (get_request p)

  -- `backlog_queue.is_empty(rank)`.
  unfoldable pub no_backlog : Endpoint b → ℕ → Bool
  no_backlog e rank = e.nentries_per_rank rank == 0

  -- `post_*_impl`, which the network takes or not.
  unfoldable pub post_impl : Memory → Endpoint b → Post → Bool → ErrorCode × Endpoint b
  unfolding is_retry handed
  post_impl mem e p high_priority =
      let out = b.post_impl e.net p high_priority in
      (
        out.0,
        record e {
          net = out.1;
          accepted = if is_retry out.0 then e.accepted else e.accepted ++ (handed mem p ∷ []);
        },
      )

  unfoldable pub pushed : ErrorCode → Option (Endpoint b) → Outcome b
  pushed error none = Outcome.self_deadlock
  pushed error (some e) = Outcome.returned error e

  -- The end of every `post_*`: what is not allowed to retry goes to the backlog queue.
  unfoldable pub or_backlog :
      ErrorCode × Endpoint b → Bool → (Endpoint b → Option (Endpoint b)) → ErrorCode → Outcome b
  unfolding is_retry pushed
  or_backlog tried allow_retry push error =
      if is_retry tried.0
      then (if allow_retry then Outcome.returned tried.0 tried.1 else pushed error (push tried.1))
      else Outcome.returned tried.0 tried.1

  -- The start of `post_sends`, `post_send`, `post_puts`, `post_put` and `post_get`.
  unfoldable pub try_post : Memory → Endpoint b → Post → Bool → Bool → ErrorCode × Endpoint b
  unfolding no_backlog post_impl
  try_post mem e p allow_retry force_post =
      if not force_post && not (no_backlog e p.rank)
      then (ErrorCode.retry_backlog, e)
      else post_impl mem e p (not allow_retry || force_post)

  unfoldable pub post_sends : Memory → Endpoint b → Post → Bool → Bool → Outcome b
  unfolding try_post or_backlog push_sends sends_request
  post_sends mem e p allow_retry force_post =
      or_backlog (try_post mem e (sends_request p) allow_retry force_post) allow_retry
        (λ e'. push_sends mem e' p) ErrorCode.done_backlog

  unfoldable pub post_send : Memory → Endpoint b → Post → Bool → Bool → Outcome b
  unfolding try_post or_backlog push_send send_request
  post_send mem e p allow_retry force_post =
      or_backlog (try_post mem e (send_request p) allow_retry force_post) allow_retry
        (λ e'. push_send mem e' p) ErrorCode.posted_backlog

  unfoldable pub post_puts : Memory → Endpoint b → Post → Bool → Bool → Outcome b
  unfolding try_post or_backlog push_puts puts_request
  post_puts mem e p allow_retry force_post =
      or_backlog (try_post mem e (puts_request p) allow_retry force_post) allow_retry
        (λ e'. push_puts mem e' p) ErrorCode.done_backlog

  unfoldable pub post_put : Memory → Endpoint b → Post → Bool → Bool → Outcome b
  unfolding try_post or_backlog push_put put_request
  post_put mem e p allow_retry force_post =
      or_backlog (try_post mem e (put_request p) allow_retry force_post) allow_retry
        (λ e'. push_put mem e' p) ErrorCode.posted_backlog

  unfoldable pub post_get : Memory → Endpoint b → Post → Bool → Bool → Outcome b
  unfolding try_post or_backlog push_get get_request
  post_get mem e p allow_retry force_post =
      or_backlog (try_post mem e (get_request p) allow_retry force_post) allow_retry
        (λ e'. push_get mem e' p) ErrorCode.posted_backlog

  -- The check of the signal's error; the put's is returned.
  unfoldable pub signal_sent : ErrorCode → Outcome b → Outcome b
  unfolding is_done
  signal_sent error (Outcome.returned sent e) =
      if is_done sent then Outcome.returned error e else Outcome.assertion_failed
  signal_sent error Outcome.self_deadlock = Outcome.self_deadlock
  signal_sent error Outcome.assertion_failed = Outcome.assertion_failed

  -- A put, and then a send of the immediate data that may not be retried.
  unfoldable pub post_put_imms_fallback : Memory → Endpoint b → Post → Bool → Outcome b
  unfolding post_impl post_sends signal_sent is_done puts_request
  post_put_imms_fallback mem e p high_priority =
      let put = post_impl mem e (puts_request p) high_priority in
      if is_retry put.0
      then Outcome.returned put.0 put.1
      else if not (is_done put.0)
      then Outcome.assertion_failed
      else signal_sent put.0 (
          post_sends mem put.1
            (record p { buffer = Buffer.null; size = 0; user_context = Context.plain 0 }) false
            false)

  -- The end of `post_putImms`, for what came of either way to post.
  unfoldable pub finish_put_imms : Memory → Post → Bool → Outcome b → Outcome b
  unfolding or_backlog push_put_imms
  finish_put_imms mem p allow_retry (Outcome.returned error e) =
      or_backlog (error, e) allow_retry (λ e'. push_put_imms mem e' p) ErrorCode.done_backlog
  finish_put_imms mem p allow_retry Outcome.self_deadlock = Outcome.self_deadlock
  finish_put_imms mem p allow_retry Outcome.assertion_failed = Outcome.assertion_failed

  unfoldable pub post_put_imms : Memory → Endpoint b → Post → Bool → Bool → Outcome b
  unfolding try_post post_put_imms_fallback finish_put_imms no_backlog put_imms_request
  post_put_imms mem e p allow_retry force_post = finish_put_imms mem p allow_retry (
      if not force_post && not (no_backlog e p.rank)
      then Outcome.returned ErrorCode.retry_backlog e
      else if e.support_putimm
      then (let out = post_impl mem e (put_imms_request p) (not allow_retry || force_post) in
          Outcome.returned out.0 out.1)
      else post_put_imms_fallback mem e p (not allow_retry || force_post))

  -- A put of high priority whose context carries the immediate data.
  unfoldable pub post_put_imm_fallback : Memory → Endpoint b → Post → ErrorCode × Endpoint b
  unfolding post_impl put_request
  post_put_imm_fallback mem e p =
      post_impl mem e
        (record (put_request p) {
          user_context = Context.extended p.rank p.imm_data 1 p.user_context;
        })
        true

  unfoldable pub post_put_imm : Memory → Endpoint b → Post → Bool → Bool → Outcome b
  unfolding post_impl post_put_imm_fallback or_backlog push_put_imm no_backlog put_imm_request
  post_put_imm mem e p allow_retry force_post =
      or_backlog
        (if not force_post && not (no_backlog e p.rank)
          then (ErrorCode.retry_backlog, e)
          else if e.support_putimm
          then post_impl mem e (put_imm_request p) (not allow_retry || force_post)
          else post_put_imm_fallback mem e p)
        allow_retry (λ e'. push_put_imm mem e' p) ErrorCode.posted_backlog

  -- The switch of `progress`.
  unfoldable pub repost : Memory → Endpoint b → Post → Op → Outcome b
  unfolding post_sends post_send post_puts post_put post_put_imms post_put_imm post_get
  repost mem e p Op.sends = post_sends mem e p true true
  repost mem e p Op.send = post_send mem e p true true
  repost mem e p Op.puts = post_puts mem e p true true
  repost mem e p Op.put = post_put mem e p true true
  repost mem e p Op.put_imms = post_put_imms mem e p true true
  repost mem e p Op.put_imm = post_put_imm mem e p true true
  repost mem e p Op.get = post_get mem e p true true

  -- What `progress` leaves behind a post of the first entry `p`, with its lock released.
  unfoldable pub popped : Post → Outcome b → Option (Bool × Endpoint b)
  unfolding is_retry no_entry
  popped p (Outcome.returned error e) =
      if is_retry error
      then some (false, record e { locked = false })
      else some (
        true,
        record e {
          backlog_queue = drop 1 e.backlog_queue;
          empty = if no_entry (drop 1 e.backlog_queue) then true else e.empty;
          locked = false;
          nentries_per_rank = update e.nentries_per_rank p.rank (e.nentries_per_rank p.rank - 1);
        },
      )
  popped p Outcome.self_deadlock = none
  popped p Outcome.assertion_failed = none

  unfoldable pub progress_queue : Memory → Endpoint b → List Post → Option (Bool × Endpoint b)
  unfolding repost popped
  progress_queue mem e [] = some (false, record e { empty = true; locked = false })
  progress_queue mem e (p ∷ rest) = popped p (repost mem (record e { locked = true }) p p.op)

  -- `none` when the call does not return; `contended` when another thread holds the lock.
  unfoldable pub progress : Memory → Bool → Endpoint b → Option (Bool × Endpoint b)
  unfolding progress_queue
  progress mem contended e =
      if e.empty
      then some (false, e)
      else if contended
      then some (false, e)
      else progress_queue mem e e.backlog_queue
