-- ===== src/Endpoint/Drain.antt =====
-- `backlog_queue_t::progress` (src/backlog_queue/backlog_queue_inline.hpp): what draining the queue
-- keeps, and where it blocks.
use mathlib.Core.List.{append-nil, append_assoc}
use lci.Base.{
  ℕ, suc, ◌-◌, ◌≡◌, refl, sym, ap, ◌∙◌, Bool, true, false, Option, none, some, List, [], ◌∷◌, ◌++◌,
  if◌then◌else◌, ◌==◌, update, drop, length, arith, Bool-cases, inl, inr, ==_refl, List-cases,
}
use lci.Endpoint.{
  ErrorCode, is_done, is_retry, Op, Buffer, Context, Post, Backend, Memory, handed, hand_over,
  Endpoint, Outcome,
}
use lci.Endpoint.Posting.{
  sends_request, send_request, puts_request, put_request, put_imms_request, put_imm_request,
  get_request, enqueue, no_backlog, post_impl, try_post, or_backlog, pushed, repost, popped,
  progress_queue, progress, no_entry, post_sends, post_send, post_puts, post_put, post_put_imms,
  post_put_imm, post_get, finish_put_imms, push_put_imm, push_put_imms, post_put_imm_fallback,
  post_put_imms_fallback, push_sends, push_send, push_puts, push_put, push_get, signal_sent,
}
use lci.Endpoint.Order.{
  request_of, settled, AllSettled, of_rank, settled_of_rank, of_rank-append, sequence, IsValid,
}

pub handed_rank : (mem : Memory) (p : Post) (op : Op) → (handed mem (request_of op p)).rank ≡ p.rank
unfolding handed hand_over request_of
handed_rank mem p Op.sends = refl
handed_rank mem p Op.send = refl
handed_rank mem p Op.puts = refl
handed_rank mem p Op.put = refl
handed_rank mem p Op.put_imms = refl
handed_rank mem p Op.put_imm = refl
handed_rank mem p Op.get = refl

ap_settled : {xs ys : List Post} → xs ≡ ys → AllSettled xs → AllSettled ys
ap_settled e h = rw (sym e) h

module _ {b : Backend} where
  returned_anyway :
      (tried : ErrorCode × Endpoint b) (push : Endpoint b → Option (Endpoint b)) (code : ErrorCode)
      → or_backlog tried true push code ≡ Outcome.returned tried.0 tried.1
  unfolding or_backlog
  returned_anyway tried push code = elim (Bool-cases (is_retry tried.0)) [
    | inl again ↦ rw (again) refl
    | inr final ↦ rw (final) refl
  ]

  -- A post from the queue is forced and may be retried, so it is what the network says.
  repost_lem :
      (mem : Memory) (e : Endpoint b) (p : Post) (op : Op)
      → e.support_putimm ≡ true
      → let out = post_impl mem e (request_of op p) true in
        repost mem e p op ≡ Outcome.returned out.0 out.1
  unfolding repost post_sends post_send post_puts post_put post_get try_post post_put_imms
      post_put_imm finish_put_imms request_of
  repost_lem mem e p Op.sends support =
      returned_anyway (post_impl mem e (sends_request p) true) (λ e'. push_sends mem e' p)
        ErrorCode.done_backlog
  repost_lem mem e p Op.send support =
      returned_anyway (post_impl mem e (send_request p) true) (λ e'. push_send mem e' p)
        ErrorCode.posted_backlog
  repost_lem mem e p Op.puts support =
      returned_anyway (post_impl mem e (puts_request p) true) (λ e'. push_puts mem e' p)
        ErrorCode.done_backlog
  repost_lem mem e p Op.put support =
      returned_anyway (post_impl mem e (put_request p) true) (λ e'. push_put mem e' p)
        ErrorCode.posted_backlog
  repost_lem mem e p Op.get support =
      returned_anyway (post_impl mem e (get_request p) true) (λ e'. push_get mem e' p)
        ErrorCode.posted_backlog
  repost_lem mem e p Op.put_imms support =
      ap
        (λ s. finish_put_imms mem p true (
          if s
          then Outcome.returned (post_impl mem e (put_imms_request p) true).0
              (post_impl mem e (put_imms_request p) true).1
          else post_put_imms_fallback mem e p true))
        support
      ∙ returned_anyway (post_impl mem e (put_imms_request p) true) (λ e'. push_put_imms mem e' p)
          ErrorCode.done_backlog
  repost_lem mem e p Op.put_imm support =
      ap
        (λ s.
          or_backlog
            (if s then post_impl mem e (put_imm_request p) true else post_put_imm_fallback mem e p)
            true (λ e'. push_put_imm mem e' p) ErrorCode.posted_backlog)
        support
      ∙ returned_anyway (post_impl mem e (put_imm_request p) true) (λ e'. push_put_imm mem e' p)
          ErrorCode.posted_backlog

  -- What a call of `progress` that came back left.
  pub record IsDrained (e : Endpoint b) (out : Option (Bool × Endpoint b)) : Type 0 where
    pub did_something : Bool
    pub after : Endpoint b
    pub returns : out ≡ some (did_something, after)
    pub valid : IsValid after
    pub order : (r : ℕ) → sequence after r ≡ sequence e r
    pub left :
        length e.backlog_queue
        ≡ (if did_something then suc (length after.backlog_queue) else length after.backlog_queue)

  first_order :
      (e : Endpoint b) (p : Post) (rest : List Post) (r : ℕ)
      → e.backlog_queue ≡ p ∷ rest
      → (settled p).rank ≡ p.rank
      → of_rank r (e.accepted ++ (settled p ∷ [])) ++ settled_of_rank r rest ≡ sequence e r
  unfolding sequence of_rank settled_of_rank
  first_order e p rest r first rank =
      rw (first, of_rank-append r e.accepted (settled p ∷ []), rank)
        (elim (Bool-cases (r == p.rank)) [
          | inl own ↦
              rw (own)
                (append_assoc (of_rank r e.accepted) (settled p ∷ []) (settled_of_rank r rest))
          | inr other ↦ rw (other, append-nil (of_rank r e.accepted)) refl
        ])

  popped_lem :
      (mem : Memory) (e : Endpoint b) (p : Post) (rest : List Post)
      → IsValid e
      → e.backlog_queue ≡ p ∷ rest
      → let out = post_impl mem (record e { locked = true }) (request_of p.op p) true in
        IsDrained e (popped p (Outcome.returned out.0 out.1))
  unfolding popped post_impl of_rank sequence no_entry
  popped_lem mem e p rest valid first =
      elim (Bool-cases (is_retry (b.post_impl e.net (request_of p.op p) true).0)) [
        | inl again ↦ rw (again) (record {
          did_something = false;
          after = record e { net = (b.post_impl e.net (request_of p.op p) true).1; locked = false };
          returns = refl;
          valid = record {
            counts = valid.counts;
            flagged = valid.flagged;
            all_settled = valid.all_settled;
            unlocked = refl;
          };
          order = λ r. refl;
          left = refl;
        })
        | inr final ↦ rw (final) (record {
          did_something = true;
          after = record e {
            net = (b.post_impl e.net (request_of p.op p) true).1;
            accepted = e.accepted ++ (handed mem (request_of p.op p) ∷ []);
            backlog_queue = drop 1 e.backlog_queue;
            empty = if no_entry (drop 1 e.backlog_queue) then true else e.empty;
            locked = false;
            nentries_per_rank = update e.nentries_per_rank p.rank (e.nentries_per_rank p.rank - 1);
          };
          returns = refl;
          valid = record {
            counts = λ r. rw (first) (ground (arith, counted r));
            flagged = λ flag. emptied flag;
            all_settled = rw (first) rest_settled.1;
            unlocked = refl;
          };
          order = λ r. reordered r;
          left = rw (first) refl;
        })
      ]
    where
      counted : (r : ℕ) → e.nentries_per_rank r ≡ length (of_rank r (p ∷ rest))
      counted r = valid.counts r ∙ ap (λ q. length (of_rank r q)) first

      rest_settled : AllSettled (p ∷ rest)
      rest_settled = ap_settled first valid.all_settled

      emptied :
          (if no_entry (drop 1 e.backlog_queue) then true else e.empty) ≡ true
          → drop 1 e.backlog_queue ≡ []
      emptied flag = elim (List-cases (drop 1 e.backlog_queue)) [
        | inl nothing ↦ nothing
        | inr (w, ws, more) ↦ absurd (ground (arith, valid.flagged))
      ]

      reordered :
          (r : ℕ)
          → of_rank r (e.accepted ++ (handed mem (request_of p.op p) ∷ []))
              ++ settled_of_rank r (drop 1 e.backlog_queue)
            ≡ sequence e r
      reordered r =
          rw (rest_settled.0 mem, ap (λ q. drop 1 q) first)
            (first_order e p rest r first (unfold settled in handed_rank (λ a. []) p p.op))

  drained :
      (mem : Memory) (e : Endpoint b) (queue : List Post)
      → IsValid e
      → e.support_putimm ≡ true
      → e.backlog_queue ≡ queue
      → IsDrained e (progress_queue mem e queue)
  unfolding progress_queue sequence
  drained mem e [] valid support first = record {
    did_something = false;
    after = record e { empty = true; locked = false };
    returns = refl;
    valid = record {
      counts = valid.counts;
      flagged = λ flag. first;
      all_settled = valid.all_settled;
      unlocked = refl;
    };
    order = λ r. refl;
    left = refl;
  }
  drained mem e (p ∷ rest) valid support first =
      rw (repost_lem mem (record e { locked = true }) p p.op support)
        (popped_lem mem e p rest valid first)

  chosen :
      (mem : Memory) (e : Endpoint b) (flag contended : Bool)
      → IsValid e
      → IsDrained e (progress_queue mem e e.backlog_queue)
      → IsDrained e (
          if flag
          then some (false, e)
          else if contended
          then some (false, e)
          else progress_queue mem e e.backlog_queue)
  chosen mem e true contended valid done = record {
    did_something = false;
    after = e;
    returns = refl;
    valid = valid;
    order = λ r. refl;
    left = refl;
  }
  chosen mem e false true valid done = record {
    did_something = false;
    after = e;
    returns = refl;
    valid = valid;
    order = λ r. refl;
    left = refl;
  }
  chosen mem e false false valid done = done

  -- On a network that can put with immediate data, `progress` of a valid endpoint comes back,
  -- whether or not another thread holds the lock, and leaves the endpoint valid. For every rank,
  -- what the network took followed by what waits is the same as before. It reports that it did
  -- something exactly when the queue is one entry shorter.
  pub progress-IsDrained :
      (mem : Memory) (contended : Bool) (e : Endpoint b)
      → IsValid e
      → e.support_putimm ≡ true
      → IsDrained e (progress mem contended e)
  unfolding progress
  progress-IsDrained mem contended e valid support =
      chosen mem e e.empty contended valid (drained mem e e.backlog_queue valid support refl)

  signal_blocks :
      (mem : Memory) (e : Endpoint b) (p : Post)
      → e.locked ≡ true
      → (e.nentries_per_rank p.rank == 0) ≡ false
      → post_sends mem e p false false ≡ Outcome.self_deadlock
  unfolding post_sends try_post or_backlog push_sends enqueue is_retry pushed no_backlog
      sends_request
  signal_blocks mem e p locked waiting = rw (waiting, locked) refl

  fallback_blocks :
      (mem : Memory) (e : Endpoint b) (p : Post)
      → e.locked ≡ true
      → (e.nentries_per_rank p.rank == 0) ≡ false
      → (b.post_impl e.net (puts_request p) true).0 ≡ ErrorCode.done
      → post_put_imms_fallback mem e p true ≡ Outcome.self_deadlock
  unfolding post_put_imms_fallback post_impl is_retry is_done signal_sent
  fallback_blocks mem e p locked waiting accepted = rw (accepted) (
      ap (signal_sent ErrorCode.done) (
        signal_blocks mem
          (record e {
            net = (b.post_impl e.net (puts_request p) true).1;
            accepted = e.accepted ++ (handed mem (puts_request p) ∷ []);
          })
          (record p { buffer = Buffer.null; size = 0; user_context = Context.plain 0 }) locked
          waiting))

  -- On a network that cannot put with immediate data, `progress` at a queued put with immediate
  -- data never comes back once the network completes the put: the signal that follows finds its
  -- own rank backlogged, and pushes it to the queue whose lock `progress` holds.
  pub progress_blocks :
      (mem : Memory) (e : Endpoint b) (p : Post) (rest : List Post)
      → IsValid e
      → e.support_putimm ≡ false
      → e.empty ≡ false
      → e.backlog_queue ≡ p ∷ rest
      → p.op ≡ Op.put_imms
      → (b.post_impl e.net (puts_request p) true).0 ≡ ErrorCode.done
      → progress mem false e ≡ none
  unfolding progress progress_queue repost post_put_imms finish_put_imms popped of_rank
  progress_blocks mem e p rest valid unsupported awake first op accepted =
      ap (λ flag. if flag then some (false, e) else progress_queue mem e e.backlog_queue) awake
      ∙ ap (progress_queue mem e) first
      ∙ ap (λ o. popped p (repost mem (record e { locked = true }) p o)) op
      ∙ ap
          (λ s. popped p (
            finish_put_imms mem p true (
              if s
              then Outcome.returned (post_impl mem e1 (put_imms_request p) true).0
                  (post_impl mem e1 (put_imms_request p) true).1
              else post_put_imms_fallback mem e1 p true)))
          unsupported
      ∙ ap (λ out. popped p (finish_put_imms mem p true out))
          (fallback_blocks mem e1 p refl counted accepted)
    where
      e1 : Endpoint b
      e1 = record e { locked = true }

      counted : (e.nentries_per_rank p.rank == 0) ≡ false
      counted =
          ground
            (arith, valid.counts p.rank, ap (λ q. length (of_rank p.rank q)) first, ==_refl p.rank)
