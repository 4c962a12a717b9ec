-- ===== src/Endpoint/Order.antt =====
-- The posts of each rank reach the network in the order in which the user made them, whatever goes
-- through the backlog queue.
use mathlib.Core.List.{append-nil, append_assoc}
use lci.Base.{
  ℕ, zero, suc, ◌+◌, ◌≡◌, refl, sym, ap, ◌∙◌, Bool, true, false, ◌&&◌, ◌||◌, not, List, [], ◌∷◌,
  ◌++◌, if◌then◌else◌, ◌==◌, update, length, arith, Bool-cases, inl, inr, ==→eq, ==_ne, take,
}
use lci.Endpoint.{
  ErrorCode, is_retry, Op, Buffer, Post, Backend, Memory, bytes_of, handed, hand_over, Endpoint,
  Outcome,
}
use lci.Endpoint.Posting.{
  sends_request, send_request, puts_request, put_request, put_imms_request, put_imm_request,
  get_request, enqueue, no_backlog, post_impl, try_post, or_backlog, pushed, post_sends, post_send,
  post_puts, post_put, post_put_imms, post_put_imm, post_get, finish_put_imms, push_put_imm,
  push_put_imms, post_put_imm_fallback, post_put_imms_fallback,
}

unfoldable pub request_of : Op → Post → Post
unfolding sends_request send_request puts_request put_request put_imms_request put_imm_request
    get_request
request_of Op.sends p = sends_request p
request_of Op.send p = send_request p
request_of Op.puts p = puts_request p
request_of Op.put p = put_request p
request_of Op.put_imms p = put_imms_request p
request_of Op.put_imm p = put_imm_request p
request_of Op.get p = get_request p

-- What an entry of the queue will hand over, whatever the users' buffers hold then.
unfoldable pub settled : Post → Post
unfolding handed request_of
settled p = handed (λ a. []) (request_of p.op p)

abbrev pub IsSettled : Post → Type 0
IsSettled p = (mem : Memory) → handed mem (request_of p.op p) ≡ settled p

abbrev pub AllSettled : List Post → Type 0
AllSettled [] = ◌≡◌ {A = ℕ} 0 0
AllSettled (p ∷ ps) = IsSettled p × AllSettled ps

-- The operations for which a network may have no call.
unfoldable pub puts_imm : Op → Bool
puts_imm Op.put_imms = true
puts_imm Op.put_imm = true
puts_imm op = false

unfoldable pub of_rank : ℕ → List Post → List Post
of_rank r [] = []
of_rank r (p ∷ ps) = let rest = of_rank r ps in if r == p.rank then p ∷ rest else rest

unfoldable pub settled_of_rank : ℕ → List Post → List Post
unfolding settled
settled_of_rank r [] = []
settled_of_rank r (p ∷ ps) =
    let rest = settled_of_rank r ps in if r == p.rank then settled p ∷ rest else rest

pub of_rank-append :
    (r : ℕ) (xs ys : List Post) → of_rank r (xs ++ ys) ≡ of_rank r xs ++ of_rank r ys
unfolding of_rank
of_rank-append r [] ys = refl
of_rank-append r (x ∷ xs) ys = ground (arith, of_rank-append r xs ys)

settled-append :
    (r : ℕ) (xs : List Post) (p : Post)
    → settled_of_rank r (xs ++ (p ∷ []))
      ≡ settled_of_rank r xs ++ (if r == p.rank then settled p ∷ [] else [])
unfolding settled_of_rank
settled-append r [] p = ground arith
settled-append r (x ∷ xs) p = ground (arith, settled-append r xs p)

count-append :
    (r : ℕ) (xs : List Post) (p : Post)
    → length (of_rank r (xs ++ (p ∷ [])))
      ≡ (if r == p.rank then length (of_rank r xs) + 1 else length (of_rank r xs))
unfolding of_rank
count-append r [] p = ground arith
count-append r (x ∷ xs) p = ground (arith, count-append r xs p)

pub none_settled : (r : ℕ) (xs : List Post) → length (of_rank r xs) ≡ 0 → settled_of_rank r xs ≡ []
unfolding of_rank settled_of_rank
none_settled r [] h = refl
none_settled r (x ∷ xs) h = ground (arith, none_settled r xs)

append-AllSettled :
    (xs : List Post) (p : Post) → AllSettled xs → IsSettled p → AllSettled (xs ++ (p ∷ []))
append-AllSettled [] p h hp = (hp, refl)
append-AllSettled (x ∷ xs) p h hp = (h.0, append-AllSettled xs p h.1 hp)

take_twice : (n : ℕ) (xs : List ℕ) → take n (take n xs) ≡ take n xs
take_twice zero xs = refl
take_twice (suc n) [] = refl
take_twice (suc n) (x ∷ xs) = ap (λ r. x ∷ r) (take_twice n xs)

pub copied_twice :
    (mem : Memory) (buffer : Buffer) (n : ℕ)
    → take n (bytes_of mem buffer n) ≡ bytes_of mem buffer n
unfolding bytes_of
copied_twice mem Buffer.null zero = refl
copied_twice mem Buffer.null (suc n) = refl
copied_twice mem (Buffer.user address) n = take_twice n (mem address)
copied_twice mem (Buffer.copied bytes) n = take_twice n bytes

-- What `push_sends` keeps of a buffer.
kept_bytes :
    (m mem : Memory) (buffer : Buffer) (n : ℕ)
    → bytes_of m (if not (n == 0) then Buffer.copied (bytes_of mem buffer n) else Buffer.null) n
      ≡ bytes_of mem buffer n
unfolding bytes_of
kept_bytes m mem Buffer.null zero = refl
kept_bytes m mem (Buffer.user address) zero = refl
kept_bytes m mem (Buffer.copied bytes) zero = refl
kept_bytes m mem buffer (suc n) =
    rw (==_ne (suc n) 0 (λ e. ground arith)) (copied_twice mem buffer (suc n))

module _ {b : Backend} where
  -- What the network took for a rank, and then what waits for it.
  unfoldable pub sequence : Endpoint b → ℕ → List Post
  unfolding of_rank settled_of_rank
  sequence e r = of_rank r e.accepted ++ settled_of_rank r e.backlog_queue

  -- The counters count the entries, the flag is not set over entries, and nothing in the queue
  -- depends on a buffer that the user has back.
  pub record IsValid (e : Endpoint b) : Type 0 where
    pub counts : (r : ℕ) → e.nentries_per_rank r ≡ length (of_rank r e.backlog_queue)
    pub flagged : e.empty ≡ true → e.backlog_queue ≡ []
    pub all_settled : AllSettled e.backlog_queue
    pub unlocked : e.locked ≡ false

  -- What a post left: a retry changed nothing in the sequences, and otherwise the post is the last
  -- of its rank.
  pub record IsTaken (e : Endpoint b) (p : Post) (error : ErrorCode) (after : Endpoint b)
      : Type 0 where
    pub valid : IsValid after
    pub order :
        (r : ℕ)
        → sequence after r ≡ (
            if is_retry error
            then sequence e r
            else sequence e r ++ (if r == p.rank then p ∷ [] else []))

  pub record IsPosted (e : Endpoint b) (p : Post) (out : Outcome b) : Type 0 where
    pub error : ErrorCode
    pub after : Endpoint b
    pub returns : out ≡ Outcome.returned error after
    pub taken : IsTaken e p error after

  pub enqueue_lem :
      (e0 e : Endpoint b) (entry p : Post) (code : ErrorCode)
      → IsValid e
      → ((r : ℕ) → sequence e r ≡ sequence e0 r)
      → IsSettled entry
      → settled entry ≡ p
      → entry.rank ≡ p.rank
      → is_retry code ≡ false
      → IsPosted e0 p (pushed code (enqueue e entry))
  unfolding enqueue pushed sequence
  enqueue_lem e0 e entry p code valid kept ready same rank final = record {
    error = code;
    after = record e {
      nentries_per_rank =
          update e.nentries_per_rank entry.rank (e.nentries_per_rank entry.rank + 1);
      backlog_queue = e.backlog_queue ++ (entry ∷ []);
      empty = false;
      locked = false;
    };
    returns = rw (valid.unlocked) refl;
    taken = record {
      valid = record {
        counts = λ r. ground (arith, count-append r e.backlog_queue entry, valid.counts r);
        flagged = λ e. absurd (ground arith);
        all_settled = append-AllSettled e.backlog_queue entry valid.all_settled ready;
        unlocked = refl;
      };
      order = λ r.
          rw (final, settled-append r e.backlog_queue entry, same, rank)
            (sym (
                append_assoc (of_rank r e.accepted) (settled_of_rank r e.backlog_queue)
                  (if r == p.rank then p ∷ [] else []))
              ∙ ap (λ s. s ++ (if r == p.rank then p ∷ [] else [])) (kept r));
    };
  }

  pub accept_order :
      (e : Endpoint b) (p : Post) (r : ℕ)
      → IsValid e
      → e.nentries_per_rank p.rank ≡ 0
      → of_rank r (e.accepted ++ (p ∷ [])) ++ settled_of_rank r e.backlog_queue
        ≡ sequence e r ++ (if r == p.rank then p ∷ [] else [])
  unfolding sequence of_rank
  accept_order e p r valid none_there = elim (Bool-cases (r == p.rank)) [
    | inl own ↦
        rw
          (
            of_rank-append r e.accepted (p ∷ []),
            own,
            none_settled r e.backlog_queue
                (sym (valid.counts r) ∙ ap e.nentries_per_rank (==→eq r p.rank own) ∙ none_there),
            append-nil (of_rank r e.accepted),
          )
          (append-nil (of_rank r e.accepted ++ (p ∷ [])))
    | inr other ↦
        rw (of_rank-append r e.accepted (p ∷ []), other, append-nil (of_rank r e.accepted))
          (sym (append-nil (of_rank r e.accepted ++ settled_of_rank r e.backlog_queue)))
  ]

  pub post_impl_lem :
      (mem : Memory) (e : Endpoint b) (p : Post) (high : Bool)
      → IsValid e
      → e.nentries_per_rank p.rank ≡ 0
      → (handed mem p).rank ≡ p.rank
      → IsTaken e (handed mem p) (post_impl mem e p high).0 (post_impl mem e p high).1
  unfolding post_impl sequence
  post_impl_lem mem e p high valid none_there rank = record {
    valid = record {
      counts = valid.counts;
      flagged = valid.flagged;
      all_settled = valid.all_settled;
      unlocked = valid.unlocked;
    };
    order = λ r. elim (Bool-cases (is_retry (b.post_impl e.net p high).0)) [
      | inl again ↦ rw (again) refl
      | inr final ↦ rw (final) (accept_order e (handed mem p) r valid (rw (rank) none_there))
    ];
  }

  -- Behind entries of its rank a post is not even tried.
  pub guarded :
      (mem : Memory) (e : Endpoint b) (p : Post) (tried : ErrorCode × Endpoint b)
      → IsValid e
      → (e.nentries_per_rank p.rank ≡ 0 → IsTaken e (handed mem p) tried.0 tried.1)
      → let out = if not (no_backlog e p.rank) then (ErrorCode.retry_backlog, e) else tried in
        IsTaken e (handed mem p) out.0 out.1
  unfolding no_backlog is_retry sequence
  guarded mem e p tried valid taken = elim (Bool-cases (e.nentries_per_rank p.rank == 0)) [
    | inl free ↦ rw (free) (taken (==→eq (e.nentries_per_rank p.rank) 0 free))
    | inr waiting ↦ rw (waiting) (record { valid = valid; order = λ r. refl })
  ]

  -- A post that ends in the network or, if it may not be retried, in the queue.
  pub or_backlog_lem :
      (e : Endpoint b) (tried : ErrorCode × Endpoint b) (entry p : Post) (allow_retry : Bool)
      (code : ErrorCode)
      → IsTaken e p tried.0 tried.1
      → IsSettled entry
      → settled entry ≡ p
      → entry.rank ≡ p.rank
      → is_retry code ≡ false
      → IsPosted e p (or_backlog tried allow_retry (λ e'. enqueue e' entry) code)
  unfolding or_backlog
  or_backlog_lem e tried entry p true code done ready same rank final =
      elim (Bool-cases (is_retry tried.0)) [
        | inl again ↦
            rw (again) (record { error = tried.0; after = tried.1; returns = refl; taken = done })
        | inr took ↦
            rw (took) (record { error = tried.0; after = tried.1; returns = refl; taken = done })
      ]
  or_backlog_lem e tried entry p false code done ready same rank final =
      elim (Bool-cases (is_retry tried.0)) [
        | inl again ↦ rw (again) (
            enqueue_lem e tried.1 entry p code done.valid (λ r. done.order r ∙ rw (again) refl)
              ready same rank final)
        | inr took ↦
            rw (took) (record { error = tried.0; after = tried.1; returns = refl; taken = done })
      ]

  -- An operation whose queue entry hands over what the request does.
  pub post-IsPosted :
      (mem : Memory) (e : Endpoint b) (q entry : Post) (allow_retry : Bool) (code : ErrorCode)
      → IsValid e
      → (handed mem q).rank ≡ q.rank
      → IsSettled entry
      → settled entry ≡ handed mem q
      → entry.rank ≡ q.rank
      → is_retry code ≡ false
      → IsPosted e (handed mem q) (
          or_backlog (try_post mem e q allow_retry false) allow_retry (λ e'. enqueue e' entry) code)
  unfolding try_post
  post-IsPosted mem e q entry allow_retry code valid rank ready same erank final =
      or_backlog_lem e (try_post mem e q allow_retry false) entry (handed mem q) allow_retry code
        (guarded mem e q (post_impl mem e q (not allow_retry || false)) valid
          (λ none_there. post_impl_lem mem e q (not allow_retry || false) valid none_there rank))
        ready same (erank ∙ sym rank) final

  -- With puts with immediate data the two last operations post as the others do.
  put_imm_supported :
      (mem : Memory) (e : Endpoint b) (p : Post) (allow_retry : Bool)
      → e.support_putimm ≡ true
      → post_put_imm mem e p allow_retry false
        ≡ or_backlog
            (try_post mem e (put_imm_request p) allow_retry false)
            allow_retry
            (λ e'. enqueue e' (put_imm_request p))
            ErrorCode.posted_backlog
  unfolding post_put_imm try_post push_put_imm
  put_imm_supported mem e p allow_retry support =
      ap
        (λ s.
          or_backlog
            (if not (no_backlog e p.rank)
              then (ErrorCode.retry_backlog, e)
              else if s
              then post_impl mem e (put_imm_request p) (not allow_retry || false)
              else post_put_imm_fallback mem e p)
            allow_retry (λ e'. enqueue e' (put_imm_request p)) ErrorCode.posted_backlog)
        support

  put_imms_supported :
      (mem : Memory) (e : Endpoint b) (p : Post) (allow_retry : Bool)
      → e.support_putimm ≡ true
      → post_put_imms mem e p allow_retry false
        ≡ or_backlog
            (try_post mem e (put_imms_request p) allow_retry false)
            allow_retry
            (λ e'. enqueue e' (record (put_imms_request p) {
              buffer = Buffer.copied (bytes_of mem p.buffer p.size);
            }))
            ErrorCode.done_backlog
  unfolding post_put_imms try_post push_put_imms finish_put_imms
  put_imms_supported mem e p allow_retry support =
      ap
        (λ s. finish_put_imms mem p allow_retry (
          if not (no_backlog e p.rank)
          then Outcome.returned ErrorCode.retry_backlog e
          else if s
          then Outcome.returned tried.0 tried.1
          else post_put_imms_fallback mem e p (not allow_retry || false)))
        support
      ∙ elim (Bool-cases (no_backlog e p.rank)) [
        | inl free ↦ rw (free) refl
        | inr waiting ↦ rw (waiting) refl
      ]
    where
      tried : ErrorCode × Endpoint b
      tried = post_impl mem e (put_imms_request p) (not allow_retry || false)

  supported : (e : Endpoint b) → not e.support_putimm ≡ false → e.support_putimm ≡ true
  supported e h = ground arith

  -- All seven operations.
  unfoldable pub user_post : Memory → Endpoint b → Post → Op → Bool → Outcome b
  user_post mem e p Op.sends allow_retry = post_sends mem e p allow_retry false
  user_post mem e p Op.send allow_retry = post_send mem e p allow_retry false
  user_post mem e p Op.puts allow_retry = post_puts mem e p allow_retry false
  user_post mem e p Op.put allow_retry = post_put mem e p allow_retry false
  user_post mem e p Op.put_imms allow_retry = post_put_imms mem e p allow_retry false
  user_post mem e p Op.put_imm allow_retry = post_put_imm mem e p allow_retry false
  user_post mem e p Op.get allow_retry = post_get mem e p allow_retry false

  -- On a network that can put with immediate data, and for the other operations on every network,
  -- every post of a valid endpoint comes back and leaves it valid.
  pub user_post-IsPosted :
      (mem : Memory) (e : Endpoint b) (p : Post) (op : Op) (allow_retry : Bool)
      → IsValid e
      → (puts_imm op && not e.support_putimm) ≡ false
      → IsPosted e (handed mem (request_of op p)) (user_post mem e p op allow_retry)
  unfolding user_post request_of handed post_sends post_send post_puts post_put post_get try_post
      post_put_imms post_put_imm finish_put_imms settled hand_over puts_imm
  user_post-IsPosted mem e p Op.send allow_retry valid support =
      post-IsPosted mem e (send_request p) (send_request p) allow_retry ErrorCode.posted_backlog
        valid refl (λ m. refl) refl refl refl
  user_post-IsPosted mem e p Op.put allow_retry valid support =
      post-IsPosted mem e (put_request p) (put_request p) allow_retry ErrorCode.posted_backlog valid
        refl (λ m. refl) refl refl refl
  user_post-IsPosted mem e p Op.get allow_retry valid support =
      post-IsPosted mem e (get_request p) (get_request p) allow_retry ErrorCode.posted_backlog valid
        refl (λ m. refl) refl refl refl
  user_post-IsPosted mem e p Op.sends allow_retry valid support =
      post-IsPosted mem e (sends_request p)
        (record (sends_request p) {
          buffer =
              if not (p.size == 0)
              then Buffer.copied (bytes_of mem p.buffer p.size)
              else Buffer.null;
        })
        allow_retry ErrorCode.done_backlog valid refl
        (λ m. rw (kept_bytes m mem p.buffer p.size, kept_bytes (λ a. []) mem p.buffer p.size) refl)
        (rw (kept_bytes (λ a. []) mem p.buffer p.size) refl) refl refl
  user_post-IsPosted mem e p Op.puts allow_retry valid support =
      post-IsPosted mem e (puts_request p)
        (record (puts_request p) { buffer = Buffer.copied (bytes_of mem p.buffer p.size) })
        allow_retry ErrorCode.done_backlog valid refl (λ m. refl)
        (rw (copied_twice mem p.buffer p.size) refl) refl refl
  user_post-IsPosted mem e p Op.put_imm allow_retry valid support =
      rw (put_imm_supported mem e p allow_retry (supported e support)) (
        post-IsPosted mem e (put_imm_request p) (put_imm_request p) allow_retry
          ErrorCode.posted_backlog valid refl (λ m. refl) refl refl refl)
  user_post-IsPosted mem e p Op.put_imms allow_retry valid support =
      rw (put_imms_supported mem e p allow_retry (supported e support)) (
        post-IsPosted mem e (put_imms_request p)
          (record (put_imms_request p) { buffer = Buffer.copied (bytes_of mem p.buffer p.size) })
          allow_retry ErrorCode.done_backlog valid refl (λ m. refl)
          (rw (copied_twice mem p.buffer p.size) refl) refl refl)
