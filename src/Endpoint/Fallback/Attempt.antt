-- ===== src/Endpoint/Fallback/Attempt.antt =====
-- An attempt of a post that replaces another, and what it is to leave; with the put whose context
-- carries the immediate data.
use lci.Base.{
  ℕ, ◌≡◌, refl, sym, subst, ◌∙◌, ◌⊎◌, inl, inr, Bool, true, false, not, List, [], ◌∷◌, ◌++◌,
  if◌then◌else◌, Bool-cases, ==→eq, ◌||◌,
}
use lci.Endpoint.{
  ErrorCode, is_done, is_retry, Op, Buffer, Context, Post, Backend, Memory, handed, hand_over,
  Endpoint, Outcome,
}
use lci.Endpoint.Posting.{
  sends_request, puts_request, put_request, put_imm_request, enqueue, no_backlog, post_impl,
  or_backlog, post_put_imm, post_put_imm_fallback, push_put_imm,
}
use lci.Endpoint.Order.{
  request_of, settled, IsSettled, of_rank, sequence, IsValid, IsTaken, IsPosted, post_impl_lem,
  or_backlog_lem,
}

-- The send that carries the immediate data of a put.
unfoldable pub signal_of : Post → Post
signal_of p = record p { buffer = Buffer.null; size = 0; user_context = Context.plain 0 }

-- What an operation hands over where its put with immediate data is replaced: a put and a send, or a
-- put whose context holds the immediate data.
unfoldable pub replaced : Memory → Op → Post → List Post
unfolding signal_of request_of
replaced mem Op.put_imms p =
    handed mem (puts_request p) ∷ handed mem (sends_request (signal_of p)) ∷ []
replaced mem Op.put_imm p =
    handed mem (record (put_request p) {
      user_context = Context.extended p.rank p.imm_data 1 p.user_context;
    })
    ∷ []
replaced mem op p = handed mem (request_of op p) ∷ []

-- A network that completes an injected put or send at once, or asks for a retry.
abbrev pub IsPrompt : Backend → Type 0
IsPrompt b =
    (s : b.State) (q : Post) (high : Bool)
    → (q.op ≡ Op.puts) ⊎ (q.op ≡ Op.sends)
    → (is_done (b.post_impl s q high).0 ≡ true) ⊎ (is_retry (b.post_impl s q high).0 ≡ true)

module _ {b : Backend} where
  -- A post came back, and unless it is to be retried the last posts of its rank are those of the
  -- request itself, or those that replace it.
  pub record IsRealised (mem : Memory) (e : Endpoint b) (op : Op) (p : Post) (out : Outcome b)
      : Type 0 where
    pub error : ErrorCode
    pub after : Endpoint b
    pub returns : out ≡ Outcome.returned error after
    pub valid : IsValid after
    pub posts : List Post
    pub which :
        (posts ≡ handed mem (request_of op p) ∷ [])
        ⊎ ((e.support_putimm ≡ false) × (posts ≡ replaced mem op p))
    pub order :
        (r : ℕ)
        → sequence after r
          ≡ (if is_retry error then sequence e r else sequence e r ++ of_rank r posts)

  pub posted-IsRealised :
      (mem : Memory) (e : Endpoint b) (op : Op) (p : Post) (out : Outcome b)
      → IsPosted e (handed mem (request_of op p)) out
      → IsRealised mem e op p out
  unfolding of_rank
  posted-IsRealised mem e op p out h = record {
    error = h.error;
    after = h.after;
    returns = h.returns;
    valid = h.taken.valid;
    posts = handed mem (request_of op p) ∷ [];
    which = inl refl;
    order = h.taken.order;
  }

  -- What a retry leaves is the same for every post.
  retried-IsTaken :
      (e : Endpoint b) (x y : Post) (error : ErrorCode) (after : Endpoint b)
      → is_retry error ≡ true
      → IsTaken e x error after
      → IsTaken e y error after
  retried-IsTaken e x y error after again t = record {
    valid = t.valid;
    order = λ r. t.order r ∙ rw again refl;
  }

  -- An attempt with a single post in place of the request.
  pub attempt-IsRealised :
      (mem : Memory) (e : Endpoint b) (op : Op) (p x entry : Post) (tried : ErrorCode × Endpoint b)
      (allow_retry : Bool) (code : ErrorCode)
      → (is_retry tried.0 ≡ true) ⊎ ((e.support_putimm ≡ false) × (x ∷ [] ≡ replaced mem op p))
      → IsTaken e x tried.0 tried.1
      → IsSettled entry
      → settled entry ≡ handed mem (request_of op p)
      → entry.rank ≡ (handed mem (request_of op p)).rank
      → is_retry code ≡ false
      → IsRealised mem e op p (or_backlog tried allow_retry (λ e'. enqueue e' entry) code)
  unfolding or_backlog of_rank
  attempt-IsRealised mem e op p x entry tried allow_retry code why taken ready same rank final =
      elim (Bool-cases (is_retry tried.0)) [
        | inl again ↦ posted-IsRealised mem e op p _ (
            or_backlog_lem e tried entry (handed mem (request_of op p)) allow_retry code
              (retried-IsTaken e x (handed mem (request_of op p)) tried.0 tried.1 again taken) ready
              same rank final)
        | inr took ↦ record {
          error = tried.0;
          after = tried.1;
          returns = rw took refl;
          valid = taken.valid;
          posts = x ∷ [];
          which = elim why [ inl again ↦ absurd (clash again took) | inr w ↦ inr w ];
          order = taken.order;
        }
      ]
    where
      clash : {c : Bool} → c ≡ true → c ≡ false → ⊥
      clash h k = cc

  pub nothing-IsTaken :
      (e : Endpoint b) (x : Post) → IsValid e → IsTaken e x ErrorCode.retry_backlog e
  unfolding is_retry
  nothing-IsTaken e x valid = record { valid = valid; order = λ r. refl }

  pub none_there :
      (e : Endpoint b) (rank : ℕ) → no_backlog e rank ≡ true → e.nentries_per_rank rank ≡ 0
  unfolding no_backlog
  none_there e rank h = ==→eq (e.nentries_per_rank rank) 0 h

  -- A single put in place of the request, or the request in the queue.
  pub put_imm-IsRealised :
      (mem : Memory) (e : Endpoint b) (p : Post) (allow_retry : Bool)
      → IsValid e
      → e.support_putimm ≡ false
      → IsRealised mem e Op.put_imm p (post_put_imm mem e p allow_retry false)
  unfolding post_put_imm push_put_imm is_retry handed hand_over request_of settled replaced
      post_put_imm_fallback put_request put_imm_request
  put_imm-IsRealised mem e p allow_retry valid unsupported =
      subst
        (λ s. IsRealised mem e Op.put_imm p (
          attempt (
            if not (no_backlog e p.rank)
            then (ErrorCode.retry_backlog, e)
            else if s
            then post_impl mem e (put_imm_request p) (not allow_retry || false)
            else post_put_imm_fallback mem e p)))
        (sym unsupported)
        (elim (Bool-cases (no_backlog e p.rank)) [
          | inr waiting ↦
              subst (λ c. IsRealised mem e Op.put_imm p (attempt (tried c))) (sym waiting) queued
          | inl free ↦
              subst (λ c. IsRealised mem e Op.put_imm p (attempt (tried c))) (sym free) (sent free)
        ])
    where
      attempt : ErrorCode × Endpoint b → Outcome b
      attempt t =
          or_backlog t allow_retry (λ e'. enqueue e' (put_imm_request p)) ErrorCode.posted_backlog

      tried : Bool → ErrorCode × Endpoint b
      tried c = if not c then (ErrorCode.retry_backlog, e) else post_put_imm_fallback mem e p

      in_place : Post
      in_place = record (put_request p) {
        user_context = Context.extended p.rank p.imm_data 1 p.user_context;
      }

      queued : IsRealised mem e Op.put_imm p (attempt (ErrorCode.retry_backlog, e))
      queued =
          attempt-IsRealised mem e Op.put_imm p (put_imm_request p) (put_imm_request p)
            (ErrorCode.retry_backlog, e) allow_retry ErrorCode.posted_backlog (inl refl)
            (nothing-IsTaken e (put_imm_request p) valid) (λ m. refl) refl refl refl

      sent :
          no_backlog e p.rank ≡ true
          → IsRealised mem e Op.put_imm p (attempt (post_put_imm_fallback mem e p))
      sent free =
          attempt-IsRealised mem e Op.put_imm p in_place (put_imm_request p)
            (post_put_imm_fallback mem e p) allow_retry ErrorCode.posted_backlog
            (inr (unsupported, refl))
            (post_impl_lem mem e in_place true valid (none_there e p.rank free) refl) (λ m. refl)
            refl refl refl
