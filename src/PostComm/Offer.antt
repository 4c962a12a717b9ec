-- ===== src/PostComm/Offer.antt =====
-- What the network part of a post leaves: the answer, and who has the context and the packet.
use lci.Base.{
  ℕ, ◌≡◌, refl, sym, ap, subst, ◌∙◌, ◌⊎◌, inl, inr, Bool, true, false, ◌&&◌, not, Option, none,
  some, List, [], ◌++◌, Bool-cases, leb, ◌==◌, if◌then◌else◌,
}
use mathlib.Core.Bool.{false≢true}
use lci.Endpoint.{ErrorCode, Op, is_done, is_posted, is_retry}
use lci.PostComm.{PostArgs, Env, Run, Owner, is_given}
use lci.PostComm.Driver.{
  is_retry_lock, is_retry_nomem, delete_context, packets_of, handed_over, posted_by, shm_or_net,
  post_inject, done_if_memory, post_bcopy, post_zcopy, posted_if_done, post_rdv,
}

-- A call that completes at once or asks for a retry, where the caller allows one.
unfoldable pub Quick : Bool → ErrorCode → Type 0
Quick allow_retry error = (is_done error ≡ true) ⊎ ((is_retry error ≡ true) × (allow_retry ≡ true))

-- A call that completes later or asks for a retry.
unfoldable pub Slow : Bool → ErrorCode → Type 0
Slow allow_retry error = (is_posted error ≡ true) ⊎ ((is_retry error ≡ true) × (allow_retry ≡ true))

-- The shared-memory device takes the message, is full, or asks for a retry.
unfoldable pub Shm : Bool → ErrorCode → Type 0
Shm allow_retry error =
    (is_done error ≡ true)
    ⊎ (error ≡ ErrorCode.retry_nomem)
    ⊎ ((error ≡ ErrorCode.retry_lock) × (allow_retry ≡ true))

-- What the other components promise to a post: a blocking `get` of the packet pool gives a packet,
-- and a receive that matches at once is done or becomes a rendezvous.
pub record IsServed (e : Env) (allow_retry : Bool) : Type 0 where
  pub sends : Quick allow_retry (e.post Op.sends)
  pub puts : Quick allow_retry (e.post Op.puts)
  pub put_imms : Quick allow_retry (e.post Op.put_imms)
  pub send : Slow allow_retry (e.post Op.send)
  pub put : Slow allow_retry (e.post Op.put)
  pub put_imm : Slow allow_retry (e.post Op.put_imm)
  pub get : Slow allow_retry (e.post Op.get)
  pub shm : Shm allow_retry e.shm_post_send
  pub pool : is_given (e.get_packet true) ≡ true
  pub matched :
      (error : ErrorCode)
      → e.matched ≡ some error
      → (is_done error ≡ true) ⊎ (is_posted error ≡ true)

-- A run whose context the poster has just made.
pub record IsReady (r : Run) : Type 0 where
  pub context_is : r.context ≡ Owner.poster
  pub nothing_back : r.put_back ≡ []
  pub frees : r.packet_to_free ≡ r.packet

pub put_back_lem :
    (user : Bool) (frees packet : Option ℕ) (back : List ℕ)
    → frees ≡ packet
    → back ≡ []
    → packets_of (if user then none else frees) ++ back ≡ (if user then [] else packets_of packet)
unfolding packets_of
put_back_lem true frees packet back e none_back = none_back
put_back_lem false frees packet back e none_back =
    ap (λ f. packets_of f ++ back) e
    ∙ ap (λ b. packets_of packet ++ b) none_back
    ∙ append_nil packet
  where
    append_nil : (packet : Option ℕ) → packets_of packet ++ [] ≡ packets_of packet
    append_nil none = refl
    append_nil (some p) = refl

-- The context is deleted and its packet is back in the pool, or both are the network's.
unfoldable pub Held : Run → Type 0
Held r =
    ((r.context ≡ Owner.deleted) × (r.put_back ≡ packets_of r.packet))
    ⊎ ((r.context ≡ Owner.network) × (r.put_back ≡ []))

-- A context that is deleted puts its packet back.
pub deleted-Held : (r : Run) → IsReady r → (delete_context r).put_back ≡ packets_of r.packet
unfolding delete_context
deleted-Held r ready =
    put_back_lem false r.packet_to_free r.packet r.put_back ready.frees ready.nothing_back

-- The post is done and keeps its completion object to itself, is posted and has passed it on as
-- `passed` says, or is to be retried and nothing has changed.
unfoldable pub Answer : Bool → Bool → Run → ErrorCode → Run → Type 0
Answer allow_retry passed r error after =
    ((is_done error ≡ true)
      × (after.comp_passed_to_network ≡ false)
      × Held after
      × (after.choice ≡ r.choice))
    ⊎ ((is_posted error ≡ true)
        × (after.comp_passed_to_network ≡ passed)
        × Held after
        × (after.choice ≡ r.choice))
    ⊎ ((is_retry error ≡ true) × (allow_retry ≡ true) × (after ≡ r))

pub record IsAnswered (allow_retry passed : Bool) (r : Run) (result : Option (ErrorCode × Run))
    : Type 0 where
  pub error : ErrorCode
  pub after : Run
  pub runs : result ≡ some (error, after)
  pub answer : Answer allow_retry passed r error after

pub done_excludes :
    (error : ErrorCode)
    → is_done error ≡ true
    → (is_retry error ≡ false) × (is_posted error ≡ false)
unfolding is_done is_retry is_posted
done_excludes ErrorCode.done h = (refl, refl)
done_excludes ErrorCode.done_backlog h = (refl, refl)
done_excludes error h = absurd (false≢true h)

pub posted_excludes :
    (error : ErrorCode)
    → is_posted error ≡ true
    → (is_retry error ≡ false) × (is_done error ≡ false)
unfolding is_done is_retry is_posted
posted_excludes ErrorCode.posted h = (refl, refl)
posted_excludes ErrorCode.posted_backlog h = (refl, refl)
posted_excludes error h = absurd (false≢true h)

pub retry_excludes : (error : ErrorCode) → is_retry error ≡ true → is_posted error ≡ false
unfolding is_posted is_retry
retry_excludes ErrorCode.posted h = absurd (false≢true h)
retry_excludes ErrorCode.posted_backlog h = absurd (false≢true h)
retry_excludes error h = refl

pub done_retry : (error : ErrorCode) → is_retry error ≡ true → is_done error ≡ false
unfolding is_done is_retry
done_retry ErrorCode.done h = absurd (false≢true h)
done_retry ErrorCode.done_backlog h = absurd (false≢true h)
done_retry error h = refl

module _ (allow_retry passed : Bool) (r : Run) (ready : IsReady r) where
  Quick-IsAnswered :
      (error : ErrorCode)
      → Quick allow_retry error
      → r.comp_passed_to_network ≡ false
      → IsAnswered allow_retry passed r (posted_by error r)
  unfolding posted_by handed_over Quick Answer Held
  Quick-IsAnswered error (inl finished) kept = record {
    error = error;
    after = record r { context = Owner.network };
    runs = rw (done_excludes error finished).0 refl;
    answer = inl (finished, kept, inr (refl, ready.nothing_back), refl);
  }
  Quick-IsAnswered error (inr (again, allowed)) kept = record {
    error = error;
    after = r;
    runs = rw again refl;
    answer = inr (inr (again, allowed, refl));
  }

  Slow-IsAnswered :
      (error : ErrorCode)
      → Slow allow_retry error
      → r.comp_passed_to_network ≡ passed
      → IsAnswered allow_retry passed r (posted_by error r)
  unfolding posted_by handed_over Slow Answer Held
  Slow-IsAnswered error (inl pending) kept = record {
    error = error;
    after = record r { context = Owner.network };
    runs = rw (posted_excludes error pending).0 refl;
    answer = inr (inl (pending, kept, inr (refl, ready.nothing_back), refl));
  }
  Slow-IsAnswered error (inr (again, allowed)) kept = record {
    error = error;
    after = r;
    runs = rw again refl;
    answer = inr (inr (again, allowed, refl));
  }

  -- Over shared memory first: done there, or the answer of the network.
  shm_or_net-IsAnswered :
      (e : Env) (op : Op)
      → Shm allow_retry e.shm_post_send
      → IsAnswered allow_retry passed r (posted_by (e.post op) r)
      → IsAnswered allow_retry passed r (shm_or_net e op r)
  unfolding shm_or_net Shm Answer Held delete_context is_done posted_by is_retry_lock is_retry_nomem
      is_retry
  shm_or_net-IsAnswered e op shm net = elim (Bool-cases e.shm_can_send) [
    | inr remote ↦ record {
      error = net.error;
      after = net.after;
      runs = rw remote net.runs;
      answer = net.answer;
    }
    | inl near ↦ elim shm [
      | inl taken ↦ record {
        error = ErrorCode.done;
        after = record (delete_context r) { comp_passed_to_network = false };
        runs = rw (near, taken) refl;
        answer = inl (refl, refl, inl (refl, deleted-Held r ready), refl);
      }
      | inr (inl full) ↦ record {
        error = net.error;
        after = net.after;
        runs = ap (λ c. chosen_by c) near ∙ ap (λ c. after_shm c) full ∙ net.runs;
        answer = net.answer;
      }
      | inr (inr (busy, allowed)) ↦ record {
        error = ErrorCode.retry_lock;
        after = r;
        runs = ap (λ c. chosen_by c) near ∙ ap (λ c. after_shm c) busy;
        answer = inr (inr (refl, allowed, refl));
      }
    ]
  ]
    where
      after_shm : ErrorCode → Option (ErrorCode × Run)
      after_shm code =
          if is_done code
          then some (ErrorCode.done, record (delete_context r) { comp_passed_to_network = false })
          else if is_retry_lock code
          then some (code, r)
          else if is_retry_nomem code
          then posted_by (e.post op) r
          else none

      chosen_by : Bool → Option (ErrorCode × Run)
      chosen_by can_send =
          if not can_send then posted_by (e.post op) r else after_shm e.shm_post_send

-- The answer to a buffer-copy is reported as done when the buffer is all that the caller waits for.
module _ (allow_retry : Bool) (p : PostArgs) (r : Run) (result : Option (ErrorCode × Run)) where
  done_if_memory-IsAnswered :
      p.args.memory_semantic ≡ true
      → IsAnswered allow_retry false r result
      → IsAnswered allow_retry true r (done_if_memory p result)
  unfolding done_if_memory Answer is_done
  done_if_memory-IsAnswered memory a = elim a.answer [
    | inl (finished, kept, settled, same) ↦ record {
      error = a.error;
      after = a.after;
      runs = rw (a.runs, (done_excludes a.error finished).1) refl;
      answer = inl (finished, kept, settled, same);
    }
    | inr (inl (pending, kept, settled, same)) ↦ record {
      error = ErrorCode.done;
      after = a.after;
      runs = rw (a.runs, pending, memory) refl;
      answer = inl (refl, kept, settled, same);
    }
    | inr (inr (again, allowed, same)) ↦ record {
      error = a.error;
      after = a.after;
      runs = rw (a.runs, retry_excludes a.error again) refl;
      answer = inr (inr (again, allowed, same));
    }
  ]

  done_if_network-IsAnswered :
      p.args.memory_semantic ≡ false
      → IsAnswered allow_retry true r result
      → IsAnswered allow_retry true r (done_if_memory p result)
  unfolding done_if_memory
  done_if_network-IsAnswered memory a = record {
    error = a.error;
    after = a.after;
    runs = rw (a.runs, memory) (either a.error a.after (is_posted a.error));
    answer = a.answer;
  }
    where
      either :
          (error : ErrorCode) (after : Run) (b : Bool)
          → if◌then◌else◌ {A = Option (ErrorCode × Run)}
              (b && false)
              (some (ErrorCode.done, after))
              (some (error, after))
            ≡ some (error, after)
      either error after true = refl
      either error after false = refl

-- A choice between two calls that are both answered.
choice-IsAnswered :
    {allow_retry passed : Bool} {r : Run} {x y : Option (ErrorCode × Run)} (b : Bool)
    → IsAnswered allow_retry passed r x
    → IsAnswered allow_retry passed r y
    → IsAnswered allow_retry passed r (if b then x else y)
choice-IsAnswered true x y = x
choice-IsAnswered false x y = y

-- A rendezvous that is done with its first message is only posted.
posted_if_done-Slow :
    (allow_retry : Bool) (error : ErrorCode)
    → Quick allow_retry error ⊎ Slow allow_retry error
    → Slow allow_retry (posted_if_done error)
unfolding posted_if_done Quick Slow is_posted
posted_if_done-Slow allow_retry error (inl (inl finished)) = inl (rw finished refl)
posted_if_done-Slow allow_retry error (inl (inr (again, allowed))) =
    inr (rw (done_retry error again) again, allowed)
posted_if_done-Slow allow_retry error (inr (inl pending)) =
    inl (rw (posted_excludes error pending).1 pending)
posted_if_done-Slow allow_retry error (inr (inr (again, allowed))) =
    inr (rw (done_retry error again) again, allowed)

module _ (e : Env) (p : PostArgs) (r : Run) (served : IsServed e p.allow_retry)
    (ready : IsReady r) where
  pub inject-IsAnswered :
      r.comp_passed_to_network ≡ false → IsAnswered p.allow_retry true r (post_inject e p r)
  unfolding post_inject
  inject-IsAnswered kept =
      choice-IsAnswered (not p.args.has_rmr)
        (shm_or_net-IsAnswered p.allow_retry true r ready e Op.sends served.shm
          (Quick-IsAnswered p.allow_retry true r ready (e.post Op.sends) served.sends kept))
        (choice-IsAnswered (r.choice.rhandler == 0)
          (Quick-IsAnswered p.allow_retry true r ready (e.post Op.puts) served.puts kept)
          (Quick-IsAnswered p.allow_retry true r ready (e.post Op.put_imms) served.put_imms kept))

  -- The three calls of a buffer-copy or a zero-copy.
  slow_calls :
      (passed : Bool)
      → r.comp_passed_to_network ≡ passed
      → IsAnswered p.allow_retry passed r (posted_by (e.post Op.send) r)
        × IsAnswered p.allow_retry passed r (posted_by (e.post Op.put) r)
        × IsAnswered p.allow_retry passed r (posted_by (e.post Op.put_imm) r)
  slow_calls passed kept = (
    Slow-IsAnswered p.allow_retry passed r ready (e.post Op.send) served.send kept,
    Slow-IsAnswered p.allow_retry passed r ready (e.post Op.put) served.put kept,
    Slow-IsAnswered p.allow_retry passed r ready (e.post Op.put_imm) served.put_imm kept,
  )

  pub bcopy-IsAnswered :
      r.comp_passed_to_network ≡ not p.args.memory_semantic
      → IsAnswered p.allow_retry true r (post_bcopy e p r)
  unfolding post_bcopy
  bcopy-IsAnswered kept =
      choice-IsAnswered (not p.args.has_rmr)
        (reported (shm_or_net e Op.send r) (λ passed k.
          shm_or_net-IsAnswered p.allow_retry passed r ready e Op.send served.shm
            (slow_calls passed k).0))
        (choice-IsAnswered (r.choice.rhandler == 0)
          (reported (posted_by (e.post Op.put) r) (λ passed k. (slow_calls passed k).1))
          (reported (posted_by (e.post Op.put_imm) r) (λ passed k. (slow_calls passed k).2)))
    where
      reported :
          (result : Option (ErrorCode × Run))
          → ((passed : Bool)
              → r.comp_passed_to_network ≡ passed
              → IsAnswered p.allow_retry passed r result)
          → IsAnswered p.allow_retry true r (done_if_memory p result)
      reported result answers = elim (Bool-cases p.args.memory_semantic) [
        | inl memory ↦
            done_if_memory-IsAnswered p.allow_retry p r result memory
              (answers false (kept ∙ ap not memory))
        | inr network ↦
            done_if_network-IsAnswered p.allow_retry p r result network
              (answers true (kept ∙ ap not network))
      ]

  pub zcopy-IsAnswered :
      r.comp_passed_to_network ≡ true → IsAnswered p.allow_retry true r (post_zcopy e p r)
  unfolding post_zcopy
  zcopy-IsAnswered kept =
      choice-IsAnswered (not p.args.has_rmr) (slow_calls true kept).0 (
        choice-IsAnswered (r.choice.rhandler == 0) (slow_calls true kept).1
          (slow_calls true kept).2)

  pub rdv-IsAnswered :
      r.comp_passed_to_network ≡ true
      → leb 32 p.args.max_bcopy_size ≡ true
      → IsAnswered p.allow_retry true r (post_rdv e p r)
  unfolding post_rdv
  rdv-IsAnswered kept room =
      choice-IsAnswered (leb 32 p.args.max_inject_size)
        (Slow-IsAnswered p.allow_retry true r ready (posted_if_done (e.post Op.sends))
          (posted_if_done-Slow p.allow_retry (e.post Op.sends) (inl served.sends)) kept)
        (subst (λ b. IsAnswered p.allow_retry true r (if b then by_packet else none)) (sym room)
          (Slow-IsAnswered p.allow_retry true r ready (posted_if_done (e.post Op.send))
            (posted_if_done-Slow p.allow_retry (e.post Op.send) (inr served.send)) kept))
    where
      by_packet : Option (ErrorCode × Run)
      by_packet = posted_by (posted_if_done (e.post Op.send)) r

  pub get-IsAnswered :
      r.comp_passed_to_network ≡ true
      → IsAnswered p.allow_retry true r (posted_by (e.post Op.get) r)
  get-IsAnswered kept = Slow-IsAnswered p.allow_retry true r ready (e.post Op.get) served.get kept
