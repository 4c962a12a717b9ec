-- ===== src/PostComm/Exit.antt =====
-- The end of a post: no assertion fails, and a status that the caller allows is returned.
use lci.Base.{
  ℕ, ◌≡◌, refl, sym, ap, subst, ◌∙◌, ◌⊎◌, inl, inr, Bool, true, false, ◌&&◌, ◌||◌, not, Option,
  none, some, List, [], Bool-cases, if◌then◌else◌, arith,
}
use lci.Communicate.{is_accepted}
use lci.Endpoint.{ErrorCode, is_done, is_posted, is_retry}
use lci.PostComm.{PostArgs, Run, Owner, is_recv}
use lci.PostComm.Driver.{
  delete_context, packets_of, settled, is_nobody, give_up, with_error, exit_handler,
}
use lci.PostComm.Offer.{
  IsAnswered, Answer, Held, IsReady, put_back_lem, done_excludes, posted_excludes, retry_excludes,
  done_retry,
}

-- The packet that a retry puts back: the one that the post took, and none of the user's.
abbrev pub to_put_back : Run → List ℕ
to_put_back r = if r.user_provided_packet then [] else packets_of r.packet

-- A status with what the caller may do about it. On a retry there is no context or it is deleted,
-- and the packet that the post took is back; otherwise the context and its packet are held.
pub Settled : PostArgs → ErrorCode → Run → Type 0
Settled p error r =
    ((is_retry error ≡ true)
      × (p.allow_retry ≡ true)
      × ((r.context ≡ Owner.nobody) ⊎ (r.context ≡ Owner.deleted))
      × (r.put_back ≡ to_put_back r))
    ⊎ ((is_done error ≡ true) × (p.args.allow_done ≡ true) × (Held r))
    ⊎ ((is_posted error ≡ true) × (p.args.allow_posted ≡ true) × (Held r))

pub record IsReturned (p : PostArgs) (result : Option (ErrorCode × Run)) : Type 0 where
  pub error : ErrorCode
  pub after : Run
  pub runs : result ≡ some (error, after)
  pub outcome : Settled p error after

some_status :
    (p : PostArgs) → is_accepted p.args ≡ true → (p.args.allow_posted || p.args.allow_done) ≡ true
unfolding is_accepted
some_status p h = ground arith

-- What is deleted: the context with the packet that the post took.
abandoned : Run → Run
abandoned r =
    delete_context
      (record r { packet_to_free = if r.user_provided_packet then none else r.packet_to_free })

-- The tests of the exit handler, on their Boolean values.
module _ {ℓ} {A : Type ℓ} where
  verdict : Bool → Bool → Bool → Bool → Bool → Option A → Option A → Option A
  verdict receives finished pending passed again x y =
      if not receives && finished && passed
      then none
      else if not receives && pending && not passed
      then none
      else if again
      then x
      else y

  verdict_cong :
      (receives : Bool) (x y : Option A) {a b c d a' b' c' d' : Bool}
      → a ≡ a'
      → b ≡ b'
      → c ≡ c'
      → d ≡ d'
      → verdict receives a b c d x y ≡ verdict receives a' b' c' d' x y
  verdict_cong receives x y ea eb ec ed = rw (ea, eb, ec, ed) refl

  verdict_done :
      (receives : Bool) (x y : Option A) → verdict receives true false false false x y ≡ y
  unfolding verdict
  verdict_done true x y = refl
  verdict_done false x y = refl

  verdict_posted :
      (receives : Bool) (x y : Option A) → verdict receives false true true false x y ≡ y
  unfolding verdict
  verdict_posted true x y = refl
  verdict_posted false x y = refl

  verdict_retry :
      (receives passed : Bool) (x y : Option A) → verdict receives false false passed true x y ≡ x
  unfolding verdict
  verdict_retry true passed x y = refl
  verdict_retry false passed x y = refl

  verdict_receive :
      (finished pending passed : Bool) (x y : Option A)
      → verdict true finished pending passed false x y ≡ y
  unfolding verdict
  verdict_receive finished pending passed x y = refl

give_up_early :
    (r : Run) → r.context ≡ Owner.nobody → r.user_provided_packet ≡ false → give_up r ≡ some r
unfolding give_up is_nobody abandoned
give_up_early r none_yet own =
    ap
      (λ c.
        if◌then◌else◌ {A = Option Run} (is_nobody c)
          (if r.user_provided_packet then none else some r) (some (abandoned r)))
      none_yet
    ∙ ap (λ b. if◌then◌else◌ {A = Option Run} b none (some r)) own

give_up_late : (r : Run) → r.context ≡ Owner.poster → give_up r ≡ some (abandoned r)
unfolding give_up is_nobody abandoned
give_up_late r made =
    ap
      (λ c.
        if◌then◌else◌ {A = Option Run} (is_nobody c)
          (if r.user_provided_packet then none else some r) (some (abandoned r)))
      made

abandoned_back :
    (r : Run)
    → IsReady r
    → ((abandoned r).put_back ≡ to_put_back (abandoned r)) × ((abandoned r).context ≡ Owner.deleted)
unfolding abandoned delete_context
abandoned_back r ready = (
  put_back_lem r.user_provided_packet r.packet_to_free r.packet r.put_back ready.frees
      ready.nothing_back,
  refl,
)

module _ (p : PostArgs) (ok : is_accepted p.args ≡ true) where
  one_allowed : p.args.allow_posted ≡ false → p.args.allow_done ≡ true
  one_allowed h = sym (ap (λ b. b || p.args.allow_done) h) ∙ some_status p ok

  one_posted : p.args.allow_done ≡ false → p.args.allow_posted ≡ true
  one_posted h = ground (arith, some_status p ok)

  -- A finished operation is reported as the caller allows.
  settled_done :
      (error : ErrorCode) (r : Run) → is_done error ≡ true → Held r → Settled p (settled p error) r
  unfolding settled Settled is_posted
  settled_done error r finished held = elim (Bool-cases p.args.allow_done) [
    | inl done_ok ↦
        subst (λ c. Settled p c r) (sym (as_is done_ok)) (inr (inl (finished, done_ok, held)))
    | inr done_no ↦
        subst (λ c. Settled p c r) (sym (later done_no))
          (inr (inr (refl, one_posted done_no, held)))
  ]
    where
      as_is : p.args.allow_done ≡ true → settled p error ≡ error
      as_is h = rw ((done_excludes error finished).1, finished, h) refl

      later : p.args.allow_done ≡ false → settled p error ≡ ErrorCode.posted
      later h = rw ((done_excludes error finished).1, finished, h) refl

  settled_posted :
      (error : ErrorCode) (r : Run)
      → is_posted error ≡ true
      → Held r
      → Settled p (settled p error) r
  unfolding settled Settled is_done
  settled_posted error r pending held = elim (Bool-cases p.args.allow_posted) [
    | inl posted_ok ↦
        subst (λ c. Settled p c r) (sym (as_is posted_ok)) (inr (inr (pending, posted_ok, held)))
    | inr posted_no ↦
        subst (λ c. Settled p c r) (sym (waited posted_no))
          (inr (inl (refl, one_allowed posted_no, held)))
  ]
    where
      as_is : p.args.allow_posted ≡ true → settled p error ≡ error
      as_is h = rw (pending, h, (posted_excludes error pending).1) refl

      waited : p.args.allow_posted ≡ false → settled p error ≡ ErrorCode.done
      waited h = rw (pending, h, one_allowed h) refl

  settled_retry : (error : ErrorCode) → is_retry error ≡ true → settled p error ≡ error
  unfolding settled
  settled_retry error again = rw (retry_excludes error again, done_retry error again) refl

  exit_verdict :
      (error : ErrorCode) (r : Run)
      → exit_handler p (some (error, r))
        ≡ verdict
            (is_recv r.choice.protocol)
            (is_done error)
            (is_posted error)
            r.comp_passed_to_network
            (is_retry error)
            (with_error (settled p error) (give_up r))
            (some (settled p error, r))
  unfolding exit_handler verdict
  exit_verdict error r = refl

  exit_retry :
      (error : ErrorCode) (r after : Run)
      → is_retry error ≡ true
      → give_up r ≡ some after
      → exit_handler p (some (error, r)) ≡ some (settled p error, after)
  unfolding with_error
  exit_retry error r after again gone =
      exit_verdict error r
      ∙ verdict_cong (is_recv r.choice.protocol) _ _ (done_retry error again)
          (retry_excludes error again) refl again
      ∙ verdict_retry (is_recv r.choice.protocol) r.comp_passed_to_network _ _
      ∙ ap (λ o. with_error (settled p error) o) gone

  exit_done :
      (error : ErrorCode) (r : Run)
      → is_done error ≡ true
      → r.comp_passed_to_network ≡ false
      → exit_handler p (some (error, r)) ≡ some (settled p error, r)
  exit_done error r finished kept =
      exit_verdict error r
      ∙ verdict_cong (is_recv r.choice.protocol) _ _ finished (done_excludes error finished).1 kept
          (done_excludes error finished).0
      ∙ verdict_done (is_recv r.choice.protocol) _ _

  exit_posted :
      (error : ErrorCode) (r : Run)
      → is_posted error ≡ true
      → r.comp_passed_to_network ≡ true
      → exit_handler p (some (error, r)) ≡ some (settled p error, r)
  exit_posted error r pending passed =
      exit_verdict error r
      ∙ verdict_cong (is_recv r.choice.protocol) _ _ (posted_excludes error pending).1 pending
          passed (posted_excludes error pending).0
      ∙ verdict_posted (is_recv r.choice.protocol) _ _

  retried : (error : ErrorCode) → is_retry error ≡ true → is_retry (settled p error) ≡ true
  retried error again = ap (λ c. is_retry c) (settled_retry error again) ∙ again

  -- A retry before there is a context.
  pub early-IsReturned :
      (error : ErrorCode) (r : Run)
      → is_retry error ≡ true
      → p.allow_retry ≡ true
      → r.context ≡ Owner.nobody
      → r.put_back ≡ to_put_back r
      → r.user_provided_packet ≡ false
      → IsReturned p (exit_handler p (some (error, r)))
  unfolding Settled
  early-IsReturned error r again allowed none_yet back own = record {
    error = settled p error;
    after = r;
    runs = exit_retry error r r again (give_up_early r none_yet own);
    outcome = inl (retried error again, allowed, inl none_yet, back);
  }

  -- The end of a post that was not a receive.
  pub answered-IsReturned :
      (r : Run) (result : Option (ErrorCode × Run))
      → IsReady r
      → IsAnswered p.allow_retry true r result
      → IsReturned p (exit_handler p result)
  unfolding Answer Settled
  answered-IsReturned r result ready a = elim a.answer [
    | inl (finished, kept, held, same) ↦ record {
      error = settled p a.error;
      after = a.after;
      runs = ap (λ o. exit_handler p o) a.runs ∙ exit_done a.error a.after finished kept;
      outcome = settled_done a.error a.after finished held;
    }
    | inr (inl (pending, passed, held, same)) ↦ record {
      error = settled p a.error;
      after = a.after;
      runs = ap (λ o. exit_handler p o) a.runs ∙ exit_posted a.error a.after pending passed;
      outcome = settled_posted a.error a.after pending held;
    }
    | inr (inr (again, allowed, same)) ↦ record {
      error = settled p a.error;
      after = abandoned r;
      runs =
          ap (λ o. exit_handler p o) a.runs
          ∙ ap (λ run. exit_handler p (some (a.error, run))) same
          ∙ exit_retry a.error r (abandoned r) again (give_up_late r ready.context_is);
      outcome = inl (
        retried a.error again,
        allowed,
        inr (abandoned_back r ready).1,
        (abandoned_back r ready).0,
      );
    }
  ]

  -- The end of a receive, whatever became of its completion object.
  pub received-IsReturned :
      (error : ErrorCode) (r : Run)
      → is_recv r.choice.protocol ≡ true
      → (is_done error ≡ true) ⊎ (is_posted error ≡ true)
      → Held r
      → IsReturned p (exit_handler p (some (error, r)))
  received-IsReturned error r receives answer held = record {
    error = settled p error;
    after = r;
    runs =
        exit_verdict error r
        ∙ ap
            (λ b.
              verdict b (is_done error) (is_posted error) r.comp_passed_to_network (is_retry error)
                (with_error (settled p error) (give_up r)) (some (settled p error, r)))
            receives
        ∙ verdict_cong true _ _ refl refl refl (no_retry answer)
        ∙ verdict_receive (is_done error) (is_posted error) r.comp_passed_to_network _ _;
    outcome = elim answer [
      | inl finished ↦ settled_done error r finished held
      | inr pending ↦ settled_posted error r pending held
    ];
  }
    where
      no_retry : (is_done error ≡ true) ⊎ (is_posted error ≡ true) → is_retry error ≡ false
      no_retry (inl finished) = (done_excludes error finished).0
      no_retry (inr pending) = (posted_excludes error pending).0
