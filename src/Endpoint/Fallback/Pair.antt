-- ===== src/Endpoint/Fallback/Pair.antt =====
-- The put and the send that replace a put with immediate data.
use mathlib.Core.List.{append_assoc}
use mathlib.Core.Bool.{false≢true}
use lci.Base.{
  ◌≡◌, refl, sym, ap, subst, ◌∙◌, ◌⊎◌, inl, inr, Bool, true, false, not, List, [], ◌∷◌, ◌++◌,
  if◌then◌else◌, Bool-cases, ◌||◌,
}
use lci.Endpoint.{
  ErrorCode, is_done, is_retry, Op, Buffer, Post, Backend, Memory, bytes_of, handed, hand_over,
  Endpoint, Outcome,
}
use lci.Endpoint.Posting.{
  sends_request, puts_request, put_imms_request, enqueue, no_backlog, post_impl, or_backlog, pushed,
  post_put_imms, push_put_imms, post_put_imms_fallback, finish_put_imms, signal_sent, post_sends,
  push_sends, try_post,
}
use lci.Endpoint.Order.{
  request_of, settled, of_rank, of_rank-append, sequence, IsValid, IsTaken, copied_twice,
  post_impl_lem, puts_imm, user_post, user_post-IsPosted,
}
use lci.Endpoint.Fallback.Attempt.{
  signal_of, replaced, IsPrompt, IsRealised, attempt-IsRealised, nothing-IsTaken, none_there,
}

done_final : (code : ErrorCode) → is_done code ≡ true → is_retry code ≡ false
unfolding is_done is_retry
done_final ErrorCode.done h = refl
done_final ErrorCode.done_backlog h = refl
done_final code h = absurd (false≢true h)

final_order :
    {x c : List Post} (a : List Post) (error : ErrorCode)
    → is_retry error ≡ false
    → x ≡ (if is_retry error then a else c)
    → x ≡ c
final_order {c = c} a error final h = h ∙ ap (λ t. if t then a else c) final

module _ {b : Backend} where
  abbrev code_of : Outcome b → ErrorCode
  code_of (Outcome.returned error e) = error
  code_of out = ErrorCode.fatal

  or_backlog_done :
      (t : ErrorCode × Endpoint b) (entry : Post)
      → (is_done t.0 ≡ true) ⊎ (is_retry t.0 ≡ true)
      → t.1.locked ≡ false
      → is_done (code_of (or_backlog t false (λ e'. enqueue e' entry) ErrorCode.done_backlog))
        ≡ true
  unfolding or_backlog pushed enqueue is_done
  or_backlog_done t entry (inl finished) unlocked = rw (done_final t.0 finished) finished
  or_backlog_done t entry (inr again) unlocked = rw (again, unlocked) refl

  -- The send of the immediate data is done, in the network or in the queue.
  signal_done :
      (mem : Memory) (e : Endpoint b) (q : Post)
      → IsPrompt b
      → e.locked ≡ false
      → no_backlog e q.rank ≡ true
      → is_done (code_of (post_sends mem e q false false)) ≡ true
  unfolding post_sends try_post sends_request push_sends
  signal_done mem e q prompt unlocked free =
      subst
        (λ c.
          is_done (
            code_of (
              or_backlog
                (if not c
                  then (ErrorCode.retry_backlog, e)
                  else post_impl mem e (sends_request q) true)
                false (λ e'. push_sends mem e' q) ErrorCode.done_backlog))
          ≡ true)
        (sym free)
        (or_backlog_done (post_impl mem e (sends_request q) true) _
          (unfold post_impl in prompt e.net (sends_request q) true (inr refl))
          (unfold post_impl in unlocked))

  signal_sent_lem :
      (error sent : ErrorCode) (e : Endpoint b)
      → is_done sent ≡ true
      → signal_sent error (Outcome.returned sent e) ≡ Outcome.returned error e
  unfolding signal_sent
  signal_sent_lem error sent e h = rw h refl

  finish_lem :
      (mem : Memory) (p : Post) (allow_retry : Bool) (error : ErrorCode) (e : Endpoint b)
      → is_retry error ≡ false
      → finish_put_imms mem p allow_retry (Outcome.returned error e) ≡ Outcome.returned error e
  unfolding finish_put_imms or_backlog
  finish_lem mem p allow_retry error e h = rw h refl

  module _ (mem : Memory) (e : Endpoint b) (p : Post) (high : Bool) where
    put : ErrorCode × Endpoint b
    put = post_impl mem e (puts_request p) high

    fallback_retry :
        is_retry put.0 ≡ true → post_put_imms_fallback mem e p high ≡ Outcome.returned put.0 put.1
    unfolding post_put_imms_fallback put
    fallback_retry again = rw again refl

    fallback_done :
        is_done put.0 ≡ true
        → post_put_imms_fallback mem e p high
          ≡ signal_sent put.0 (post_sends mem put.1 (signal_of p) false false)
    unfolding post_put_imms_fallback put signal_of
    fallback_done finished = rw (done_final put.0 finished, finished) refl

    -- The put and the send behind it.
    sent-IsRealised :
        (allow_retry : Bool)
        → IsPrompt b
        → IsValid e
        → e.support_putimm ≡ false
        → no_backlog e p.rank ≡ true
        → is_done put.0 ≡ true
        → IsRealised mem e Op.put_imms p
            (finish_put_imms mem p allow_retry (post_put_imms_fallback mem e p high))
    unfolding put user_post puts_imm puts_request handed hand_over signal_of request_of
        sends_request of_rank replaced no_backlog
    sent-IsRealised allow_retry prompt valid unsupported free finished =
        let first : IsTaken e (handed mem (puts_request p)) put.0 put.1 =
          post_impl_lem mem e (puts_request p) high valid (none_there e p.rank free) refl in
        let second = user_post-IsPosted mem put.1 (signal_of p) Op.sends false first.valid refl in
        let done_there : is_done second.error ≡ true =
          sym (ap (λ o. is_done (code_of o)) second.returns)
          ∙ signal_done mem put.1 (signal_of p) prompt first.valid.unlocked
              (unfold post_impl in free) in
        let a = handed mem (puts_request p) in
        let s = handed mem (sends_request (signal_of p)) in
        record {
          error = put.0;
          after = second.after;
          returns =
              ap (finish_put_imms mem p allow_retry) (
                fallback_done finished
                ∙ ap (signal_sent put.0) second.returns
                ∙ signal_sent_lem put.0 second.error second.after done_there)
              ∙ finish_lem mem p allow_retry put.0 second.after (done_final put.0 finished);
          valid = second.taken.valid;
          posts = a ∷ s ∷ [];
          which = inr (unsupported, refl);
          order = λ r.
              final_order _ second.error (done_final second.error done_there) (second.taken.order r)
              ∙ ap (λ l. l ++ of_rank r (s ∷ []))
                  (final_order _ put.0 (done_final put.0 finished) (first.order r))
              ∙ append_assoc (sequence e r) (of_rank r (a ∷ [])) (of_rank r (s ∷ []))
              ∙ ap (λ l. sequence e r ++ l) (sym (of_rank-append r (a ∷ []) (s ∷ [])))
              ∙ ap (λ t. if t then sequence e r else sequence e r ++ of_rank r (a ∷ s ∷ []))
                  (sym (done_final put.0 finished));
        }

  pub put_imms-IsRealised :
      (mem : Memory) (e : Endpoint b) (p : Post) (allow_retry : Bool)
      → IsPrompt b
      → IsValid e
      → e.support_putimm ≡ false
      → IsRealised mem e Op.put_imms p (post_put_imms mem e p allow_retry false)
  unfolding post_put_imms push_put_imms is_retry handed hand_over request_of settled replaced
      puts_request put_imms_request finish_put_imms
  put_imms-IsRealised mem e p allow_retry prompt valid unsupported =
      subst
        (λ s. IsRealised mem e Op.put_imms p (
          finish_put_imms mem p allow_retry (
            if not (no_backlog e p.rank)
            then Outcome.returned ErrorCode.retry_backlog e
            else if s
            then Outcome.returned direct.0 direct.1
            else fallback)))
        (sym unsupported)
        (elim (Bool-cases (no_backlog e p.rank)) [
          | inr waiting ↦
              subst (λ c. IsRealised mem e Op.put_imms p (finish (tried c))) (sym waiting)
                (attempted (ErrorCode.retry_backlog, e) refl
                  (nothing-IsTaken e (handed mem (puts_request p)) valid))
          | inl free ↦
              subst (λ c. IsRealised mem e Op.put_imms p (finish (tried c))) (sym free)
                (elim (prompt e.net (puts_request p) high (inl refl)) [
                  | inl finished ↦
                      sent-IsRealised mem e p high allow_retry prompt valid unsupported free
                        (unfold put in unfold post_impl in finished)
                  | inr again ↦
                      subst (λ o. IsRealised mem e Op.put_imms p (finish o))
                        (sym
                          (fallback_retry mem e p high (unfold put in unfold post_impl in again)))
                        (attempted (put mem e p high) (unfold put in unfold post_impl in again) (
                          unfold put in
                          post_impl_lem mem e (puts_request p) high valid (none_there e p.rank free)
                            refl))
                ])
        ])
    where
      high : Bool
      high = not allow_retry || false

      direct : ErrorCode × Endpoint b
      direct = post_impl mem e (put_imms_request p) high

      fallback : Outcome b
      fallback = post_put_imms_fallback mem e p high

      finish : Outcome b → Outcome b
      finish out = finish_put_imms mem p allow_retry out

      tried : Bool → Outcome b
      tried c = if not c then Outcome.returned ErrorCode.retry_backlog e else fallback

      attempted :
          (t : ErrorCode × Endpoint b)
          → is_retry t.0 ≡ true
          → IsTaken e (handed mem (puts_request p)) t.0 t.1
          → IsRealised mem e Op.put_imms p (finish (Outcome.returned t.0 t.1))
      attempted t again taken =
          attempt-IsRealised mem e Op.put_imms p (handed mem (puts_request p))
            (record (put_imms_request p) { buffer = Buffer.copied (bytes_of mem p.buffer p.size) })
            t allow_retry ErrorCode.done_backlog (inl again) taken (λ m. refl)
            (rw (copied_twice mem p.buffer p.size) refl) refl refl
