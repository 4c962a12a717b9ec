-- ===== src/PostComm/Steps.antt =====
-- The steps of a post before its network part: protocol, packet, immediate data and context.
use lci.Base.{
  ℕ, ◌+◌, ◌^◌, ◌≤◌, ◌≡◌, ◌≢◌, refl, sym, ap, subst, ◌∙◌, ◌⊎◌, inl, inr, Bool, true, false, ◌&&◌,
  not, Option, Option-cases, none, some, [], Bool-cases, ltb, ◌==◌, if◌then◌else◌, arith,
}
use mathlib.Core.Bool.{false≢true}
use lci.Communicate.{
  Args, State, Protocol, is_out, set_protocol, traits_of, msg_size_if_eager,
  eager_payload_needs_metadata, mr_is_empty,
}
use lci.Endpoint.{ErrorCode, is_done, is_retry}
use lci.Immediate.{Widths, is_rdv, is_bcopy, set_immediate_data, set_bits32, msg_type_value}
use lci.Immediate.RoundTrip.{IsConfigured, fast_data_lem, slow_data_lem}
use lci.PostComm.{
  PostArgs, Env, Run, Owner, LocalComp, comp_is_empty, is_zcopy, is_given, built, allocated,
  set_packet_if_needed, needs_comp, set_internal_ctx, resolve_comp,
}
use lci.PostComm.Offer.{IsReady}

pub out_cases :
    (a : Args) (s : State)
    → is_out a.direction ≡ true
    → (((set_protocol a (traits_of a) s).protocol ≡ Protocol.inject) × (a.memory_semantic ≡ true))
      ⊎ ((set_protocol a (traits_of a) s).protocol ≡ Protocol.eager_bcopy)
      ⊎ ((set_protocol a (traits_of a) s).protocol ≡ Protocol.eager_zcopy)
      ⊎ ((set_protocol a (traits_of a) s).protocol ≡ Protocol.rdv_zcopy)
unfolding set_protocol
out_cases a s out = ground (arith, out)

pub into_cases :
    (a : Args) (s : State)
    → is_out a.direction ≡ false
    → ((set_protocol a (traits_of a) s).protocol ≡ Protocol.recv)
      ⊎ ((set_protocol a (traits_of a) s).protocol ≡ Protocol.eager_bcopy)
      ⊎ ((set_protocol a (traits_of a) s).protocol ≡ Protocol.eager_zcopy)
unfolding set_protocol
into_cases a s into = ground (arith, into)

-- A packet has room for the metadata that is put behind its data.
pub metadata_room :
    (a : Args) (s : State)
    → s.piggyback_tag_rcomp_in_msg ≡ false
    → (set_protocol a (traits_of a) s).piggyback_tag_rcomp_in_msg ≡ true
    → a.size + (8 + 4) ≤ a.max_bcopy_size
unfolding set_protocol msg_size_if_eager traits_of
metadata_room a s bare piggyback = ground arith

-- The immediate data is always made.
pub imm_data_made :
    (w : Widths) (a : Args) (s : State)
    → IsConfigured w a
    → (imm_data : ℕ) × (set_immediate_data w a s ≡ some imm_data)
unfolding set_immediate_data set_bits32 msg_type_value
imm_data_made w a s c = elim (Bool-cases (is_rdv s.protocol)) [
  | inl rdv ↦ (2 ^ 29, rw rdv refl)
  | inr eager ↦ elim (Bool-cases (is_out a.direction)) [
    | inr into ↦ (0, rw (eager, into) refl)
    | inl out ↦ elim (Bool-cases (s.rhandler == 0)) [
      | inl unhandled ↦ (0, rw (eager, out, unhandled) refl)
      | inr handled ↦ elim (Bool-cases (eager_payload_needs_metadata a s)) [
        | inl needs ↦ (0, slow_data_lem w a s out eager (nonzero handled) needs)
        | inr fits ↦ (_, (fast_data_lem w a s out eager (nonzero handled) c fits).0)
      ]
    ]
  ]
]
  where
    nonzero : (s.rhandler == 0) ≡ false → s.rhandler ≢ 0
    nonzero h = ground arith

-- The completion object of a post is there whenever it is asked for.
pub comp_ready :
    (p : PostArgs) (comp : LocalComp)
    → p.local_comp ≡ comp
    → comp_is_empty (
        if (resolve_comp comp p).args.allow_posted
        then (resolve_comp comp p).local_comp
        else LocalComp.synchronizer)
      ≡ false
unfolding resolve_comp comp_is_empty
comp_ready p LocalComp.null e = refl
comp_ready p LocalComp.null_retry e = refl
comp_ready p LocalComp.synchronizer e = either p.args.allow_posted
  where
    either : (b : Bool) → comp_is_empty (if b then p.local_comp else LocalComp.synchronizer) ≡ false
    either true = ap comp_is_empty e
    either false = refl
comp_ready p (LocalComp.object id) e = either p.args.allow_posted
  where
    either : (b : Bool) → comp_is_empty (if b then p.local_comp else LocalComp.synchronizer) ≡ false
    either true = ap comp_is_empty e
    either false = refl

-- A run that has its packet, or is to be retried for lack of one.
pub record IsPacked (p : PostArgs) (r : Run) (result : Option (ErrorCode × Run)) : Type 0 where
  pub error : ErrorCode
  pub after : Run
  pub runs : result ≡ some (error, after)
  pub same_choice : after.choice ≡ r.choice
  pub same_context : after.context ≡ r.context
  pub same_back : after.put_back ≡ r.put_back
  pub answer :
      (is_done error ≡ true)
      ⊎ ((is_retry error ≡ true)
          × (p.allow_retry ≡ true)
          × (after.packet ≡ none)
          × (after.user_provided_packet ≡ false))

built-IsPacked :
    (p : PostArgs) (r : Run)
    → (r.choice.piggyback_tag_rcomp_in_msg ≡ true → p.args.size + (8 + 4) ≤ p.args.max_bcopy_size)
    → IsPacked p r (built p r)
unfolding built is_done
built-IsPacked p r room = elim (Bool-cases (is_out p.args.direction)) [
  | inr into ↦ record {
    error = ErrorCode.done;
    after = r;
    runs = rw into refl;
    same_choice = refl;
    same_context = refl;
    same_back = refl;
    answer = inl refl;
  }
  | inl out ↦ record {
    error = ErrorCode.done;
    after = record r {
      packet_size_to_send =
          if r.choice.piggyback_tag_rcomp_in_msg then p.args.size + (8 + 4) else p.args.size;
    };
    runs = rw (out, fits) refl;
    same_choice = refl;
    same_context = refl;
    same_back = refl;
    answer = inl refl;
  }
]
  where
    fits :
        (r.choice.piggyback_tag_rcomp_in_msg
          && ltb p.args.max_bcopy_size
              (if r.choice.piggyback_tag_rcomp_in_msg then p.args.size + (8 + 4) else p.args.size))
        ≡ false
    fits = ground (arith, room)

module _ (e : Env) (p : PostArgs) (r : Run) (pool : is_given (e.get_packet true) ≡ true)
    (room : r.choice.piggyback_tag_rcomp_in_msg ≡ true
      → p.args.size + (8 + 4) ≤ p.args.max_bcopy_size)
    (no_packet : r.packet ≡ none) (own : r.user_provided_packet ≡ false) where
  -- Building keeps what an outer record has kept.
  rebuilt :
      (s : Run)
      → s.choice ≡ r.choice
      → s.context ≡ r.context
      → s.put_back ≡ r.put_back
      → IsPacked p s (built p s)
      → IsPacked p r (built p s)
  rebuilt s ec eo eb b = record {
    error = b.error;
    after = b.after;
    runs = b.runs;
    same_choice = b.same_choice ∙ ec;
    same_context = b.same_context ∙ eo;
    same_back = b.same_back ∙ eb;
    answer = b.answer;
  }

  -- No packet is left only where the caller allows a retry.
  may_retry : e.get_packet (not p.allow_retry) ≡ none → p.allow_retry ≡ true
  unfolding is_given
  may_retry missing = elim (Bool-cases p.allow_retry) [
    | inl allowed ↦ allowed
    | inr never ↦ absurd (
        false≢true
          (sym (ap is_given (ap (λ b. e.get_packet (not b)) (sym never) ∙ missing)) ∙ pool))
  ]

  allocated-IsPacked : IsPacked p r (allocated p r (e.get_packet (not p.allow_retry)))
  unfolding allocated is_done is_retry
  allocated-IsPacked = elim (Option-cases (e.get_packet (not p.allow_retry))) [
    | inl missing ↦ record {
      error = ErrorCode.retry_nopacket;
      after = r;
      runs = rw missing refl;
      same_choice = refl;
      same_context = refl;
      same_back = refl;
      answer = inr (refl, may_retry missing, no_packet, own);
    }
    | inr (packet, given) ↦
        subst (λ o. IsPacked p r (allocated p r o)) (sym given)
          (elim (Bool-cases (is_rdv r.choice.protocol)) [
            | inl rdv ↦ record {
              error = ErrorCode.done;
              after = record r { packet = some packet };
              runs = rw rdv refl;
              same_choice = refl;
              same_context = refl;
              same_back = refl;
              answer = inl refl;
            }
            | inr eager ↦
                subst
                  (λ b. IsPacked p r (
                    if b
                    then some (ErrorCode.done, record r { packet = some packet })
                    else built p (record r { packet = some packet })))
                  (sym eager)
                  (rebuilt (record r { packet = some packet }) refl refl refl
                    (built-IsPacked p (record r { packet = some packet }) room))
          ])
  ]

  -- A packet is found, or the post is to be retried.
  pub set_packet_if_needed-IsPacked : IsPacked p r (set_packet_if_needed e p r)
  unfolding set_packet_if_needed is_done
  set_packet_if_needed-IsPacked =
      either (not (is_bcopy r.choice.protocol) && not (is_rdv r.choice.protocol))
        (record {
          error = ErrorCode.done;
          after = record r {
            user_provided_packet = is_given e.buffer_is_packet;
            packet = e.buffer_is_packet;
          };
          runs = refl;
          same_choice = refl;
          same_context = refl;
          same_back = refl;
          answer = inl refl;
        })
        (either (is_bcopy r.choice.protocol && is_given e.buffer_is_packet)
          (rebuilt (record r { user_provided_packet = true; packet = e.buffer_is_packet }) refl refl
            refl
            (built-IsPacked p
              (record r { user_provided_packet = true; packet = e.buffer_is_packet }) room))
          allocated-IsPacked)
    where
      either :
          (b : Bool)
          → {x y : Option (ErrorCode × Run)} → IsPacked p r x
          → IsPacked p r y
          → IsPacked p r (if b then x else y)
      either true x y = x
      either false x y = y

-- The context is made, with the packet to free and with the completion object where it is needed.
pub record IsPrepared (p : PostArgs) (r : Run) (result : Option Run) : Type 0 where
  pub after : Run
  pub runs : result ≡ some after
  pub ready : IsReady after
  pub same_choice : after.choice ≡ r.choice
  pub passed : after.comp_passed_to_network ≡ needs_comp p r

pub set_internal_ctx-IsPrepared :
    (p : PostArgs) (r : Run)
    → comp_is_empty r.local_comp ≡ false
    → r.put_back ≡ []
    → IsPrepared p r (set_internal_ctx p r)
unfolding set_internal_ctx
set_internal_ctx-IsPrepared p r there nothing_back = record {
  after = record r {
    context = Owner.poster;
    packet_to_free = r.packet;
    comp_passed_to_network = needs_comp p r;
    mr_on_the_fly = is_zcopy r.choice.protocol && mr_is_empty p.args.mr;
  };
  runs = ap (λ b. made (needs_comp p r && b)) there ∙ never (needs_comp p r);
  ready = record { context_is = refl; nothing_back = nothing_back; frees = refl };
  same_choice = refl;
  passed = refl;
}
  where
    made : Bool → Option Run
    made b =
        if b
        then none
        else some (record r {
          context = Owner.poster;
          packet_to_free = r.packet;
          comp_passed_to_network = needs_comp p r;
          mr_on_the_fly = is_zcopy r.choice.protocol && mr_is_empty p.args.mr;
        })

    never : (b : Bool) → made (b && false) ≡ made false
    never true = refl
    never false = refl
