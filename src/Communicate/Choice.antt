-- ===== src/Communicate/Choice.antt =====
-- What the chosen protocol guarantees about the metadata and the size of a message.
use lci.Base.{
  ◌+◌, ◌≤◌, ◌≡◌, refl, sym, ap, subst, ◌∙◌, ◌⊎◌, inl, inr, Bool, true, false, not, ◌||◌, some,
  Bool-cases, ltb, if◌then◌else◌, arith,
}
use lci.Immediate.{Widths, is_rdv, set_immediate_data}
use lci.Communicate.{
  Args, State, Protocol, Mr, traits_of, set_protocol, is_out, eager_payload_needs_metadata,
  msg_size_if_eager, mr_may_be_device_memory, force_zcopy,
}

out_direction :
    (a : Args) (s : State) → eager_payload_needs_metadata a s ≡ true → is_out a.direction ≡ true
unfolding eager_payload_needs_metadata
out_direction a s needs = ground arith

-- The memory that may be on a device, but for which the choice does not see that: `MR_DEVICE` in a
-- build without CUDA and HIP, and `MR_UNKNOWN` there, where nothing resolves it.
abbrev pub unseen_device : Bool → Mr → Bool
unseen_device gpu Mr.device = not gpu
unseen_device gpu Mr.unknown = true
unseen_device gpu mr = false

may_be_device_lem :
    (gpu : Bool) (mr : Mr)
    → force_zcopy gpu mr ≡ false
    → mr_may_be_device_memory gpu mr ≡ unseen_device gpu mr
unfolding mr_may_be_device_memory force_zcopy
may_be_device_lem gpu Mr.host h = refl
may_be_device_lem gpu Mr.device h = ap not (sym h)
may_be_device_lem gpu Mr.unknown h = refl
may_be_device_lem gpu (Mr.registered on_device) h = h

-- The choice for a message that needs metadata.
choice_lem :
    (a : Args) (s : State)
    → a.has_rmr ≡ false
    → eager_payload_needs_metadata a s ≡ true
    → set_protocol a (traits_of a) s ≡ (
        if ltb a.max_bcopy_size (a.size + 12) || force_zcopy a.gpu a.mr
        then record s { protocol = Protocol.rdv_zcopy }
        else if mr_may_be_device_memory a.gpu a.mr
        then record s { protocol = Protocol.eager_zcopy }
        else record s { protocol = Protocol.eager_bcopy; piggyback_tag_rcomp_in_msg = true })
unfolding set_protocol traits_of msg_size_if_eager
choice_lem a s no_rmr needs = ground (arith, out_direction a s needs)

-- The immediate data of a message that needs metadata and goes eagerly.
no_imm_data :
    (w : Widths) (a : Args) (s t : State)
    → eager_payload_needs_metadata a s ≡ true
    → t ≡ record s { protocol = Protocol.eager_zcopy }
    → set_immediate_data w a t ≡ some 0
unfolding set_immediate_data eager_payload_needs_metadata is_rdv
no_imm_data w a s t needs e = subst (λ u. set_immediate_data w a u ≡ some 0) (sym e) (ground arith)

-- What becomes of the metadata: the three ways to send.
abbrev pub Carries : Widths → Args → State → Type 0
Carries w a s =
    let t = set_protocol a (traits_of a) s in
    let rendezvous = ltb a.max_bcopy_size (a.size + 12) || force_zcopy a.gpu a.mr in
    ((rendezvous ≡ true) × (t.protocol ≡ Protocol.rdv_zcopy))
    ⊎ ((rendezvous ≡ false)
        × (unseen_device a.gpu a.mr ≡ false)
        × (t.protocol ≡ Protocol.eager_bcopy)
        × (t.piggyback_tag_rcomp_in_msg ≡ true))
    ⊎ ((rendezvous ≡ false)
        × (unseen_device a.gpu a.mr ≡ true)
        × (t.protocol ≡ Protocol.eager_zcopy)
        × (t.piggyback_tag_rcomp_in_msg ≡ false)
        × (set_immediate_data w a t ≡ some 0))

-- A send or an active message whose tag or completion handle does not fit the immediate data. If
-- with both behind its payload it is larger than a packet, or its memory is known to be on a device,
-- it goes by rendezvous. Otherwise, from memory that cannot be on a device, it is copied into a packet
-- that carries both. Only from unresolved `MR_UNKNOWN` memory, or from `MR_DEVICE` memory in a build
-- without CUDA and HIP, it goes by zero-copy, without them and with 0 as its immediate data.
pub set_protocol-metadata :
    (w : Widths) (a : Args) (s : State)
    → a.has_rmr ≡ false
    → s.piggyback_tag_rcomp_in_msg ≡ false
    → eager_payload_needs_metadata a s ≡ true
    → Carries w a s
set_protocol-metadata w a s no_rmr bare needs =
    let chosen = choice_lem a s no_rmr needs in
    elim (Bool-cases (ltb a.max_bcopy_size (a.size + 12) || force_zcopy a.gpu a.mr)) [
      | inl forced ↦ inl (forced, ap (λ t. t.protocol) (rw forced at chosen))
      | inr free ↦
          let may_be = may_be_device_lem a.gpu a.mr (ground (arith, free)) in
          elim (Bool-cases (unseen_device a.gpu a.mr)) [
            | inr seen ↦
                let t = rw (free, may_be, seen) at chosen in
                inr (
                  inl
                    (free, seen, ap (λ t. t.protocol) t, ap (λ t. t.piggyback_tag_rcomp_in_msg) t))
            | inl unseen ↦
                let t = rw (free, may_be, unseen) at chosen in
                inr (
                  inr (
                    free,
                    unseen,
                    ap (λ t. t.protocol) t,
                    ap (λ t. t.piggyback_tag_rcomp_in_msg) t ∙ bare,
                    no_imm_data w a s _ needs t,
                  ))
          ]
    ]

never_forced :
    (gpu : Bool) (mr : Mr) → mr_may_be_device_memory gpu mr ≡ false → force_zcopy gpu mr ≡ false
unfolding mr_may_be_device_memory force_zcopy
never_forced gpu Mr.host h = refl
never_forced gpu Mr.device h = ground arith
never_forced gpu Mr.unknown h = refl
never_forced gpu (Mr.registered on_device) h = h

-- From memory that cannot be on a device the metadata goes by rendezvous, or in a packet.
pub host-metadata :
    (a : Args) (s : State)
    → a.has_rmr ≡ false
    → eager_payload_needs_metadata a s ≡ true
    → mr_may_be_device_memory a.gpu a.mr ≡ false
    → ((set_protocol a (traits_of a) s).protocol ≡ Protocol.rdv_zcopy)
      ⊎ (((set_protocol a (traits_of a) s).protocol ≡ Protocol.eager_bcopy)
          × ((set_protocol a (traits_of a) s).piggyback_tag_rcomp_in_msg ≡ true)
          × (a.size + 12 ≤ a.max_bcopy_size))
unfolding set_protocol traits_of msg_size_if_eager
host-metadata a s no_rmr needs not_device =
    ground (arith, out_direction a s needs, never_forced a.gpu a.mr not_device)

-- The network copies the buffer of an inject, so it is small enough for that; a packet holds what
-- is copied into it; and nothing that needs metadata in its payload is injected.
pub set_protocol_bounds :
    (a : Args) (s : State)
    → ((set_protocol a (traits_of a) s).protocol ≡ Protocol.inject
        → (a.size ≤ a.max_inject_size) × (eager_payload_needs_metadata a s ≡ false))
      × ((set_protocol a (traits_of a) s).protocol ≡ Protocol.eager_bcopy
          → msg_size_if_eager a s ≤ a.max_bcopy_size)
unfolding set_protocol traits_of msg_size_if_eager
set_protocol_bounds a s = (λ e. ground arith, λ e. ground arith)
