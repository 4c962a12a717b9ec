-- ===== src/Immediate/RoundTrip.antt =====
-- The receiver of an eager message reads the tag, the handle and the data of its sender.
use lci.Base.{
  ℕ, ◌+◌, ◌^◌, ◌%◌, ◌≤◌, ◌<◌, ◌≡◌, refl, sym, ap, ◌∙◌, ◌≢◌, inl, inr, true, false, ◌&&◌, not, List,
  Option, none, some, ◌==◌, ==_ne, leb, ltb, ◌||◌, leb→le, Bool-cases, arith,
}
use lci.Communicate.{
  Args, State, Protocol, traits_of, resolve_rhandler, set_protocol, is_out,
  eager_payload_needs_metadata, msg_size_if_eager, mr_may_be_device_memory,
}
use lci.Communicate.Choice.{host-metadata}
use lci.Immediate.{
  MsgType, Incoming, Widths, max_of, set_immediate_data, build_message, decode_recv, is_rdv,
  is_bcopy, read_metadata, slow_path, get_bits32, msg_type_of,
}
use mathlib.Core.Bool.{false≢true}
use lci.Base.BitOps.{pow-two_pos}
use native.Mathlib.Nat.{mod-eq_of_lt}
use lci.Immediate.Words.{fast_data, fast_chain_lem, fast_decode, power_le}
use lci.Immediate.Bytes.{with_metadata, read_metadata_lem}

-- `post_comm_state_t` before the first step.
abbrev pub initial_state : State
initial_state = record {
  rhandler = 0;
  protocol = Protocol.none;
  piggyback_tag_rcomp_in_msg = false;
}

-- The state once the protocol is chosen.
unfoldable pub chosen : Args → State
chosen a = set_protocol a (traits_of a) (resolve_rhandler a (traits_of a) initial_state)

unfoldable pub deliver : Option ℕ → Option (List ℕ) → Option Incoming
deliver (some imm_data) (some message) = decode_recv imm_data message
deliver imm_data message = none

-- What the receiver makes of the message that a post sends for the bytes of a buffer.
unfoldable pub receive : Widths → Args → List ℕ → Option Incoming
unfolding chosen deliver
receive w a buffer =
    deliver (set_immediate_data w a (chosen a)) (build_message a (traits_of a) (chosen a) buffer)

set_protocol-rhandler :
    (a : Args) (s : State) → (set_protocol a (traits_of a) s).rhandler ≡ s.rhandler
unfolding set_protocol
set_protocol-rhandler a s = ground arith

pub resolve_rhandler-keeps :
    (a : Args) (s : State)
    → (resolve_rhandler a (traits_of a) s).piggyback_tag_rcomp_in_msg ≡ s.piggyback_tag_rcomp_in_msg
unfolding resolve_rhandler
resolve_rhandler-keeps a s = ground arith

set_protocol-keeps :
    (a : Args) (s : State)
    → eager_payload_needs_metadata a s ≡ false
    → (set_protocol a (traits_of a) s).piggyback_tag_rcomp_in_msg ≡ s.piggyback_tag_rcomp_in_msg
unfolding set_protocol msg_size_if_eager
set_protocol-keeps a s h = ground arith

roomy :
    (a : Args)
    → a.size + 12 ≤ a.max_bcopy_size
    → leb (a.size + (8 + 4)) (traits_of a).max_bcopy_size ≡ true
unfolding traits_of
roomy a h = ground arith

slow_decode_lem : (message : List ℕ) → decode_recv 0 message ≡ read_metadata message
unfolding decode_recv slow_path get_bits32 msg_type_of
slow_decode_lem message = refl

-- Hypotheses that a runtime with the default or smaller widths meets.
pub record IsConfigured (w : Widths) (a : Args) : Type 0 where
  pub tag_width : w.nbits_tag ≤ 16
  pub rcomp_width : w.nbits_rcomp ≤ 15
  pub tag_maximum : a.max_imm_tag ≡ max_of w.nbits_tag
  pub rcomp_maximum : a.max_imm_rcomp ≡ max_of w.nbits_rcomp

module _ (w : Widths) (a : Args) (s : State) (is_sent : is_out a.direction ≡ true)
    (eager : is_rdv s.protocol ≡ false) (handled : s.rhandler ≢ 0) where
  pub fast_data_lem :
      IsConfigured w a
      → eager_payload_needs_metadata a s ≡ false
      → (set_immediate_data w a s ≡ some (fast_data a.tag s.rhandler))
        × (a.tag < 2 ^ 16)
        × (s.rhandler < 2 ^ 15)
  unfolding set_immediate_data eager_payload_needs_metadata max_of
  fast_data_lem c needs = (
    rw (eager, is_sent, ==_ne s.rhandler 0 handled, tag_fits, rcomp_fits, narrow)
        (fast_chain_lem w.nbits_tag w.nbits_rcomp a.tag s.rhandler c.tag_width c.rcomp_width
          tag_small rcomp_small),
    omega (arith, tag_small, power_le w.nbits_tag 16 c.tag_width),
    omega (arith, rcomp_small, power_le w.nbits_rcomp 15 c.rcomp_width),
  )
    where
      tag_fits : leb a.tag a.max_imm_tag ≡ true
      tag_fits = ground (arith, ==_ne s.rhandler 0 handled)

      rcomp_fits : leb s.rhandler a.max_imm_rcomp ≡ true
      rcomp_fits = ground (arith, ==_ne s.rhandler 0 handled)

      tag_small : a.tag < 2 ^ w.nbits_tag
      tag_small =
          omega (arith, leb→le a.tag a.max_imm_tag tag_fits, c.tag_maximum, pow-two_pos w.nbits_tag)

      rcomp_small : s.rhandler < 2 ^ w.nbits_rcomp
      rcomp_small = omega (
        arith,
        leb→le s.rhandler a.max_imm_rcomp rcomp_fits,
        c.rcomp_maximum,
        pow-two_pos w.nbits_rcomp,
      )

      narrow : a.tag % 2 ^ 32 ≡ a.tag
      narrow = mod-eq_of_lt (omega (arith, tag_small, power_le w.nbits_tag 16 c.tag_width))

  pub slow_data_lem : eager_payload_needs_metadata a s ≡ true → set_immediate_data w a s ≡ some 0
  unfolding set_immediate_data eager_payload_needs_metadata
  slow_data_lem needs = ground arith

-- What the choice guarantees to the message, with or without metadata.
module _ (a : Args) (is_sent : is_out a.direction ≡ true) (not_rmr : a.has_rmr ≡ false)
    (eager : is_rdv (chosen a).protocol ≡ false)
    (on_host : mr_may_be_device_memory a.gpu a.mr ≡ false) (buffer : List ℕ) where
  handler_kept : (chosen a).rhandler ≡ (resolve_rhandler a (traits_of a) initial_state).rhandler
  unfolding chosen
  handler_kept = set_protocol-rhandler a (resolve_rhandler a (traits_of a) initial_state)

  needs_kept :
      eager_payload_needs_metadata a (chosen a)
      ≡ eager_payload_needs_metadata a (resolve_rhandler a (traits_of a) initial_state)
  unfolding eager_payload_needs_metadata
  needs_kept =
      ap
        (λ r.
          is_out a.direction && not (r == 0) && (ltb a.max_imm_tag a.tag || ltb a.max_imm_rcomp r))
        handler_kept

  plain_message :
      eager_payload_needs_metadata a (chosen a) ≡ false
      → build_message a (traits_of a) (chosen a) buffer ≡ some buffer
  unfolding build_message chosen
  plain_message needs = ground (arith, bare)
    where
      bare :
          (set_protocol a
            (traits_of a)
            (resolve_rhandler a (traits_of a) initial_state)).piggyback_tag_rcomp_in_msg
          ≡ false
      bare =
          set_protocol-keeps a (resolve_rhandler a (traits_of a) initial_state)
            (sym needs_kept ∙ needs)
          ∙ resolve_rhandler-keeps a initial_state

  long_message :
      eager_payload_needs_metadata a (chosen a) ≡ true
      → build_message a (traits_of a) (chosen a) buffer
        ≡ some (with_metadata buffer a.tag (chosen a).rhandler)
  unfolding build_message chosen is_rdv
  long_message needs =
      elim (host-metadata a (resolve_rhandler a (traits_of a) initial_state) not_rmr
        (sym needs_kept ∙ needs) on_host) [
          | inl rdv ↦ absurd (false≢true (sym eager ∙ ap is_rdv rdv))
          | inr (bcopy, piggyback, small) ↦
              rw (ap is_bcopy bcopy, is_sent, piggyback, roomy a small) refl
        ]

-- A send or an active message from host memory that goes eagerly, in a runtime whose immediate data
-- has at most 16 bits for the tag and 15 for the handle: the receiver reads the tag, the handle and
-- the data that were sent, through the immediate data or behind the data, and no assertion fails.
pub receive_lem :
    (w : Widths) (a : Args) (buffer : List ℕ)
    → IsConfigured w a
    → is_out a.direction ≡ true
    → a.has_rmr ≡ false
    → is_rdv (chosen a).protocol ≡ false
    → mr_may_be_device_memory a.gpu a.mr ≡ false
    → (chosen a).rhandler ≢ 0
    → a.tag < 2 ^ 64
    → (chosen a).rhandler < 2 ^ 32
    → receive w a buffer
      ≡ some (record {
        msg_type = MsgType.eager;
        tag = a.tag;
        remote_comp = (chosen a).rhandler;
        payload = buffer;
      })
unfolding receive deliver
receive_lem w a buffer c is_sent not_rmr eager on_host handled tag_fits rcomp_fits =
    elim (Bool-cases (eager_payload_needs_metadata a (chosen a))) [
      | inl needs ↦
          rw
            (
              slow_data_lem w a (chosen a) is_sent eager handled needs,
              long_message a is_sent not_rmr eager on_host buffer needs,
            )
            (slow_decode_lem (with_metadata buffer a.tag (chosen a).rhandler)
              ∙ read_metadata_lem buffer a.tag (chosen a).rhandler tag_fits rcomp_fits)
      | inr fits ↦
          rw
            (
              (fast_data_lem w a (chosen a) is_sent eager handled c fits).0,
              plain_message a is_sent not_rmr eager on_host buffer fits,
            )
            (fast_decode a.tag (chosen a).rhandler
              (fast_data_lem w a (chosen a) is_sent eager handled c fits).1
              (fast_data_lem w a (chosen a) is_sent eager handled c fits).2 buffer)
    ]
