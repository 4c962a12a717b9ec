-- ===== src/Immediate/Tests.antt =====
-- A message whose tag travels behind the data, one whose tag travels in the immediate data, and the
-- end of a rendezvous.
use lci.Base.{ℕ, ◌≡◌, refl, true, false, List, [], ◌∷◌, some, arith}
use lci.Communicate.{
  Args, Direction, Mr, traits_of, resolve_rhandler, set_protocol, mr_may_be_device_memory, is_out,
}
use lci.Immediate.{
  MsgType, Widths, max_of, set_bits32, is_rdv, set_immediate_data, and_set32, build_message,
  decode_recv,
}
use lci.Immediate.RoundTrip.{IsConfigured, chosen, receive, receive_lem}

abbrev pub default_widths : Widths
default_widths = record { nbits_tag = 16; nbits_rcomp = 15 }

abbrev pub with_tag : ℕ → Args
with_tag tag = record {
  gpu = false;
  direction = Direction.out;
  size = 3;
  tag = tag;
  remote_comp = 0;
  has_rmr = false;
  mr = Mr.host;
  memory_semantic = true;
  allow_posted = true;
  allow_done = true;
  has_matching_engine = true;
  matching_rhandler = 9;
  max_imm_tag = 65535;
  max_imm_rcomp = 32767;
  max_inject_size = 64;
  max_bcopy_size = 8192;
}

abbrev three_bytes : List ℕ
three_bytes = 7 ∷ 8 ∷ 9 ∷ []

defaults-IsConfigured : (tag : ℕ) → IsConfigured default_widths (with_tag tag)
unfolding max_of
defaults-IsConfigured tag = record {
  tag_width = omega arith;
  rcomp_width = omega arith;
  tag_maximum = refl;
  rcomp_maximum = refl;
}

large_tag_handled : (chosen (with_tag 70000)).rhandler ≡ 9
unfolding chosen set_protocol resolve_rhandler traits_of
large_tag_handled = refl

large_tag_eager : is_rdv (chosen (with_tag 70000)).protocol ≡ false
unfolding chosen set_protocol resolve_rhandler is_rdv traits_of
large_tag_eager = refl

receive_lem_example :
    receive default_widths (with_tag 70000) three_bytes
    ≡ some (record {
      msg_type = MsgType.eager;
      tag = 70000;
      remote_comp = (chosen (with_tag 70000)).rhandler;
      payload = three_bytes;
    })
receive_lem_example =
    receive_lem default_widths (with_tag 70000) three_bytes (defaults-IsConfigured 70000)
      (unfold is_out in refl) refl large_tag_eager (unfold mr_may_be_device_memory in refl)
      (λ e. absurd (omega (arith, large_tag_handled))) (omega arith)
      (omega (arith, large_tag_handled))

-- With the tag in the immediate data, the buffer is sent as it is.
small_tag_runs :
    receive default_widths (with_tag 500) three_bytes
    ≡ some (record { msg_type = MsgType.eager; tag = 500; remote_comp = 9; payload = three_bytes })
unfolding receive chosen set_protocol resolve_rhandler set_immediate_data build_message decode_recv
    traits_of and_set32 set_bits32
small_tag_runs = refl

abbrev wide_widths : Widths
wide_widths = record { nbits_tag = 20; nbits_rcomp = 11 }

-- With 20 bits for the tag, the handle is written over its upper bits.
wide_tag_lost :
    receive wide_widths
      (record (with_tag 70000) { max_imm_tag = 1048575; max_imm_rcomp = 2047 })
      three_bytes
    ≡ some (record { msg_type = MsgType.eager; tag = 4464; remote_comp = 9; payload = three_bytes })
unfolding receive chosen set_protocol resolve_rhandler set_immediate_data build_message decode_recv
    traits_of and_set32 set_bits32
wide_tag_lost = refl
