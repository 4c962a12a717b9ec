-- ===== src/Communicate/Tests.antt =====
-- The choice of protocol for a send with a tag too large for the immediate data.
use lci.Base.{◌≡◌, refl, true, false, some}
use lci.Communicate.{
  Args, State, Direction, Mr, Protocol, set_protocol, traits_of, eager_payload_needs_metadata,
}
use lci.Communicate.Choice
use lci.Communicate.Choice.{Carries}
use lci.Immediate.{Widths, set_immediate_data}

abbrev large_tag : Args
large_tag = record {
  gpu = false;
  direction = Direction.out;
  size = 100;
  tag = 70000;
  remote_comp = 0;
  has_rmr = false;
  mr = Mr.host;
  memory_semantic = true;
  allow_posted = true;
  allow_done = true;
  has_matching_engine = true;
  matching_rhandler = 9;
  max_imm_tag = 65535;
  max_imm_rcomp = 32767;
  max_inject_size = 64;
  max_bcopy_size = 8192;
}

abbrev resolved : State
resolved = record { rhandler = 9; protocol = Protocol.none; piggyback_tag_rcomp_in_msg = false }

large_tag_needs : eager_payload_needs_metadata large_tag resolved ≡ true
unfolding eager_payload_needs_metadata
large_tag_needs = refl

default_widths : Widths
default_widths = record { nbits_tag = 16; nbits_rcomp = 15 }

set_protocol-metadata_example : Carries default_widths large_tag resolved
set_protocol-metadata_example =
    Choice.set_protocol-metadata default_widths large_tag resolved refl refl large_tag_needs

-- The same message from memory of an unknown kind loses its tag.
abbrev from_unknown : Args
from_unknown = record large_tag { mr = Mr.unknown }

tag_lost :
    ((set_protocol from_unknown (traits_of from_unknown) resolved).protocol ≡ Protocol.eager_zcopy)
    × (set_immediate_data default_widths from_unknown
          (set_protocol from_unknown (traits_of from_unknown) resolved)
        ≡ some 0)
unfolding set_protocol traits_of set_immediate_data
tag_lost = (refl, refl)
