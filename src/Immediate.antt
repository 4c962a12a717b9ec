-- ===== src/Immediate.antt =====
-- What travels with a message: the bit fields of src/util/misc.hpp, the immediate data and the
-- packet that src/core/communicate.cpp builds, and how src/core/progress.cpp reads them.
use Prim.Native.Nat.{bit_and, bit_or}
use lci.Base.{
  ℕ, zero, suc, ◌+◌, ◌-◌, ◌*◌, ◌/◌, ◌%◌, ◌^◌, Bool, true, false, ◌&&◌, not, Option, none, some,
  List, [], ◌∷◌, ◌++◌, length, take, drop, if◌then◌else◌, leb, ◌==◌,
}
use lci.Communicate.{Args, Traits, State, Protocol, is_out}
pub mod Words
pub mod Bytes
pub mod RoundTrip
pub mod Remote
pub mod Tests

-- `imm_data_msg_type_t`.
pub data MsgType : Type 0 where
  eager rts rtr fin : MsgType

unfoldable pub msg_type_value : MsgType → ℕ
msg_type_value MsgType.eager = 0
msg_type_value MsgType.rts = 1
msg_type_value MsgType.rtr = 2
msg_type_value MsgType.fin = 3

-- `none` is a failed assertion.
unfoldable pub set_bits32 : ℕ → ℕ → ℕ → ℕ → Option ℕ
set_bits32 flag val width offset =
    let val_mask = 2 ^ width - 1 in
    let flag_mask = (val_mask * 2 ^ offset) % 2 ^ 32 in
    if leb (offset + width) 32 && leb val val_mask
    then some (
        bit_or (bit_and flag (2 ^ 32 - 1 - flag_mask))
          ((bit_and val val_mask * 2 ^ offset) % 2 ^ 32))
    else none

-- The offsets and widths that are read add up to 32 at most.
unfoldable pub get_bits32 : ℕ → ℕ → ℕ → ℕ
get_bits32 flag width offset = bit_and (flag / 2 ^ offset) (2 ^ width - 1)

unfoldable pub and_set32 : Option ℕ → ℕ → ℕ → ℕ → Option ℕ
and_set32 none val width offset = none
and_set32 (some flag) val width offset = set_bits32 flag val width offset

unfoldable pub is_rdv : Protocol → Bool
is_rdv Protocol.rdv_zcopy = true
is_rdv protocol = false

unfoldable pub is_bcopy : Protocol → Bool
is_bcopy Protocol.eager_bcopy = true
is_bcopy protocol = false

-- The attributes `imm_nbits_tag` and `imm_nbits_rcomp` of the runtime.
pub record Widths : Type 0 where
  pub nbits_tag : ℕ
  pub nbits_rcomp : ℕ

-- `max_imm_tag` and `max_imm_rcomp`, as the runtime derives them.
unfoldable pub max_of : ℕ → ℕ
max_of nbits = 2 ^ nbits - 1

-- A tag is passed to `set_bits32` as an unsigned number of 32 bits.
unfoldable pub set_immediate_data : Widths → Args → State → Option ℕ
unfolding is_rdv is_out msg_type_value
set_immediate_data w a s =
    if is_rdv s.protocol
    then set_bits32 0 (msg_type_value MsgType.rts) 2 29
    else if is_out a.direction && not (s.rhandler == 0)
    then (if leb a.tag a.max_imm_tag && leb s.rhandler a.max_imm_rcomp
        then and_set32 (and_set32 (set_bits32 0 1 1 31) (a.tag % 2 ^ 32) w.nbits_tag 0) s.rhandler
            w.nbits_rcomp 16
        else some 0)
    else some 0

-- The bytes of a number in memory, lowest first, and the number of some bytes.
unfoldable pub le_bytes : ℕ → ℕ → List ℕ
le_bytes zero v = []
le_bytes (suc n) v = v % 256 ∷ le_bytes n (v / 256)

unfoldable pub le_value : List ℕ → ℕ
le_value [] = 0
le_value (b ∷ bs) = b + 256 * le_value bs

-- The message that is sent for the bytes of a buffer: the packet of the buffer-copy protocol, with
-- the tag and the remote completion handle behind the data where the protocol put them there, or
-- the buffer itself. `none` is a failed assertion.
unfoldable pub build_message : Args → Traits → State → List ℕ → Option (List ℕ)
unfolding is_bcopy
build_message a t s buffer =
    if is_bcopy s.protocol && is_out a.direction && s.piggyback_tag_rcomp_in_msg
    then (if leb (a.size + (8 + 4)) t.max_bcopy_size
        then some (buffer ++ (le_bytes 8 a.tag ++ le_bytes 4 s.rhandler))
        else none)
    else some buffer

-- What a message means to its receiver.
pub record Incoming : Type 0 where
  pub msg_type : MsgType
  pub tag : ℕ
  pub remote_comp : ℕ
  pub payload : List ℕ

unfoldable pub msg_type_of : ℕ → MsgType
msg_type_of n =
    if n == 0
    then MsgType.eager
    else if n == 1
    then MsgType.rts
    else if n == 2
    then MsgType.rtr
    else MsgType.fin

-- The tag and the handle behind the data; `none` reads before the message.
unfoldable pub read_metadata : List ℕ → Option Incoming
unfolding le_value
read_metadata message =
    if leb 12 (length message)
    then some (record {
      msg_type = MsgType.eager;
      tag = le_value (take 8 (drop (length message - 12) message));
      remote_comp = le_value (take 4 (drop (length message - 4) message));
      payload = take (length message - 12) message;
    })
    else none

unfoldable pub slow_path : MsgType → List ℕ → Option Incoming
unfolding read_metadata
slow_path MsgType.eager message = read_metadata message
slow_path t message = some (record { msg_type = t; tag = 0; remote_comp = 0; payload = message })

-- `progress_recv`, up to the dispatch on the type of the message.
unfoldable pub decode_recv : ℕ → List ℕ → Option Incoming
unfolding slow_path get_bits32 msg_type_of
decode_recv imm_data message =
    if get_bits32 imm_data 1 31 == 1
    then some (record {
      msg_type = MsgType.eager;
      tag = get_bits32 imm_data 16 0;
      remote_comp = get_bits32 imm_data 15 16;
      payload = message;
    })
    else slow_path (msg_type_of (get_bits32 imm_data 2 29)) message

-- A write with immediate data: a signal, the end of a rendezvous, or a failed assertion.
pub data RemoteWrite : Type 0 where
  signal : (tag remote_comp : ℕ) → RemoteWrite
  rdv_fin : (archive_tag : ℕ) → RemoteWrite
  unknown : RemoteWrite

unfoldable pub remote_write_of : MsgType → ℕ → ℕ → RemoteWrite
remote_write_of MsgType.fin imm_data tag_bits = RemoteWrite.rdv_fin (get_bits32 imm_data tag_bits 0)
remote_write_of t imm_data tag_bits = RemoteWrite.unknown

-- `progress_remote_write`, up to the signal; `tag_bits` is the width of the archive's tags.
unfoldable pub decode_remote_write : ℕ → ℕ → RemoteWrite
unfolding remote_write_of get_bits32 msg_type_of
decode_remote_write tag_bits imm_data =
    if get_bits32 imm_data 1 31 == 1
    then RemoteWrite.signal (get_bits32 imm_data 16 0) (get_bits32 imm_data 15 16)
    else remote_write_of (msg_type_of (get_bits32 imm_data 2 29)) imm_data tag_bits

-- The immediate data of a rendezvous that ends with a write with immediate data.
unfoldable pub rdv_fin_data : ℕ → ℕ → Option ℕ
unfolding msg_type_value
rdv_fin_data archive_tag tag_bits =
    and_set32 (set_bits32 0 (msg_type_value MsgType.fin) 2 29) archive_tag tag_bits 0
