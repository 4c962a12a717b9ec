-- ===== src/Immediate/Remote.antt =====
-- The receiver of a write with immediate data tells a signal from the end of a rendezvous.
use lci.Base.{ℕ, ◌+◌, ◌-◌, ◌*◌, ◌^◌, ◌≤◌, ◌<◌, ◌≡◌, refl, ap, ◌∙◌, Option, none, some, arith}
use lci.Base.BitOps.{pow-two_pos, pow-add}
use lci.Immediate.{
  RemoteWrite, set_bits32, get_bits32, and_set32, msg_type_of, remote_write_of, decode_remote_write,
  rdv_fin_data, msg_type_value,
}
use lci.Immediate.Words.{set_bits32_lem, get_bits32_lem, power_below, power_le}

-- The three most significant bits of the end of a rendezvous say its type; the rest is the tag.
abbrev fin_data : ℕ → ℕ
fin_data archive_tag = archive_tag + 2 ^ 29 * (3 + 2 ^ 2 * 0)

rdv_fin_data_lem :
    (tag_bits archive_tag : ℕ)
    → tag_bits ≤ 29
    → archive_tag < 2 ^ tag_bits
    → rdv_fin_data archive_tag tag_bits ≡ some (fin_data archive_tag)
unfolding rdv_fin_data and_set32 msg_type_value
rdv_fin_data_lem tag_bits archive_tag h fits = rw (set_type, set_tag) refl
  where
    split : 2 ^ 29 ≡ 2 ^ tag_bits * 2 ^ (29 - tag_bits)
    split = power_below tag_bits 29 h

    wide : 3 * 2 ^ (29 - tag_bits) < 2 ^ (32 - tag_bits)
    wide = omega (
      arith,
      ap (λ n. 2 ^ n) {x = 32 - tag_bits} {y = 3 + (29 - tag_bits)} (omega arith),
      pow-add 3 (29 - tag_bits),
      pow-two_pos (29 - tag_bits),
    )

    set_type : set_bits32 0 3 2 29 ≡ some (2 ^ 29 * 3)
    set_type =
        set_bits32_lem 29 2 1 0 0 0 3 refl (omega arith) (omega arith) (omega arith) (omega arith)

    set_tag : set_bits32 (2 ^ 29 * 3) archive_tag tag_bits 0 ≡ some (fin_data archive_tag)
    set_tag =
        ap (λ f. set_bits32 f archive_tag tag_bits 0) {x = 2 ^ 29 * 3}
          {y = 0 + 2 ^ 0 * (0 + 2 ^ tag_bits * (3 * 2 ^ (29 - tag_bits)))} (omega (arith, split))
        ∙ set_bits32_lem 0 tag_bits (32 - tag_bits) 0 0 (3 * 2 ^ (29 - tag_bits)) archive_tag
            (omega arith) (omega arith) (pow-two_pos tag_bits) wide fits
        ∙ ap (λ n. some n) (omega (arith, split))

module _ (tag_bits archive_tag : ℕ) (h : tag_bits ≤ 29) (fits : archive_tag < 2 ^ tag_bits) where
  small : archive_tag < 2 ^ 29
  small = omega (arith, power_le tag_bits 29 h)

  fin_flag : get_bits32 (fin_data archive_tag) 1 31 ≡ 0
  fin_flag =
      ap (λ f. get_bits32 f 1 31) {x = fin_data archive_tag}
        {y = archive_tag + 2 ^ 29 * 3 + 2 ^ 31 * (0 + 2 ^ 1 * 0)} (omega arith)
      ∙ get_bits32_lem 31 1 (archive_tag + 2 ^ 29 * 3) 0 0 (omega (arith, small)) (omega arith)

  fin_type : get_bits32 (fin_data archive_tag) 2 29 ≡ 3
  fin_type = get_bits32_lem 29 2 archive_tag 3 0 small (omega arith)

  fin_tag : get_bits32 (fin_data archive_tag) tag_bits 0 ≡ archive_tag
  fin_tag =
      ap (λ f. get_bits32 f tag_bits 0) {x = fin_data archive_tag}
        {y = 0 + 2 ^ 0 * (archive_tag + 2 ^ tag_bits * (3 * 2 ^ (29 - tag_bits)))}
        (omega (arith, power_below tag_bits 29 h))
      ∙ get_bits32_lem 0 tag_bits 0 archive_tag (3 * 2 ^ (29 - tag_bits)) (omega arith) fits

  fin_decode : decode_remote_write tag_bits (fin_data archive_tag) ≡ RemoteWrite.rdv_fin archive_tag
  unfolding decode_remote_write msg_type_of remote_write_of
  fin_decode = rw (fin_flag, fin_type, fin_tag) refl

unfoldable pub decode_sent : ℕ → Option ℕ → RemoteWrite
decode_sent tag_bits none = RemoteWrite.unknown
decode_sent tag_bits (some imm_data) = decode_remote_write tag_bits imm_data

-- With tags of at most 29 bits, the receiver of the write that ends a rendezvous reads the tag of
-- the archive that the sender was told, and takes it for no signal.
pub rdv_fin_data-decode :
    (tag_bits archive_tag : ℕ)
    → tag_bits ≤ 29
    → archive_tag < 2 ^ tag_bits
    → decode_sent tag_bits (rdv_fin_data archive_tag tag_bits) ≡ RemoteWrite.rdv_fin archive_tag
unfolding decode_sent
rdv_fin_data-decode tag_bits archive_tag h fits =
    rw (rdv_fin_data_lem tag_bits archive_tag h fits) (fin_decode tag_bits archive_tag h fits)
