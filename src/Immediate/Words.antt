-- ===== src/Immediate/Words.antt =====
-- The immediate data as numbers: what is set in a field is read back from it.
use Prim.Native.Nat.{bit_and, bit_or}
use lci.Base.{
  ℕ, subst, ◌+◌, ◌-◌, ◌*◌, ◌%◌, ◌^◌, ◌≤◌, ◌<◌, ◌≡◌, refl, ap, ◌∙◌, List, Option, some, arith,
}
use lci.Base.BitOps.{pow-two_pos, pow-add}
use lci.Base.Fields.{clear_and_set, field_get}
use lci.Immediate.{MsgType, set_bits32, and_set32, get_bits32, decode_recv}
use native.Mathlib.Nat.{mul-le-mul_left}

-- Setting a field changes this field and no other bit.
pub set_bits32_lem :
    (o w k l v h val : ℕ)
    → o + w + k ≡ 32
    → l < 2 ^ o
    → v < 2 ^ w
    → h < 2 ^ k
    → val < 2 ^ w
    → set_bits32 (l + 2 ^ o * (v + 2 ^ w * h)) val w o ≡ some (l + 2 ^ o * (val + 2 ^ w * h))
unfolding set_bits32
set_bits32_lem o w k l v h val e hl hv hh hval = ground (arith, cleared)
  where
    cleared :
        bit_or
          (bit_and (l + 2 ^ o * (v + 2 ^ w * h)) (2 ^ 32 - 1 - ((2 ^ w - 1) * 2 ^ o) % 2 ^ 32))
          ((bit_and val (2 ^ w - 1) * 2 ^ o) % 2 ^ 32)
        ≡ l + 2 ^ o * (val + 2 ^ w * h)
    cleared =
        subst
          (λ n.
            bit_or
              (bit_and (l + 2 ^ o * (v + 2 ^ w * h)) (2 ^ n - 1 - ((2 ^ w - 1) * 2 ^ o) % 2 ^ n))
              ((bit_and val (2 ^ w - 1) * 2 ^ o) % 2 ^ n)
            ≡ l + 2 ^ o * (val + 2 ^ w * h))
          e (clear_and_set o w k l v h val hl hv hh hval)

pub get_bits32_lem :
    (o w l v h : ℕ) → l < 2 ^ o → v < 2 ^ w → get_bits32 (l + 2 ^ o * (v + 2 ^ w * h)) w o ≡ v
unfolding get_bits32
get_bits32_lem o w l v h hl hv = field_get o w l v h hl hv

-- A number with a tag of up to 16 bits, a handle of up to 15 bits and the bit of the fast path.
abbrev pub fast_data : ℕ → ℕ → ℕ
fast_data tag rcomp = tag + 2 ^ 16 * (rcomp + 2 ^ 15 * 1)

pub power_below : (j k : ℕ) → j ≤ k → 2 ^ k ≡ 2 ^ j * 2 ^ (k - j)
power_below j k h = ap (λ n. 2 ^ n) {x = k} {y = j + (k - j)} (omega arith) ∙ pow-add j (k - j)

pub power_le : (j k : ℕ) → j ≤ k → 2 ^ j ≤ 2 ^ k
power_le j k h = omega (arith, power_below j k h, mul-le-mul_left (2 ^ j) (pow-two_pos (k - j)))

pub power_lt : (j k : ℕ) → j < k → 2 ^ j < 2 ^ k
power_lt j k h = omega (arith, power_le (1 + j) k (omega arith), pow-add 1 j, pow-two_pos j)

abbrev pub fast_chain : ℕ → ℕ → ℕ → ℕ → Option ℕ
fast_chain nt nr tag rcomp = and_set32 (and_set32 (set_bits32 0 1 1 31) tag nt 0) rcomp nr 16

pub fast_chain_lem :
    (nt nr tag rcomp : ℕ)
    → nt ≤ 16
    → nr ≤ 15
    → tag < 2 ^ nt
    → rcomp < 2 ^ nr
    → fast_chain nt nr tag rcomp ≡ some (fast_data tag rcomp)
unfolding and_set32
fast_chain_lem nt nr tag rcomp ht hr tag_fits rcomp_fits = rw (set_flag, set_tag) set_rcomp
  where
    set_flag : set_bits32 0 1 1 31 ≡ some (2 ^ 31)
    set_flag =
        set_bits32_lem 31 1 0 0 0 0 1 refl (omega arith) (omega arith) (omega arith) (omega arith)

    set_tag : set_bits32 (2 ^ 31) tag nt 0 ≡ some (tag + 2 ^ 31)
    set_tag =
        ap (λ f. set_bits32 f tag nt 0) {x = 2 ^ 31} {y = 0 + 2 ^ 0 * (0 + 2 ^ nt * 2 ^ (31 - nt))}
          (omega (arith, power_below nt 31 (omega arith)))
        ∙ set_bits32_lem 0 nt (32 - nt) 0 0 (2 ^ (31 - nt)) tag (omega arith) (omega arith)
            (pow-two_pos nt) (power_lt (31 - nt) (32 - nt) (omega arith)) tag_fits
        ∙ ap (λ n. some n) (omega (arith, power_below nt 31 (omega arith)))

    set_rcomp : set_bits32 (tag + 2 ^ 31) rcomp nr 16 ≡ some (fast_data tag rcomp)
    set_rcomp =
        ap (λ f. set_bits32 f rcomp nr 16) {x = tag + 2 ^ 31}
          {y = tag + 2 ^ 16 * (0 + 2 ^ nr * 2 ^ (15 - nr))} (omega (arith, power_below nr 15 hr))
        ∙ set_bits32_lem 16 nr (16 - nr) tag 0 (2 ^ (15 - nr)) rcomp (omega arith)
            (omega (arith, power_le nt 16 ht)) (pow-two_pos nr)
            (power_lt (15 - nr) (16 - nr) (omega arith)) rcomp_fits
        ∙ ap (λ n. some n) (omega (arith, power_below nr 15 hr))

-- The three fields of the fast path are read back.
module _ (tag rcomp : ℕ) (tag_fits : tag < 2 ^ 16) (rcomp_fits : rcomp < 2 ^ 15) where
  pub fast_flag : get_bits32 (fast_data tag rcomp) 1 31 ≡ 1
  fast_flag =
      ap (λ f. get_bits32 f 1 31) {x = fast_data tag rcomp}
        {y = tag + 2 ^ 16 * rcomp + 2 ^ 31 * (1 + 2 ^ 1 * 0)} (omega arith)
      ∙ get_bits32_lem 31 1 (tag + 2 ^ 16 * rcomp) 1 0 (omega arith) (omega arith)

  pub fast_tag : get_bits32 (fast_data tag rcomp) 16 0 ≡ tag
  fast_tag =
      ap (λ f. get_bits32 f 16 0) {x = fast_data tag rcomp}
        {y = 0 + 2 ^ 0 * (tag + 2 ^ 16 * (rcomp + 2 ^ 15 * 1))} (omega arith)
      ∙ get_bits32_lem 0 16 0 tag (rcomp + 2 ^ 15 * 1) (omega arith) tag_fits

  pub fast_rcomp : get_bits32 (fast_data tag rcomp) 15 16 ≡ rcomp
  fast_rcomp = get_bits32_lem 16 15 tag rcomp 1 tag_fits rcomp_fits

  pub fast_decode :
      (message : List ℕ)
      → decode_recv (fast_data tag rcomp) message
        ≡ some
            (record { msg_type = MsgType.eager; tag = tag; remote_comp = rcomp; payload = message })
  unfolding decode_recv
  fast_decode message = rw (fast_flag, fast_tag, fast_rcomp) refl
