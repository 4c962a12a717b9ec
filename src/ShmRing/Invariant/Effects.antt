-- ===== src/ShmRing/Invariant/Effects.antt =====
-- What one access may do to the ring, and that each such effect keeps the ring's invariant and
-- what other threads rely on.
use native.Mathlib.Nat.{add-mod_right, mod-lt}
use lci.Base.{ℕ, ◌+◌, ◌*◌, ◌/◌, ◌%◌, ◌≤◌, ◌<◌, ◌≡◌, ◌≢◌, some, update, arith}
use lci.Base.BitOps.{bit_and-mask, pow-two_pos}
use lci.ShmRing.{Slot, Ring, View, maximum_position, slot_index, put_slot}
use lci.ShmRing.Machine.{Request, Pc, Outcome}
use lci.ShmRing.Invariant.Defs.{
  IsGeometry, IsSendable, Carries, SlotInv, RingInv, Reserves, Claims, Local, writes, reads, word,
  word_at,
}

-- An effect names the position of the slot that it stores to.
pub data Effect (v : View) (r : Ring) (sent : ℕ → Request) : Ring → (ℕ → Request) → Type 0 where
  quiet : Effect v r sent r sent
  reserve :
      r.producer_position < maximum_position
      → word_at v r r.producer_position ≡ r.producer_position * 2
      → Effect v r sent (record r { producer_position = r.producer_position + 1 }) sent
  claim :
      word_at v r r.consumer_position ≡ r.consumer_position * 2 + 1
      → Effect v r sent (record r { consumer_position = r.consumer_position + 1 }) sent
  fill :
      (position : ℕ) (s : Slot)
      → Reserves v r position
      → s.sequence ≡ position * 2
      → Effect v r sent (put_slot r (slot_index v position) s) sent
  publish :
      (position : ℕ) (req : Request) (s : Slot)
      → Reserves v r position
      → s.sequence ≡ position * 2 + 1
      → Carries s req
      → IsSendable v req
      → Effect v r sent (put_slot r (slot_index v position) s) (update sent position req)
  vacate :
      (position : ℕ) (s : Slot)
      → Claims v r position
      → position + v.slot_count ≤ maximum_position
      → s.sequence ≡ (position + v.slot_count) * 2
      → Effect v r sent (put_slot r (slot_index v position) s) sent

module _ {v : View} {k : ℕ} (g : IsGeometry v k) where
  pub slot_count_pos : 0 < v.slot_count
  slot_count_pos = omega (arith, g.power, pow-two_pos k)

  -- The mask takes the residue, since the number of slots is a power of two.
  pub slot_index-mod : (position : ℕ) → slot_index v position ≡ position % v.slot_count
  unfolding slot_index
  slot_index-mod position = rw (g.power) (bit_and-mask k position)

  module _ {r : Ring} {sent : ℕ → Request} (inv : RingInv v r sent) where
    reserve-SlotInv :
        r.producer_position < maximum_position
        → word_at v r r.producer_position ≡ r.producer_position * 2
        → (i : ℕ) → i < v.slot_count
        → SlotInv v (record r { producer_position = r.producer_position + 1 }) sent i
    reserve-SlotInv room w i lt = ground (
      arith,
      inv.slots i lt,
      slot_index-mod r.producer_position,
      add-mod_right (word r i / 2) v.slot_count,
      slot_count_pos,
    )

    claim-SlotInv :
        word_at v r r.consumer_position ≡ r.consumer_position * 2 + 1
        → (i : ℕ) → i < v.slot_count
        → SlotInv v (record r { consumer_position = r.consumer_position + 1 }) sent i
    claim-SlotInv w i lt = ground (arith, inv.slots i lt, slot_index-mod r.consumer_position)

    fill-SlotInv :
        (position : ℕ) (s : Slot)
        → Reserves v r position
        → s.sequence ≡ position * 2
        → (i : ℕ) → i < v.slot_count
        → SlotInv v (put_slot r (slot_index v position) s) sent i
    unfolding put_slot
    fill-SlotInv position s h e i lt = ground (arith, inv.slots i lt)

    publish-SlotInv :
        (position : ℕ) (req : Request) (s : Slot)
        → Reserves v r position
        → s.sequence ≡ position * 2 + 1
        → Carries s req
        → IsSendable v req
        → (i : ℕ) → i < v.slot_count
        → SlotInv v (put_slot r (slot_index v position) s) (update sent position req) i
    unfolding put_slot
    publish-SlotInv position req s h e c ok i lt =
        ground (arith, inv.slots i lt, slot_index-mod position)

    vacate-SlotInv :
        (position : ℕ) (s : Slot)
        → Claims v r position
        → position + v.slot_count ≤ maximum_position
        → s.sequence ≡ (position + v.slot_count) * 2
        → (i : ℕ) → i < v.slot_count
        → SlotInv v (put_slot r (slot_index v position) s) sent i
    unfolding put_slot
    vacate-SlotInv position s h room e i lt = ground (
      arith,
      inv.slots i lt,
      slot_index-mod position,
      add-mod_right position v.slot_count,
      inv.ordered,
    )

    -- Each effect keeps the invariant of the ring.
    pub Effect-RingInv :
        {r' : Ring} {sent' : ℕ → Request} → Effect v r sent r' sent' → RingInv v r' sent'
    unfolding put_slot
    Effect-RingInv quiet = inv
    Effect-RingInv (reserve room w) = record {
      ordered = omega arith;
      bounded = omega arith;
      slots = reserve-SlotInv room w;
    }
    Effect-RingInv (claim w) = record {
      ordered = ground (arith, at_consumer w, inv.ordered);
      bounded = inv.bounded;
      slots = claim-SlotInv w;
    }
      where
        at_consumer :
            word_at v r r.consumer_position ≡ r.consumer_position * 2 + 1
            → r.consumer_position < r.producer_position
        at_consumer w = ground (
          arith,
          inv.slots (slot_index v r.consumer_position)
              (rw (slot_index-mod r.consumer_position) (mod-lt r.consumer_position slot_count_pos)),
        )
    Effect-RingInv (fill position s h e) = record {
      ordered = inv.ordered;
      bounded = inv.bounded;
      slots = fill-SlotInv position s h e;
    }
    Effect-RingInv (publish position req s h e c ok) = record {
      ordered = inv.ordered;
      bounded = inv.bounded;
      slots = publish-SlotInv position req s h e c ok;
    }
    Effect-RingInv (vacate position s h room e) = record {
      ordered = inv.ordered;
      bounded = inv.bounded;
      slots = vacate-SlotInv position s h room e;
    }

    Claims-reserve :
        (position : ℕ)
        → word_at v r r.producer_position ≡ r.producer_position * 2
        → Claims v r position
        → r.producer_position + 1 ≤ position + v.slot_count
    Claims-reserve position w h = ground (
      arith,
      slot_index-mod position,
      slot_index-mod r.producer_position,
      add-mod_right position v.slot_count,
      slot_count_pos,
    )

-- The effect leaves alone the position that the thread owns.
abbrev pub Apart :
    {v : View} {r r' : Ring} {sent sent' : ℕ → Request} → Effect v r sent r' sent' → Pc → Type 0
Apart (fill position s h e) q = writes q ≢ some position
Apart (publish position req s h e c ok) q = writes q ≢ some position
Apart (vacate position s h room e) q = reads q ≢ some position
Apart _ q = Unit

module _ {v : View} {k : ℕ} (g : IsGeometry v k) {r : Ring} {sent : ℕ → Request}
    (inv : RingInv v r sent) where
  -- What a thread relies on survives what the others do.
  pub Effect-Local :
      {r' : Ring} {sent' : ℕ → Request} (e : Effect v r sent r' sent') (q : Pc)
      → Apart e q
      → Local v r sent q
      → Local v r' sent' q
  unfolding put_slot
  Effect-Local quiet q a l = l
  Effect-Local (reserve room w) (Pc.claimed position) a l =
      ground (arith, Claims-reserve g inv position w)
  Effect-Local (reserve room w) (Pc.holding position view) a l =
      ground (arith, Claims-reserve g inv position w)
  Effect-Local (reserve room w) (Pc.releasing position) a l =
      ground (arith, Claims-reserve g inv position w)
  Effect-Local (reserve room w) (Pc.vacating position) a l =
      ground (arith, Claims-reserve g inv position w)
  Effect-Local (reserve room w) (Pc.recv_finished Outcome.corrupted) a l = l
  Effect-Local (reserve room w) (Pc.send_finished req Outcome.fatal) a l = ground arith
  Effect-Local (reserve room w) (Pc.send_finished req Outcome.corrupted) a l = l
  Effect-Local (reserve room w) q a l = ground arith
  Effect-Local (claim w) (Pc.recv_finished Outcome.corrupted) a l = l
  Effect-Local (claim w) (Pc.send_finished req outcome) a l = l
  Effect-Local (claim w) q a l = ground arith
  Effect-Local (fill position s h e) (Pc.recv_finished Outcome.corrupted) a l = l
  Effect-Local (fill position s h e) (Pc.send_finished req outcome) a l = l
  Effect-Local (fill position s h e) q a l = ground arith
  Effect-Local (publish position req s h e c ok) (Pc.recv_finished Outcome.corrupted) a l = l
  Effect-Local (publish position req s h e c ok) (Pc.send_finished req' outcome) a l = l
  Effect-Local (publish position req s h e c ok) q a l = ground arith
  Effect-Local (vacate position s h room e) (Pc.recv_finished Outcome.corrupted) a l = l
  Effect-Local (vacate position s h room e) (Pc.send_finished req outcome) a l = l
  Effect-Local (vacate position s h room e) q a l = ground arith
