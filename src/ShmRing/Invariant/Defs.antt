-- ===== src/ShmRing/Invariant/Defs.antt =====
-- A slot word is read as its generation (the position it stands for) and its state bit.
use lci.Base.{
  ℕ, ◌+◌, ◌-◌, ◌*◌, ◌/◌, ◌%◌, ◌^◌, ◌≤◌, ◌<◌, ◌≡◌, ◌⊎◌, true, false, Option, none, some, length,
  arith,
}
use lci.ShmRing.{Slot, Ring, View, maximum_position, slot_index, max_payload_size}
use lci.ShmRing.Machine

-- What `required_size` and the constructor of `ring_t` guarantee.
pub record IsGeometry (v : View) (k : ℕ) : Type 0 where
  pub power : v.slot_count ≡ 2 ^ k
  pub encodable : v.slot_count ≤ maximum_position
  pub payload_fits : max_payload_size v < 2 ^ 32

-- A request whose buffer holds the bytes that it says, and that `post_send` accepts.
pub record IsSendable (v : View) (req : Machine.Request) : Type 0 where
  pub accepted : Machine.rejected v req ≡ false
  pub bytes : req.size ≤ length (Machine.bytes_of req.buffer)

abbrev pub word : Ring → ℕ → ℕ
word r i = (r.slot i).sequence

-- The slot holds the fields and the bytes of the request.
abbrev pub Carries : Slot → Machine.Request → Type 0
Carries s req = Machine.view_slot s ≡ Machine.message req

-- Why a `post_send` returned what it did. Only exhaustion and bad arguments are fatal.
abbrev pub Explained : View → Ring → Machine.Request → Machine.Outcome → Type 0
Explained v r req Machine.Outcome.fatal =
    (Machine.rejected v req ≡ true) ⊎ (maximum_position ≤ r.producer_position)
Explained v r req Machine.Outcome.corrupted = ⊥
Explained v r req _ = Unit

module _ (v : View) where
  abbrev pub word_at : Ring → ℕ → ℕ
  word_at r position = word r (slot_index v position)

  pub record SlotInv (r : Ring) (sent : ℕ → Machine.Request) (i : ℕ) : Type 0 where
    pub residue : word r i / 2 % v.slot_count ≡ i
    pub below : word r i / 2 < r.consumer_position + v.slot_count
    pub above : r.producer_position ≤ word r i / 2 + v.slot_count
    pub free : word r i % 2 ≡ 0 → r.consumer_position ≤ word r i / 2
    pub full : word r i % 2 ≡ 1 → word r i / 2 < r.producer_position
    pub encoded : word r i / 2 ≤ maximum_position
    pub carries : word r i % 2 ≡ 1 → Carries (r.slot i) (sent (word r i / 2))
    pub sendable : word r i % 2 ≡ 1 → IsSendable v (sent (word r i / 2))

  pub record RingInv (r : Ring) (sent : ℕ → Machine.Request) : Type 0 where
    pub ordered : r.consumer_position ≤ r.producer_position
    pub bounded : r.producer_position ≤ maximum_position
    pub slots : (i : ℕ) → i < v.slot_count → SlotInv r sent i

  -- The word of a position that is not free for its producer: the generation before is still there.
  abbrev pub WordBefore : ℕ → ℕ → Type 0
  WordBefore position sequence =
      (v.slot_count ≤ position)
      × ((sequence ≡ (position - v.slot_count) * 2)
          ⊎ (sequence ≡ (position - v.slot_count) * 2 + 1))

  abbrev pub Reserves : Ring → ℕ → Type 0
  Reserves r position =
      (r.consumer_position ≤ position)
      × (position < r.producer_position)
      × (word_at r position ≡ position * 2)

  abbrev pub Claims : Ring → ℕ → Type 0
  Claims r position =
      (position < r.consumer_position)
      × (r.producer_position ≤ position + v.slot_count)
      × (word_at r position ≡ position * 2 + 1)

  -- What a thread's locals say of the ring.
  abbrev pub Local : Ring → (ℕ → Machine.Request) → Machine.Pc → Type 0
  Local r sent (Machine.Pc.reserving left req) = IsSendable v req
  Local r sent (Machine.Pc.head_loaded left req position) =
      (position ≤ r.producer_position) × (position < maximum_position) × IsSendable v req
  Local r sent (Machine.Pc.before_cas left req position) =
      (position ≤ r.producer_position)
      × (position < maximum_position)
      × IsSendable v req
      × (r.producer_position ≡ position → word_at r position ≡ position * 2)
  Local r sent (Machine.Pc.mismatched left req position sequence) =
      (position ≤ r.producer_position)
      × (position < maximum_position)
      × IsSendable v req
      × (r.producer_position ≡ position → WordBefore position sequence)
  Local r sent (Machine.Pc.reserved req position) = IsSendable v req × Reserves r position
  Local r sent (Machine.Pc.filled req position) =
      IsSendable v req × Reserves r position × Carries (r.slot (slot_index v position)) req
  Local r sent (Machine.Pc.send_finished req outcome) = Explained v r req outcome
  Local r sent (Machine.Pc.tail_loaded left position) = position ≤ r.consumer_position
  Local r sent (Machine.Pc.claiming left position) =
      (position ≤ r.consumer_position)
      × (r.consumer_position ≡ position → word_at r position ≡ position * 2 + 1)
  Local r sent (Machine.Pc.stale left position sequence) =
      (position ≤ r.consumer_position)
      × (r.consumer_position ≡ position
          → (sequence ≡ position * 2)
            ⊎ ((v.slot_count ≤ position) × (sequence ≡ (position - v.slot_count) * 2 + 1)))
  Local r sent (Machine.Pc.claimed position) = Claims r position
  Local r sent (Machine.Pc.holding position view) =
      Claims r position
      × (view ≡ Machine.view_slot (r.slot (slot_index v position)))
      × (view ≡ Machine.message (sent position))
  Local r sent (Machine.Pc.releasing position) = Claims r position
  Local r sent (Machine.Pc.vacating position) = Claims r position
  Local r sent (Machine.Pc.recv_finished Machine.Outcome.corrupted) = ⊥
  Local r sent _ = Unit

-- The position that a thread has reserved and not yet published.
abbrev pub writes : Machine.Pc → Option ℕ
writes (Machine.Pc.reserved req position) = some position
writes (Machine.Pc.filled req position) = some position
writes _ = none

-- The position that a thread has claimed and not yet given back.
abbrev pub reads : Machine.Pc → Option ℕ
reads (Machine.Pc.claimed position) = some position
reads (Machine.Pc.holding position view) = some position
reads (Machine.Pc.releasing position) = some position
reads (Machine.Pc.vacating position) = some position
reads _ = none

-- What a thread owns, it owns in its slot's word.
pub writes-Reserves :
    (v : View) (r : Ring) (sent : ℕ → Machine.Request) (q : Machine.Pc) (x : ℕ)
    → Local v r sent q
    → writes q ≡ some x
    → Reserves v r x
writes-Reserves v r sent Machine.Pc.idle x l e = cc
writes-Reserves v r sent q x l e = ground arith

pub reads-Claims :
    (v : View) (r : Ring) (sent : ℕ → Machine.Request) (q : Machine.Pc) (x : ℕ)
    → Local v r sent q
    → reads q ≡ some x
    → Claims v r x
reads-Claims v r sent Machine.Pc.idle x l e = cc
reads-Claims v r sent (Machine.Pc.recv_finished Machine.Outcome.corrupted) x l e = cc
reads-Claims v r sent q x l e = ground arith
