-- ===== src/ShmRing/Invariant/Access.antt =====
-- What one access of a thread does: an effect on the ring, and what its new locals say.
use lci.Base.{
  ℕ, zero, suc, ◌+◌, ◌-◌, ◌*◌, ◌/◌, ◌%◌, ◌≤◌, ◌<◌, ◌≡◌, refl, sym, ◌∙◌, ◌⊎◌, inl, inr, ◌≢◌, Bool,
  true, false, ◌&&◌, ◌||◌, not, none, some, arith, ◌==◌, leb, ltb, take-take-append, drop, dec_lt,
  dec_le, Bool-cases, subst, ==_refl,
}
use lci.Base.Int.{is_negative}
use lci.Base.Division.{mod-injective}
use native.Mathlib.Nat.{mod-lt}
use lci.ShmRing.{
  Slot, Ring, View, maximum_position, slot_index, encode_sequence, published, reusable,
  previous_generation, is_previous_generation, max_payload_size,
}
use lci.ShmRing.Machine.{
  Request, Pc, view_slot, message, fill, recycle, rejected, bytes_of, step, store_sequence,
}
use lci.ShmRing.System.{log_sent}
use lci.ShmRing.Invariant.Defs.{
  IsGeometry, IsSendable, Carries, SlotInv, RingInv, Claims, Local, WordBefore, writes, reads,
  word_at,
}
use lci.ShmRing.Invariant.Effects.{
  Effect, quiet, reserve, claim, publish, vacate, Apart, slot_count_pos, slot_index-mod,
}
use lci.ShmRing.Invariant.Effects

-- No two threads own one position.
abbrev pub Distinct : Pc → Pc → Type 0
Distinct p q =
    (position : ℕ)
    → ((writes p ≡ some position → writes q ≢ some position)
        × (reads p ≡ some position → reads q ≢ some position))

pub record Advance (v : View) (r : Ring) (sent sent' : ℕ → Request) (p : Pc) (r' : Ring) (p' : Pc)
    : Type 0 where
  pub effect : Effect v r sent r' sent'
  pub locals : Local v r' sent' p'
  pub apart : (q : Pc) → Distinct p q → Apart effect q
  pub fresh_write :
      (position : ℕ)
      → writes p' ≡ some position
      → (writes p ≡ some position) ⊎ (position ≡ r.producer_position)
  pub fresh_read :
      (position : ℕ)
      → reads p' ≡ some position
      → (reads p ≡ some position) ⊎ (position ≡ r.consumer_position)

module _ {v : View} {k : ℕ} (g : IsGeometry v k) {r : Ring} {sent : ℕ → Request}
    (inv : RingInv v r sent) where
  pub at_slot : (position : ℕ) → SlotInv v r sent (slot_index v position)
  at_slot position =
      inv.slots (slot_index v position)
        (rw (slot_index-mod g position) (mod-lt position (slot_count_pos g)))

  -- Within a period on each side of `x`, a slot of its index holds `x` or the generation before.
  pub generation_near :
      (x : ℕ)
      → x ≤ word_at v r x / 2 + v.slot_count
      → word_at v r x / 2 < x + v.slot_count
      → (word_at v r x / 2 ≡ x) ⊎ (word_at v r x / 2 + v.slot_count ≡ x)
  generation_near x low high = elim (dec_le x (word_at v r x / 2)) [
    | yes p ↦ inl (sym (mod-injective v.slot_count x (word_at v r x / 2) (sym same) p high))
    | no p ↦ elim (dec_lt x (word_at v r x / 2 + v.slot_count)) [
      | yes q ↦ inl (mod-injective v.slot_count (word_at v r x / 2) x same (omega arith) q)
      | no q ↦ inr (omega arith)
    ]
  ]
    where
      same : word_at v r x / 2 % v.slot_count ≡ x % v.slot_count
      same = (at_slot x).residue ∙ slot_index-mod g x

  -- At the head, a word that is not free for its producer is of the generation before.
  pub head_word :
      (x : ℕ) → r.producer_position ≡ x → word_at v r x ≢ x * 2 → WordBefore v x (word_at v r x)
  head_word x e n = ground (
    arith,
    at_slot x,
    inv.ordered,
    generation_near x (omega (arith, (at_slot x).above))
        (omega (arith, (at_slot x).below, inv.ordered)),
  )

  -- At the tail, a word that is not published is free or still claimed in the generation before.
  pub tail_word :
      (x : ℕ)
      → r.consumer_position ≡ x
      → word_at v r x ≢ x * 2 + 1
      → (word_at v r x ≡ x * 2)
        ⊎ ((v.slot_count ≤ x) × (word_at v r x ≡ (x - v.slot_count) * 2 + 1))
  tail_word x e n = ground (
    arith,
    at_slot x,
    inv.ordered,
    slot_count_pos g,
    generation_near x (omega (arith, (at_slot x).above, inv.ordered))
        (omega (arith, (at_slot x).below)),
  )

  pub fill-Carries : (s : Slot) (req : Request) → IsSendable v req → Carries (fill s req) req
  unfolding fill view_slot message rejected
  fill-Carries s req ok = ground (
    arith,
    g.payload_fits,
    ok.accepted,
    take-take-append req.size (bytes_of req.buffer) (drop req.size s.payload) ok.bytes,
  )

  -- The check of the claimed fields cannot fail on a message that `post_send` accepted.
  pub sendable_sound :
      (s : Slot) (req : Request)
      → Carries s req
      → IsSendable v req
      → (ltb (max_payload_size v) s.payload_size || is_negative s.source_global_rank) ≡ false
  unfolding view_slot message rejected
  sendable_sound s req c ok = ground (arith, ok.accepted)

  pub claimed-Carries :
      (position : ℕ)
      → Claims v r position
      → Carries (r.slot (slot_index v position)) (sent position) × IsSendable v (sent position)
  claimed-Carries position h = ground (arith, at_slot position)

  -- An access that changes no shared word, and owns nothing that was not owned before.
  pub quietly :
      (p p' : Pc)
      → Local v r sent p'
      → ((position : ℕ) → writes p' ≡ some position → writes p ≡ some position)
      → ((position : ℕ) → reads p' ≡ some position → reads p ≡ some position)
      → Advance v r sent sent p r p'
  quietly p p' l fw fr = record {
    effect = quiet;
    locals = l;
    apart = λ q d. tt;
    fresh_write = λ x e. inl (fw x e);
    fresh_read = λ x e. inl (fr x e);
  }

  recycle-Advance :
      (p p' : Pc) (position : ℕ)
      → Claims v r position
      → reads p ≡ some position
      → ((r' : Ring) → Local v r' sent p')
      → writes p' ≡ none
      → reads p' ≡ none
      → Advance v r sent sent p (recycle v r position) p'
  unfolding recycle
  recycle-Advance p p' position h own l nw nr =
      elim (Bool-cases (leb position (maximum_position - v.slot_count))) [
        | inl e ↦
            rw (e, recycle)
              (record {
                effect =
                    vacate position
                      (record (r.slot (slot_index v position)) {
                        sequence = encode_sequence (position + v.slot_count) reusable;
                      })
                      h (ground (arith, g.encodable)) (ground (arith, g.encodable));
                locals = l (
                    store_sequence v r position
                      (encode_sequence (position + v.slot_count) reusable));
                apart = λ q d. (d position).1 own;
                fresh_write = λ x e. cc;
                fresh_read = λ x e. cc;
              })
        | inr e ↦ rw (e, recycle) (quietly p p' (l r) (λ x e. cc) (λ x e. cc))
      ]

  reserve-Advance :
      (left : ℕ) (req : Request)
      → IsSendable v req
      → r.producer_position < maximum_position
      → word_at v r r.producer_position ≡ r.producer_position * 2
      → Advance v r sent sent
          (Pc.before_cas left req r.producer_position)
          (record r { producer_position = r.producer_position + 1 })
          (Pc.reserved req r.producer_position)
  reserve-Advance left req ok room w = record {
    effect = reserve room w;
    locals = (ok, (inv.ordered, omega arith, w));
    apart = λ q d. tt;
    fresh_write = λ x e. inr (ground arith);
    fresh_read = λ x e. cc;
  }

  claim-Advance :
      (left : ℕ)
      → word_at v r r.consumer_position ≡ r.consumer_position * 2 + 1
      → Advance v r sent sent
          (Pc.claiming left r.consumer_position)
          (record r { consumer_position = r.consumer_position + 1 })
          (Pc.claimed r.consumer_position)
  claim-Advance left w = record {
    effect = claim w;
    locals = ground (arith, at_slot r.consumer_position);
    apart = λ q d. tt;
    fresh_write = λ x e. cc;
    fresh_read = λ x e. inr (ground arith);
  }

  module _ (weak : Bool) where
    abbrev Advances : Pc → Type 0
    Advances p = Advance v r sent (log_sent p sent) p (step v weak r p).0 (step v weak r p).1

    step-reserving :
        (left : ℕ) (req : Request)
        → Local v r sent (Pc.reserving left req)
        → Advances (Pc.reserving left req)
    unfolding step
    step-reserving zero req l = quietly _ _ tt (λ x e. cc) (λ x e. cc)
    step-reserving (suc left) req l = elim (Bool-cases (leb maximum_position r.producer_position)) [
      | inl e ↦ rw (e, step) (quietly _ _ (inr (ground arith)) (λ x e. cc) (λ x e. cc))
      | inr e ↦ rw (e, step) (quietly _ _ (ground arith) (λ x e. cc) (λ x e. cc))
    ]

    step-head_loaded :
        (left : ℕ) (req : Request) (x : ℕ)
        → Local v r sent (Pc.head_loaded left req x)
        → Advances (Pc.head_loaded left req x)
    unfolding step
    step-head_loaded left req x l =
        elim (Bool-cases (word_at v r x == encode_sequence x reusable)) [
          | inl e ↦ rw (e, step) (quietly _ _ (ground arith) (λ x e. cc) (λ x e. cc))
          | inr e ↦
              rw (e, step)
                (quietly _ _ (l.0, l.1, l.2, λ p. head_word x p (ground arith)) (λ x e. cc)
                  (λ x e. cc))
        ]

    step-mismatched :
        (left : ℕ) (req : Request) (x s : ℕ)
        → Local v r sent (Pc.mismatched left req x s)
        → Advances (Pc.mismatched left req x s)
    unfolding step
    step-mismatched left req x s l = elim (Bool-cases (r.producer_position == x)) [
      | inr e ↦ rw (e, step) (quietly _ _ l.2 (λ x e. cc) (λ x e. cc))
      | inl e ↦ rw (e, step, previous (l.3 (ground arith))) (quietly _ _ tt (λ x e. cc) (λ x e. cc))
    ]
      where
        previous : WordBefore v x s → is_previous_generation v s x ≡ true
        previous w = ground (arith, g.encodable)

    step-before_cas :
        (left : ℕ) (req : Request) (x : ℕ)
        → Local v r sent (Pc.before_cas left req x)
        → Advances (Pc.before_cas left req x)
    unfolding step
    step-before_cas left req x l = elim (Bool-cases ((r.producer_position == x) && not weak)) [
      | inr e ↦ rw (e, step) (quietly _ _ l.2 (λ x e. cc) (λ x e. cc))
      | inl e ↦ rw (e, step) (won (ground arith))
    ]
      where
        won :
            r.producer_position ≡ x
            → Advance v r sent sent
                (Pc.before_cas left req x)
                (record r { producer_position = x + 1 })
                (Pc.reserved req x)
        won p =
            subst
              (λ y.
                Advance v r sent sent (Pc.before_cas left req y)
                  (record r { producer_position = y + 1 }) (Pc.reserved req y))
              p (reserve-Advance left req l.2 (ground arith) (ground (arith, l.3 p)))

    step-reserved :
        (req : Request) (x : ℕ) → Local v r sent (Pc.reserved req x) → Advances (Pc.reserved req x)
    unfolding step
    step-reserved req x l =
        rw (matches, step)
          (record {
            effect = Effects.fill x (fill (r.slot (slot_index v x)) req) l.1 kept;
            locals = (
              l.0,
              (l.1.0, l.1.1, ground arith),
              rw (==_refl (slot_index v x)) (fill-Carries (r.slot (slot_index v x)) req l.0),
            );
            apart = λ q d. (d x).0 refl;
            fresh_write = λ y e. inl e;
            fresh_read = λ y e. cc;
          })
      where
        matches : (word_at v r x == encode_sequence x reusable) ≡ true
        matches = ground (arith, inv.bounded)

        kept : (fill (r.slot (slot_index v x)) req).sequence ≡ x * 2
        kept = ground arith

    step-filled :
        (req : Request) (x : ℕ) → Local v r sent (Pc.filled req x) → Advances (Pc.filled req x)
    unfolding step view_slot
    step-filled req x l = record {
      effect =
          publish x req
            (record (r.slot (slot_index v x)) { sequence = encode_sequence x published }) l.1
            (ground (arith, inv.bounded)) l.2 l.0;
      locals = tt;
      apart = λ q d. (d x).0 refl;
      fresh_write = λ y e. cc;
      fresh_read = λ y e. cc;
    }

    step-tail_loaded :
        (left x : ℕ) → Local v r sent (Pc.tail_loaded left x) → Advances (Pc.tail_loaded left x)
    unfolding step
    step-tail_loaded left x l = elim (Bool-cases (word_at v r x == encode_sequence x published)) [
      | inl e ↦
          rw (e, step)
            (quietly _ _ (l, λ p. ground (arith, inv.bounded, inv.ordered)) (λ y e. cc) (λ y e. cc))
      | inr e ↦
          rw (e, step)
            (quietly _ _ (l, λ p. tail_word x p (ground (arith, inv.bounded, inv.ordered)))
              (λ y e. cc) (λ y e. cc))
    ]

    step-stale : (left x s : ℕ) → Local v r sent (Pc.stale left x s) → Advances (Pc.stale left x s)
    unfolding step
    step-stale left x s l = elim (Bool-cases (r.consumer_position == x)) [
      | inr e ↦ rw (e, step) (quietly _ _ tt (λ y e. cc) (λ y e. cc))
      | inl e ↦ rw (e, step, expected (l.1 (ground arith))) (quietly _ _ tt (λ y e. cc) (λ y e. cc))
    ]
      where
        expected :
            (s ≡ x * 2) ⊎ ((v.slot_count ≤ x) × (s ≡ (x - v.slot_count) * 2 + 1))
            → ((s == encode_sequence x reusable)
                || (leb v.slot_count x
                    && (s == encode_sequence (previous_generation v x) published)))
              ≡ true
        expected w = ground (arith, inv.bounded, inv.ordered)

    step-claiming :
        (left x : ℕ) → Local v r sent (Pc.claiming left x) → Advances (Pc.claiming left x)
    unfolding step
    step-claiming left x l = elim (Bool-cases ((r.consumer_position == x) && not weak)) [
      | inr e ↦ rw (e, step) (quietly _ _ tt (λ x e. cc) (λ x e. cc))
      | inl e ↦ rw (e, step) (won (ground arith))
    ]
      where
        won :
            r.consumer_position ≡ x
            → Advance v r sent sent
                (Pc.claiming left x)
                (record r { consumer_position = x + 1 })
                (Pc.claimed x)
        won p =
            subst
              (λ y.
                Advance v r sent sent (Pc.claiming left y) (record r { consumer_position = y + 1 })
                  (Pc.claimed y))
              p (claim-Advance left (ground (arith, l.1 p)))

    step-claimed : (x : ℕ) → Local v r sent (Pc.claimed x) → Advances (Pc.claimed x)
    unfolding step
    step-claimed x l =
        rw (sound, step) (quietly _ _ (l, refl, (claimed-Carries x l).0) (λ y e. cc) (λ y e. e))
      where
        sound :
            (ltb (max_payload_size v) (r.slot (slot_index v x)).payload_size
              || is_negative (r.slot (slot_index v x)).source_global_rank)
            ≡ false
        sound =
            sendable_sound (r.slot (slot_index v x)) (sent x) (claimed-Carries x l).0
              (claimed-Carries x l).1

    step-releasing : (x : ℕ) → Local v r sent (Pc.releasing x) → Advances (Pc.releasing x)
    unfolding step
    step-releasing x l = rw (matches, step) (quietly _ _ l (λ y e. cc) (λ y e. e))
      where
        matches : (word_at v r x == encode_sequence x published) ≡ true
        matches = ground (arith, inv.bounded, inv.ordered)

    -- Each access of a thread whose locals are sound.
    pub step-Advance : (p : Pc) → Local v r sent p → Advances p
    unfolding step
    step-Advance Pc.idle l = quietly _ _ tt (λ y e. e) (λ y e. e)
    step-Advance (Pc.reserving left req) l = step-reserving left req l
    step-Advance (Pc.head_loaded left req x) l = step-head_loaded left req x l
    step-Advance (Pc.before_cas left req x) l = step-before_cas left req x l
    step-Advance (Pc.mismatched left req x s) l = step-mismatched left req x s l
    step-Advance (Pc.reserved req x) l = step-reserved req x l
    step-Advance (Pc.filled req x) l = step-filled req x l
    step-Advance (Pc.send_finished req outcome) l = quietly _ _ l (λ y e. e) (λ y e. e)
    step-Advance (Pc.polling zero) l = quietly _ _ tt (λ y e. cc) (λ y e. cc)
    step-Advance (Pc.polling (suc left)) l = quietly _ _ (omega arith) (λ y e. cc) (λ y e. cc)
    step-Advance (Pc.tail_loaded left x) l = step-tail_loaded left x l
    step-Advance (Pc.claiming left x) l = step-claiming left x l
    step-Advance (Pc.stale left x s) l = step-stale left x s l
    step-Advance (Pc.claimed x) l = step-claimed x l
    step-Advance (Pc.holding x view) l = quietly _ _ l (λ y e. e) (λ y e. e)
    step-Advance (Pc.releasing x) l = step-releasing x l
    step-Advance (Pc.vacating x) l = recycle-Advance _ _ x l refl (λ r'. tt) refl refl
    step-Advance (Pc.recv_finished outcome) l = quietly _ _ l (λ y e. e) (λ y e. e)
