-- ===== src/ShmRing/Solo.antt =====
-- Operations that run with no other thread in between: they return, and with these results.
use lci.Base.{ℕ, zero, suc, ◌+◌, ◌*◌, ◌<◌, ◌≡◌, refl, ◌∙◌, ◌≢◌, false, arith, ap, update}
use lci.ShmRing.{
  Slot, Ring, View, maximum_position, slot_index, encode_sequence, published, put_slot,
  is_previous_generation, previous_generation,
}
use lci.ShmRing.Machine.{
  Request, Pc, rejected, message, view_slot, fill, step, store_sequence, post_send, poll,
  send_finished, polling, tail_loaded, claiming, claimed, holding, recv_finished, done, retry_nomem,
  empty,
}
use lci.ShmRing.Invariant.{
  IsGeometry, IsSendable, RingInv, word_at, Carries, head_word, tail_word, sendable_sound, at_slot,
  SlotInv,
}

-- `n` accesses of one thread, none of which fails spuriously.
unfoldable pub solo : ℕ → View → Ring × Pc → Ring × Pc
solo zero v c = c
solo (suc n) v c = solo n v (step v false c.0 c.1)

solo-suc :
    (n : ℕ) (v : View) (r : Ring) (p : Pc) {r' : Ring} {p' : Pc}
    → step v false r p ≡ (r', p')
    → solo (suc n) v (r, p) ≡ solo n v (r', p')
unfolding solo
solo-suc n v r p e = ap (solo n v) e

solo-zero : (v : View) (c : Ring × Pc) → solo zero v c ≡ c
unfolding solo
solo-zero v c = refl

-- The ring after an undisturbed `post_send`.
unfoldable pub after_send : View → Ring → Request → Ring
unfolding put_slot store_sequence
after_send v r req =
    store_sequence v
      (put_slot (record r { producer_position = r.producer_position + 1 })
        (slot_index v r.producer_position) (fill (r.slot (slot_index v r.producer_position)) req))
      r.producer_position (encode_sequence r.producer_position published)

-- What an undisturbed `post_send` is to leave.
pub record IsSent (v : View) (r : Ring) (sent : ℕ → Request) (req : Request) (result : Ring × Pc)
    : Type 0 where
  pub after : Ring
  pub runs : result ≡ (after, send_finished req done)
  pub advanced : after.producer_position ≡ r.producer_position + 1
  pub same_tail : after.consumer_position ≡ r.consumer_position
  pub is_published : word_at v after r.producer_position ≡ r.producer_position * 2 + 1
  pub shows : view_slot (after.slot (slot_index v r.producer_position)) ≡ message req
  pub others : (i : ℕ) → i ≢ slot_index v r.producer_position → after.slot i ≡ r.slot i
  pub valid : RingInv v after (update sent r.producer_position req)

module _ {v : View} {k : ℕ} (g : IsGeometry v k) {r : Ring} {sent : ℕ → Request}
    (inv : RingInv v r sent) where
  module _ (req : Request) (ok : IsSendable v req) (room : r.producer_position < maximum_position)
      (free : word_at v r r.producer_position ≡ r.producer_position * 2) where
    abbrev head : ℕ
    head = r.producer_position

    abbrev claimed_ring : Ring
    claimed_ring = record r { producer_position = head + 1 }

    abbrev filled_slot : Slot
    filled_slot = fill (r.slot (slot_index v head)) req

    abbrev filled_ring : Ring
    filled_ring = put_slot claimed_ring (slot_index v head) filled_slot

  -- On a full ring it returns `retry_nomem` and changes nothing.
  pub solo-send_full :
      (req : Request) (attempts : ℕ)
      → v.producer_cas_attempts ≡ suc attempts
      → rejected v req ≡ false
      → r.producer_position < maximum_position
      → word_at v r r.producer_position ≢ r.producer_position * 2
      → solo 3 v (r, post_send v req) ≡ (r, send_finished req retry_nomem)
  unfolding solo post_send step encode_sequence is_previous_generation previous_generation
  solo-send_full req attempts tries accepted room full =
      ground (arith, head_word g inv r.producer_position refl full, g.encodable)

  -- With a published message at the tail and an attempt left, an undisturbed `poll` claims it.
  pub solo-poll :
      (attempts : ℕ)
      → v.consumer_cas_attempts ≡ suc attempts
      → word_at v r r.consumer_position ≡ r.consumer_position * 2 + 1
      → solo 4 v (r, poll v) ≡ (
        record r { consumer_position = r.consumer_position + 1 },
        holding r.consumer_position (message (sent r.consumer_position)),
      )
  unfolding poll step encode_sequence
  solo-poll attempts tries full =
      ap (λ n. solo 4 v (r, polling n)) tries
      ∙ solo-suc 3 v _ _ loads
      ∙ solo-suc 2 v _ _ matches
      ∙ solo-suc 1 v _ _ wins
      ∙ solo-suc 0 v _ _ views
      ∙ solo-zero v _
    where
      x : ℕ
      x = r.consumer_position

      loads : step v false r (polling (suc attempts)) ≡ (r, tail_loaded attempts x)
      loads = refl

      matches : step v false r (tail_loaded attempts x) ≡ (r, claiming attempts x)
      matches = ground (arith, inv.bounded, inv.ordered)

      wins :
          step v false r (claiming attempts x) ≡ (record r { consumer_position = x + 1 }, claimed x)
      wins = ground arith

      there : SlotInv v r sent (slot_index v x)
      there = at_slot g inv x

      carried : Carries (r.slot (slot_index v x)) (sent x) × IsSendable v (sent x)
      carried = ground (arith, there)

      views :
          step v false (record r { consumer_position = x + 1 }) (claimed x)
          ≡ (record r { consumer_position = x + 1 }, holding x (message (sent x)))
      views =
          rw
            (sendable_sound g inv (r.slot (slot_index v x)) (sent x) carried.0 carried.1, carried.0)

  -- With none it returns `false` and changes nothing.
  pub solo-poll_empty :
      (attempts : ℕ)
      → v.consumer_cas_attempts ≡ suc attempts
      → word_at v r r.consumer_position ≢ r.consumer_position * 2 + 1
      → solo 3 v (r, poll v) ≡ (r, recv_finished empty)
  unfolding solo poll step encode_sequence previous_generation
  solo-poll_empty attempts tries none_there = ground (
    arith,
    tail_word g inv r.consumer_position refl none_there,
    g.encodable,
    inv.bounded,
    inv.ordered,
  )
