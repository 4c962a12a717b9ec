-- ===== src/ShmRing/Safety.antt =====
-- What holds in every reachable state of the ring, however its threads interleave.
use lci.Base.{ℕ, ◌+◌, ◌-◌, ◌/◌, ◌≤◌, ◌<◌, ◌≡◌, ◌⊎◌, ◌≢◌, true, some, arith, subst}
use lci.ShmRing.{
  View, maximum_position, slot_index, initial_position_accepted, recv_available_approx,
}
use lci.ShmRing.Machine.{
  Request, RecvSlot, rejected, message, view_slot, send_finished, recv_finished, holding, fatal,
  corrupted,
}
use lci.ShmRing.System.{System, Reach}
use lci.ShmRing.Invariant.{
  IsGeometry, writes, reads, Inv, RingInv, word_at, writes-Reserves, reads-Claims, Reach-Inv, Local,
  generation_near, at_slot,
}

module _ {v : View} {k : ℕ} (g : IsGeometry v k) (position : ℕ)
    (ok : initial_position_accepted v position ≡ true) {s : System}
    (reach : Reach v position s) where
  -- No interleaving of any number of threads makes an operation throw: neither the state check of
  -- `publish`, nor that of `poll`, nor its check of the claimed fields, nor that of `release` fails.
  pub never_corrupted :
      (i : ℕ)
      → (s.pc i ≢ recv_finished corrupted)
        × ((req : Request) → s.pc i ≢ send_finished req corrupted)
  never_corrupted i = (
    λ e. ground (arith, (Reach-Inv g position ok reach).locals i),
    λ req e. ground (arith, (Reach-Inv g position ok reach).locals i),
  )

  -- `post_send` returns `fatal` only for arguments that it refuses, or once the positions are used up.
  pub fatal_explained :
      (i : ℕ) (req : Request)
      → s.pc i ≡ send_finished req fatal
      → (rejected v req ≡ true) ⊎ (maximum_position ≤ s.ring.producer_position)
  fatal_explained i req e = ground (arith, (Reach-Inv g position ok reach).locals i)

  -- Two threads that write payloads, two that hold views, and one of each, are never at one slot:
  -- the slot is private to its producer until it is published, and to its consumer until released.
  pub slots_exclusive :
      (i j x y : ℕ)
      → slot_index v x ≡ slot_index v y
      → (writes (s.pc i) ≡ some x → writes (s.pc j) ≡ some y → i ≡ j)
        × (reads (s.pc i) ≡ some x → reads (s.pc j) ≡ some y → i ≡ j)
        × (writes (s.pc i) ≡ some x → reads (s.pc j) ≡ some y → ⊥)
  slots_exclusive i j x y e = (
    λ p q. inv.writers i j x p (
        ground (
          arith,
          writes-Reserves v s.ring s.sent (s.pc i) x (inv.locals i) p,
          writes-Reserves v s.ring s.sent (s.pc j) y (inv.locals j) q,
        )),
    λ p q. inv.readers i j x p (
        ground (
          arith,
          reads-Claims v s.ring s.sent (s.pc i) x (inv.locals i) p,
          reads-Claims v s.ring s.sent (s.pc j) y (inv.locals j) q,
        )),
    λ p q. ground (
      arith,
      writes-Reserves v s.ring s.sent (s.pc i) x (inv.locals i) p,
      reads-Claims v s.ring s.sent (s.pc j) y (inv.locals j) q,
    ),
  )
    where
      inv : Inv v s
      inv = Reach-Inv g position ok reach

  -- A view shows the message that was published at its position, and shows it still: the slot is not
  -- overwritten while the view is held.
  pub holding-message :
      (i x : ℕ) (view : RecvSlot)
      → s.pc i ≡ holding x view
      → (view ≡ message (s.sent x))
        × (view ≡ view_slot (s.ring.slot (slot_index v x)))
        × (x < s.ring.consumer_position)
  holding-message i x view e =
      let held : Local v s.ring s.sent (holding x view) =
        subst (Local v s.ring s.sent) e ((Reach-Inv g position ok reach).locals i) in
      (held.2, held.1, held.0.0)

  -- Reserved positions never run more than a ring ahead of claimed ones, and the approximate count
  -- of `recv_available_approx` is exactly the number of positions in between.
  pub occupancy :
      (s.ring.consumer_position ≤ s.ring.producer_position)
      × (s.ring.producer_position ≤ s.ring.consumer_position + v.slot_count)
      × (recv_available_approx v s.ring ≡ s.ring.producer_position - s.ring.consumer_position)
  unfolding recv_available_approx
  occupancy = ground (arith, at_slot g inv s.ring.consumer_position, near, inv.ordered, inv.bounded)
    where
      inv : RingInv v s.ring s.sent
      inv = (Reach-Inv g position ok reach).ring

      near :
          (word_at v s.ring s.ring.consumer_position / 2 ≡ s.ring.consumer_position)
          ⊎ (word_at v s.ring s.ring.consumer_position / 2 + v.slot_count
              ≡ s.ring.consumer_position)
      near =
          generation_near g inv s.ring.consumer_position
            (omega (arith, (at_slot g inv s.ring.consumer_position).above, inv.ordered))
            (omega (arith, (at_slot g inv s.ring.consumer_position).below))
