-- ===== src/Collective/Broadcast/Ring.antt =====
-- The pipeline of the ring: a piece goes on one step after it came.
use lci.Base.{
  ℕ, suc, ◌+◌, ◌-◌, ◌%◌, ◌<◌, ◌≡◌, ap, ◌∙◌, sym, not, if◌then◌else◌, ◌==◌, none, some, arith,
}
use lci.Collective.Broadcast.{piece, when, ring_step}

received_eq :
    (n root rank size nsteps step : ℕ)
    → step < nsteps
    → (ring_step n root rank size nsteps step).received
      ≡ when (not (rank == root)) (piece size nsteps step)
unfolding ring_step
received_eq n root rank size nsteps step h = ground arith

sent_eq :
    (n root rank size nsteps step : ℕ)
    → step < nsteps
    → (ring_step n root rank size nsteps (suc step)).sent
      ≡ when (not ((rank + 1) % n == root)) (piece size nsteps step)
unfolding ring_step
sent_eq n root rank size nsteps step h =
    ground (arith, ap (piece size nsteps) {x = suc step - 1} {y = step} (omega arith))

-- In the ring of a broadcast a rank sends to its right neighbour, one step later, the piece that
-- the neighbour receives, and nothing else; a rank that is not the root receives in each step but
-- the last the piece of that step, and the root receives none.
pub ring_matched :
    (nranks root rank size nsteps step : ℕ)
    → step < nsteps
    → ((ring_step nranks root rank size nsteps (suc step)).sent
        ≡ (ring_step nranks root ((rank + 1) % nranks) size nsteps step).received)
      × ((ring_step nranks root rank size nsteps step).received
          ≡ (if rank == root then none else some (piece size nsteps step)))
      × ((ring_step nranks root rank size nsteps 0).sent ≡ none)
      × ((ring_step nranks root rank size nsteps nsteps).received ≡ none)
unfolding ring_step
ring_matched n root rank size nsteps step h = (
  sent_eq n root rank size nsteps step h
      ∙ sym (received_eq n root ((rank + 1) % n) size nsteps step h),
  received_eq n root rank size nsteps step h ∙ ground arith,
  ground arith,
  ground arith,
)
