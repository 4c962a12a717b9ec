-- ===== src/PacketSet/Liveness.antt =====
-- A thread whose lock is free gets the packets of its own pool.
use mathlib.Core.List.{reverse}
use lci.Base.{
  ℕ, ◌<◌, ◌≡◌, refl, subst, sym, Bool, true, false, min, some, List, [], ◌++◌, length, length-set,
  get_or, set, ◌==◌, arith,
}
use lci.PacketSet.{size}
use lci.PacketSet.Deque.{Holds-size}
use lci.PacketSet.Conservation.{AllHold-set}
use lci.PacketSet.Pools.{
  MpmcSet, Attempt, no_pool, get_local_pool, found_pool, any_free, with_popped, pop_local, get_from,
  get_n,
}
use lci.PacketSet.Locals.{IsHeld, pop_n-IsTaken}

-- A thread that takes its lock in one of its attempts, and whose own pool is not empty, gets the
-- last packets of that pool, the last one first: as many as it asks for, or all of them if there
-- are fewer. The pool keeps the packets before them, and every other pool its own.
pub get_n-gives :
    (tid n id : ℕ) (locks : List Bool) (attempts : List Attempt) (s : MpmcSet) (ls : List (List ℕ))
    → IsHeld s ls
    → s.tid_to_pools tid ≡ some id
    → any_free locks ≡ true
    → 0 < length (get_or ls id [])
    → (after : MpmcSet) × (out : List ℕ) × (kept : List ℕ) × (get_n tid n locks attempts s
        ≡ some (after, out))
      × (length out ≡ min n (length (get_or ls id [])))
      × (kept ++ reverse out ≡ get_or ls id [])
      × IsHeld after (set ls id kept)
unfolding get_n get_local_pool found_pool get_from pop_local with_popped
get_n-gives tid n id locks attempts s ls h known free filled =
    let inside = h.found tid id known in
    let held = h.hold.each id inside in
    let t = pop_n-IsTaken n (get_or s.pools id no_pool) (get_or ls id []) held in
    (
      record s { pools = set s.pools id t.after },
      t.out,
      t.kept,
      rw (known, free, not_empty, t.runs) refl,
      t.taken,
      t.from_bot,
      record {
        hold = AllHold-set s.pools ls id t.after t.kept h.hold inside t.held;
        found = λ u i e. subst (λ m. i < m) (sym (length-set s.pools id t.after)) (h.found u i e);
        sized = h.sized;
      },
    )
  where
    not_empty : (size (get_or s.pools id no_pool) == 0) ≡ false
    not_empty = ground (
      arith,
      Holds-size (get_or s.pools id no_pool) (get_or ls id [])
          (h.hold.each id (h.found tid id known)),
    )
